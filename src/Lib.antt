-- ===== src/Lib.antt =====
-- JayDB: a document store with an in-memory cache in front of cold storage. It runs embedded, or on
-- a cluster whose nodes route each key to the one owner of its partition.
--
-- Parts, and the files that model them:
--   * The wire format of the requests between nodes, pkg/cluster/binary.go: Cluster.Binary. `Write`
--     has writeBinaryReq and writeBinaryResp over a buffer with a running offset (`Buffer`), `Read`
--     has readBinaryReq and readBinaryResp as functions of the bytes left in the stream. The
--     messages are the structs of pkg/cluster/mesh.go.
--   * The ring that maps a partition to its owner, pkg/sharding/sharding.go: Sharding.Partition has
--     PartitionKey and the FNV hash, Sharding.Ring has the methods of Ring on its state, a map of
--     nodes, the sorted list of their names, and the generation. A method takes the old ring to the
--     new one.
--   * The byte budget that all caches of a process share, pkg/cache/budget.go: Cache.Budget has its
--     methods over the interface `Evictors`, which says what a manager promises of EvictOldest.
--   * The cache manager, pkg/cache/cache.go: Cache.Shard has the critical sections on one shard,
--     Cache.Manager the array of shards and EvictOldest, Cache.Pool shows that the managers are
--     `Evictors`, and Cache.Calls has Get, Put, Delete, Invalidate, PurgeIf and Close over the
--     managers and the budget, which the budget calls back for evictions. Cache.Flight has Get as a
--     step relation, with the map of the calls in flight, for goroutines that interleave.
--   * The cache of listed pages, pkg/cache/list_cache.go: Cache.ListCache has ListPage, InvalidateKey,
--     InvalidatePrefix and Purge on its map, its LRU list and its counters.
--   * The codecs of documents, pkg/encoding/codec.go: Encoding, with encoding/json as a parameter.
--   * The queries between nodes, pkg/cluster/mesh.go: Cluster.Mesh has the signature and its check,
--     serve, handleConn over the bytes of a stream, and roundTrip and ExecuteInterQuery over a
--     connection, which is a function of the bytes that are sent. A handler acts on a state of its own.
--     Cluster.Members has what the events of the members do to the ring and the pools, and
--     Cluster.Start NewNode, Close, and what a node reports of itself and of the members. What the
--     listener and memberlist answer, and the events that memberlist sends in between, are parameters.
--   * The pools of connections, pkg/cluster/pool.go: Cluster.Pool has the pool of one peer as a step
--     relation, since its goroutines interleave, and Cluster.MeshPool the map of pools.
--   * The database, pkg/db/db.go: Db.Ownership has its state and reconcileOwnership, Db.Answers
--     what a call makes of a result, Db.Calls has Get, Put, Delete, their raw forms and Close over the
--     cache's calls and over `ask`, which stands for ExecuteInterQuery, and Db.Listing has ListPage and
--     List. Db.Changes has the options of Put and Delete, and Db.Serving what Open and Close tell the
--     node. Db.Forwarding joins the database, the mesh and the wire format. The ring is shared, so each
--     reading of it by a call is an argument.
--   * The HTTP handler, pkg/server/server.go: Server has its state and NewServer, Server.Handlers the
--     handlers of documents and listings with the forwarding to the owner of a key, and Server.Routes
--     HandleRequest. The database is the interface `Db`, and a query to another node is `ask`. A
--     handler gives the reply, the calls of pkg/metrics and the database's new state. Server.Routes.Owner
--     has the database of Db.Calls in the place of that interface, and as the handler of its node.
--   * The default ceiling of a budget, pkg/cache/sysmem.go: Cache.SysMem.
--   * The types of the storage drivers, pkg/storage/driver.go: Storage. A driver is a parameter of
--     the calls that use one. The driver in memory, pkg/storage/memory/memory.go, is Storage.Memory:
--     its methods on the map of entries, with the hash of generateETag as a parameter. The driver on
--     files, pkg/storage/fs/fs.go, is Storage.Files, over the interface `Os` of the operating
--     system's calls, which may fail. The driver on S3, pkg/storage/s3/s3.go, is Storage.S3, over the
--     interface `Client` of the SDK's calls.
--   * The collector of the cache's metrics, pkg/metrics/metrics.go: Metrics.
--
-- A method under a lock is one function from the old state to the new one. A Go pair of a value and
-- an error is a result. Byte strings are lists of numbers, and a string is the list of its bytes.
-- Numbers that the code keeps in machine words wrap where the code relies on it (the hash, the
-- counters); lengths and byte counts are bounded by memory and do not.
--
-- Fuel: Reserve and the draining of a manager loop until managers run out of entries. They run on
-- fuel; the number of entries times one more than the managers, and one round more, is enough for
-- Reserve, and one more than the entries for a drain. Their theorems say that they return. The list
-- cache evicts with one round more than it has pages. List asks for pages until the keys are
-- exhausted; one more than there are keys is enough. A connection is served with one
-- round more than it carries requests.
--
-- Not modelled: calls that interleave on one list cache, and the steps inside an admission; the
-- configuration of the client of S3; the loop that accepts the connections of
-- the mesh, and the gossip behind memberlist; the listener of the
-- server and its timeouts; the declarations of the metrics and the records of single operations; the
-- readings of the system's memory, which call other packages.
pub mod Base
pub mod Storage
pub mod Encoding
pub mod Sharding
pub mod Cluster
pub mod Cache
pub mod Db
pub mod Server
pub mod Metrics
