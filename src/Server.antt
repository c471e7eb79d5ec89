-- ===== src/Server.antt =====
-- pkg/server/server.go: the HTTP handler of a node. The database is an interface over a state `S`,
-- and a request to another node is the parameter `ask`, as for the database's own calls. The replies
-- and the observations of pkg/metrics are values. A time is not observed, and a call that panics in
-- the database is not modelled.
pub mod Handlers
pub mod Routes
use jaydb.Base.{
  ℕ, ◌*◌, Str, Bytes, List, [], ◌∷◌, ◌++◌, Option, none, some, Bool, Result, codes, if◌then◌else◌,
  str_eq,
}
use jaydb.Storage.{Error, error_text}
use jaydb.Encoding.{CodecError}
use jaydb.Cluster.Binary.Write.{Req, Resp}
use jaydb.Cluster.Mesh.{MeshError}
use jaydb.Sharding.Ring.{Ring}
use jaydb.Db.{Meta, Item}
use jaydb.Db.Answers.{DbError, storage, decode, encode, inter_query, incomplete_response, context}

-- What the server uses of `db.DB`: `Get` into a byte slice, `Put` and `Delete` with the expected ETag
-- of their options, and `List`.
pub record Db (S : Type 0) : Type 0 where
  pub get : Str → S → Result DbError (Meta × Bytes) × S
  pub put : Str → Bytes → Str → S → Result DbError Meta × S
  pub delete : Str → Str → S → Option DbError × S
  pub list : Str → ℕ → S → Result DbError (List Item) × S

-- The parts of a request that the server reads; `limit` is what `GetUintOrZero` gives for it.
pub record Request : Type 0 where
  pub method : Str
  pub path : Str
  pub body : Bytes
  pub if_match : Str
  pub if_none_match : Str
  pub limit : ℕ

-- `ctx.Error` with a status and a message, a JSON body with or without an ETag, a status alone, and
-- what the handler of Prometheus writes.
pub data Reply : Type 0 where
  failed : ℕ → Str → Reply
  json : Option Str → Bytes → Reply
  no_content : Reply
  exposition : Reply

-- `RecordDBOperation`, `ObserveObjectSize` and the increments of `CASConflicts`
pub data Metric : Type 0 where
  db_operation : Str → Str → Metric
  object_size : ℕ → Metric
  cas_conflict : Str → Metric

pub record Outcome (S : Type 0) : Type 0 where
  pub reply : Reply
  pub metrics : List Metric
  pub state : S

-- The functions of other packages: the texts of errors, and the JSON of metadata and of items.
pub record Formats : Type 0 where
  pub mesh_text : MeshError → Str
  pub codec_text : CodecError → Str
  pub meta_json : Meta → Bytes
  pub items_json : List Item → Bytes

-- `ErrIncompleteResponse`
abbrev pub incomplete_text : Str
incomplete_text = codes "jaydb cluster: response contained neither an object nor an error"

-- `err.Error()` of an error of the database
abbrev pub error_message : Formats → DbError → Str
error_message f (storage e) = error_text e
error_message f (decode e) = codes "db decode error: " ++ f.codec_text e
error_message f (encode e) = codes "db encode error: " ++ f.codec_text e
error_message f (inter_query e) = codes "inter-query error: " ++ f.mesh_text e
error_message f (incomplete_response target) =
    codes "inter-query to " ++ (target ++ (codes ": " ++ incomplete_text))
error_message f (context c) = c

-- What the server uses of a cluster node.
pub record ClusterNode : Type 0 where
  pub ring : Option Ring
  pub mesh_addr : Str

pub record Server (S : Type 0) : Type 0 where
  pub db : Db S
  pub ring : Option Ring
  pub node_addr : Str
  pub cluster_node : Option ClusterNode

-- `Options`; `db_node` is the cluster node of the database, where it has one.
pub record Options (S : Type 0) : Type 0 where
  pub db : Option (Db S)
  pub db_node : Option ClusterNode
  pub ring : Option Ring
  pub node_addr : Str
  pub cluster_node : Option ClusterNode

abbrev pub or_else {ℓ} : {A : Type ℓ} → Option A → Option A → Option A
or_else (some a) o = some a
or_else none o = o

abbrev pub ring_of : Option ClusterNode → Option Ring
ring_of none = none
ring_of (some n) = n.ring

abbrev pub addr_of : Option ClusterNode → Str
addr_of none = []
addr_of (some n) = n.mesh_addr

-- `NewServer`; `none` is its error.
unfoldable pub new_server : {S : Type 0} → Options S → Option (Server S)
new_server opts = elim opts.db [
  | none ↦ none
  | some db ↦
      let node = or_else opts.cluster_node opts.db_node in
      some (record {
        db = db;
        ring = or_else opts.ring (ring_of node);
        node_addr = if str_eq opts.node_addr [] then addr_of node else opts.node_addr;
        cluster_node = node;
      })
]
