-- ===== src/Cluster/MeshPool.antt =====
-- pkg/cluster/pool.go: the pools of the mesh, one for each peer. A method runs alone; the pools that
-- left the map live on in `removed`, closed, while callers hold their connections.
pub mod Reconcile
use jaydb.Base.{
  ℕ, ◌+◌, ◌&&◌, ◌||◌, not, List, [], ◌∷◌, ◌++◌, Str, StrMap, Bool, true, false, Option, none, some,
  if◌then◌else◌, leb, length, is_some, lookup, insert, erase, keep_if, contains, str_eq, ℤ, pos,
  pos_part, Result, ok, err,
}
use jaydb.Cluster.Pool.{
  PeerPool, default_pool_size, new_peer_pool, begin_close, check_put, send_conn, drop_conn,
}

-- `done` is whether the context is.
pub record MeshPool : Type 0 where
  pub peers : StrMap PeerPool
  pub pool_size : ℕ
  pub done : Bool
  pub removed : List PeerPool

-- `NewMeshPool`
abbrev pub new_mesh_pool : ℤ → MeshPool
new_mesh_pool size = record {
  peers = [];
  pool_size = if leb (pos_part size) 0 then default_pool_size else pos_part size;
  done = false;
  removed = [];
}

unfoldable pub add_peer : Str → MeshPool → MeshPool
add_peer addr m =
    if str_eq addr [] || (m.done || is_some (lookup addr m.peers))
    then m
    else record m { peers = insert addr (new_peer_pool (pos m.pool_size)) m.peers }

unfoldable pub remove_peer : Str → MeshPool → MeshPool
remove_peer addr m = elim (lookup addr m.peers) [
  | none ↦ m
  | some pool ↦ record m { peers = erase addr m.peers; removed = begin_close pool ∷ m.removed }
]

-- `GetConn` up to the call of the pool's: `none` is one of its errors.
unfoldable pub pool_for : Str → MeshPool → Option PeerPool × MeshPool
pool_for addr m = if m.done then (none, m) else elim (lookup addr m.peers) [
  | some pool ↦ (some pool, m)
  | none ↦ let m' = add_peer addr m in (lookup addr m'.peers, m')
]

-- `PutConn` of a pool, as a call that runs alone.
abbrev pub return_to : ℕ → PeerPool → PeerPool
return_to c pool = if pool.closed then check_put c pool else send_conn c (check_put c pool)

-- `PutConn` and `DropConn` of the mesh: the connection that it closes itself, as the address has no
-- pool any more.
unfoldable pub put_conn : Str → ℕ → MeshPool → MeshPool × Option ℕ
put_conn addr c m = elim (lookup addr m.peers) [
  | some pool ↦ (record m { peers = insert addr (return_to c pool) m.peers }, none)
  | none ↦ (m, some c)
]

unfoldable pub drop_from : Str → ℕ → MeshPool → MeshPool × Option ℕ
drop_from addr c m = elim (lookup addr m.peers) [
  | some pool ↦ (record m { peers = insert addr (drop_conn c pool) m.peers }, none)
  | none ↦ (m, some c)
]

abbrev pub peer_count : MeshPool → ℕ
peer_count m = length m.peers

-- `TotalLiveConnections`
abbrev pub idle_in : StrMap PeerPool → ℕ
idle_in [] = 0
idle_in ((_, pool) ∷ rest) = length pool.conns + idle_in rest

abbrev pub total_live_connections : MeshPool → ℕ
total_live_connections m = idle_in m.peers

-- `activeSet`
abbrev pub is_peer : Str → Str → Bool
is_peer self addr = not (str_eq addr []) && not (str_eq addr self)

unfoldable pub add_all : List Str → MeshPool → MeshPool
add_all [] m = m
add_all (addr ∷ addrs) m = add_all addrs (add_peer addr m)

-- `toRemove`
unfoldable pub to_remove : List Str → StrMap PeerPool → List Str
to_remove active [] = []
to_remove active ((addr, _) ∷ rest) =
    if contains active addr then to_remove active rest else addr ∷ to_remove active rest

unfoldable pub remove_all : List Str → MeshPool → MeshPool
remove_all [] m = m
remove_all (addr ∷ addrs) m = remove_all addrs (remove_peer addr m)

unfoldable pub reconcile_peers : List Str → Str → MeshPool → MeshPool
reconcile_peers active self m =
    let set = keep_if (is_peer self) active in
    let m' = add_all set m in remove_all (to_remove set m'.peers) m'

abbrev pub close_pools : StrMap PeerPool → List PeerPool
close_pools [] = []
close_pools ((_, pool) ∷ rest) = begin_close pool ∷ close_pools rest

-- `Close`
unfoldable pub close_mesh : MeshPool → MeshPool
close_mesh m = record m { peers = []; done = true; removed = close_pools m.peers ++ m.removed }
