-- ===== src/Cluster/Members.antt =====
-- pkg/cluster/mesh.go: what the events of the members do to the ring and to the pools of a node.
pub mod Present
mod Tests
use jaydb.Base.{
  ℕ, ◌&&◌, ◌||◌, not, List, [], ◌∷◌, ◌++◌, Str, Bytes, Bool, true, false, Option, none, some,
  if◌then◌else◌, str_eq, codes,
}
use jaydb.Sharding.Ring.{Ring, add_node, remove_node}
use jaydb.Cluster.Mesh.{get_mesh_port}
use jaydb.Cluster.MeshPool.{MeshPool, add_peer, remove_peer}

-- `memberlist.Node`, its address as a text.
pub record Member : Type 0 where
  pub addr : Str
  pub meta : Bytes

-- The node's own mesh address, its ring and its pools.
pub record View : Type 0 where
  pub self : Str
  pub ring : Option Ring
  pub mesh_pool : Option MeshPool

pub data Event : Type 0 where
  join leave update : Member → Event

abbrev pub ring_with : Str → Option Ring → Option Ring
ring_with addr none = none
ring_with addr (some r) = some (add_node r addr)

abbrev pub ring_without : Str → Option Ring → Option Ring
ring_without addr none = none
ring_without addr (some r) = some (remove_node r addr)

abbrev pub pool_with : Str → Str → Option MeshPool → Option MeshPool
pool_with self addr none = none
pool_with self addr (some m) = some (if str_eq addr self then m else add_peer addr m)

abbrev pub pool_without : Str → Option MeshPool → Option MeshPool
pool_without addr none = none
pool_without addr (some m) = some (remove_peer addr m)

module _ (show_int : ℕ → Str) where
  -- `fmt.Sprintf("%s:%d", n.Addr.String(), getMeshPort(n))`
  unfoldable pub mesh_addr : Member → Str
  mesh_addr n = n.addr ++ (codes ":" ++ show_int (get_mesh_port n.meta))

  unfoldable pub notify_join : Member → View → View
  notify_join n v = record v {
    ring = ring_with (mesh_addr n) v.ring;
    mesh_pool = pool_with v.self (mesh_addr n) v.mesh_pool;
  }

  unfoldable pub notify_leave : Member → View → View
  notify_leave n v = record v {
    ring = ring_without (mesh_addr n) v.ring;
    mesh_pool = pool_without (mesh_addr n) v.mesh_pool;
  }

  unfoldable pub notify_update : Member → View → View
  notify_update n v = record v {
    ring = ring_with (mesh_addr n) v.ring;
    mesh_pool = pool_with v.self (mesh_addr n) v.mesh_pool;
  }

  abbrev pub notify : Event → View → View
  notify (join n) v = notify_join n v
  notify (leave n) v = notify_leave n v
  notify (update n) v = notify_update n v

  unfoldable pub notify_all : List Event → View → View
  notify_all [] v = v
  notify_all (e ∷ es) v = notify_all es (notify e v)
