-- ===== src/Cluster/Members/Tests.antt =====
-- Test and witness for the events of the members: the node is a:1, and b changes its port.
use jaydb.Base.{
  ℕ, refl, List, [], ◌∷◌, Str, true, some, codes, pos, str_eq, lookup, insert, sort, insert_sorted,
  str_ltb,
}
use jaydb.Sharding.Ring.{new_ring, add_node, has_node}
use jaydb.Cluster.Binary.Buffer.{be_value}
use jaydb.Cluster.Mesh.{get_mesh_port}
use jaydb.Cluster.MeshPool.{new_mesh_pool}
use jaydb.Cluster.Members.{
  Member, View, Event, join, update, mesh_addr, notify_all, notify_update, notify_join,
}
use jaydb.Cluster.Members.Present.{InRing}

-- The port as one digit.
abbrev digit : ℕ → Str
digit n = n ∷ []

abbrev started : View
started = record {
  self = codes "a:1";
  ring = some (new_ring (pos 0) (pos 2));
  mesh_pool = some (new_mesh_pool (pos 2));
}

abbrev b_at : ℕ → Member
b_at port = record { addr = codes "b"; meta = 0 ∷ port ∷ [] }

abbrev events : List Event
events = join (b_at 49) ∷ update (b_at 50) ∷ []

program : Unit {0}
unfolding be_value get_mesh_port mesh_addr notify_all notify_update notify_join new_ring add_node
    has_node str_eq str_ltb lookup insert sort insert_sorted
program = tt

-- The member has moved to the port 2, and the ring has its old address still.
old_address : InRing (codes "b:1") true (notify_all digit events started).ring
unfolding program
old_address = refl
