-- ===== src/Cluster/Start/Tests.antt =====
-- Tests and witnesses for the start of a node; a port is written as one character.
use jaydb.Base.{
  ℕ, ◌≡◌, refl, List, [], ◌∷◌, Str, true, Option, none, some, codes, ℤ, pos, negsuc, ok, err,
  str_eq, lookup, insert, sort, insert_sorted, str_ltb, arith, subst, erase, length,
}
use jaydb.Sharding.Ring.{new_ring, add_node, remove_node, has_node}
use jaydb.Cluster.Binary.Buffer.{put_uint16, be_value}
use jaydb.Cluster.Mesh.{get_mesh_port}
use jaydb.Cluster.MeshPool.{add_peer, remove_peer, close_mesh}
use jaydb.Cluster.Members.{
  Event, join, leave, mesh_addr, notify_all, notify_join, notify_leave, notify_update,
}
use jaydb.Cluster.Members.Present.{InRing, InPools}
use jaydb.Cluster.Start.{
  Addr, tcp, Net, Peer, Gossip, NodeConfig, Running, StartError, with_defaults, asked_port,
  node_meta, port_from_addr, sync_member, sync_members, start_gossip, open_mesh, close_node,
  new_node, self_mesh_addr,
}
use jaydb.Cluster.Start.Ready.{IsReady, new_node-IsReady}
use jaydb.Cluster.Start.Released.{IsReleased, new_node-IsReleased}
use jaydb.Cluster.Start.Announced.{IsPort, IsAnnounced, new_node-IsAnnounced}
use jaydb.Cluster.Start.Info.{members, member_infos, member_info, member_count}

abbrev show : ℤ → Str
show (pos n) = n ∷ []
show (negsuc n) = codes "-"

-- Every listener gets the port 49, the character 1.
abbrev pub net : Net
net = record {
  listen = λ at. ok (tcp 49);
  split_host_port = λ at. err (codes "no port");
  atoi = λ text. err (codes "no number");
  show_int = show;
}

abbrev peer : Str → ℕ → Peer
peer host port = record {
  name = host;
  node = record { addr = host; meta = 0 ∷ port ∷ [] };
  port = 7946;
}

-- The own name under which the others list the node, and a member that joins.
abbrev own : Peer
own = peer (codes "h") 49

abbrev b : Peer
b = peer (codes "b") 50

abbrev gossip : List Event → Gossip
gossip before_b = record {
  create = λ c. ok (7946, join own.node ∷ []);
  join = λ addrs. join b.node ∷ [];
  listed = ([], own) ∷ (before_b, b) ∷ [];
}

abbrev refusing : Gossip
refusing = record { create = λ c. err (codes "in use"); join = λ addrs. []; listed = [] }

abbrev config : Str → NodeConfig
config host = record {
  node_name = codes "h";
  bind_addr = host;
  bind_port = pos 0;
  mesh_port = pos 0;
  quic_port = pos 0;
  join_addrs = codes "b" ∷ [];
  ring = none;
  pool_size = pos 0;
}

program : Unit {0}
unfolding new_node with_defaults asked_port port_from_addr open_mesh start_gossip sync_member
    sync_members close_node node_meta put_uint16 be_value get_mesh_port mesh_addr notify_all
    notify_join notify_leave notify_update new_ring add_node has_node add_peer remove_peer
    close_mesh self_mesh_addr member_info member_infos member_count str_eq str_ltb lookup insert
    sort insert_sorted erase remove_node
program = tt

abbrev pub started : Str → Option StartError × Running
started host = new_node net (gossip []) (config host)

new_node-IsReady_example : IsReady net (gossip []) (codes "b:2") [] (started (codes "h"))
unfolding program
new_node-IsReady_example =
    new_node-IsReady net (gossip []) (config (codes "h")) (codes "b:2") [] refl

new_node-IsReleased_example :
    IsReleased net (leave own.node ∷ []) (join b.node ∷ []) (started (codes "h"))
new_node-IsReleased_example =
    new_node-IsReleased net (gossip []) (config (codes "h")) (leave own.node ∷ [])
      (join b.node ∷ [])

listens-IsPort : (at : Str) (a : Addr) → net.listen at ≡ ok a → IsPort a
listens-IsPort at a e =
    let e' : tcp 49 ≡ a = cc in let p : IsPort (tcp 49) = omega arith in subst (λ x. IsPort x) e' p

new_node-IsAnnounced_example : IsAnnounced net (join b.node ∷ []) (started (codes "h"))
new_node-IsAnnounced_example =
    new_node-IsAnnounced net (gossip []) (config (codes "h")) (join b.node ∷ []) listens-IsPort

-- It starts, and has pools for b alone.
pooled : (started (codes "h")).0 ≡ none
unfolding program
pooled = refl

is_pooled :
    InPools (codes "b:2") (codes "h:1") true (started (codes "h")).1.view.mesh_pool
    × InPools (codes "h:1") (codes "h:1") true (started (codes "h")).1.view.mesh_pool
unfolding program
is_pooled = ((refl, refl), (refl, refl))

-- Bound to the wildcard address, the node is on its ring under two names, and has a pool for itself.
wildcard :
    InRing (codes "0.0.0.0:1") true (started (codes "0.0.0.0")).1.view.ring
    × InRing (codes "h:1") true (started (codes "0.0.0.0")).1.view.ring
    × InPools (codes "h:1") (codes "0.0.0.0:1") true (started (codes "0.0.0.0")).1.view.mesh_pool
unfolding program
wildcard = (refl, refl, (refl, refl))

-- b leaves behind the listing of the members and before its round of the loop: it stays.
left_member :
    InRing
      (codes "b:2")
      true
      (new_node net (gossip (leave b.node ∷ [])) (config (codes "h"))).1.view.ring
unfolding program
left_member = refl

-- A start that memberlist refuses leaves the address on the ring.
refused : InRing (codes "h:1") true (new_node net refusing (config (codes "h"))).1.view.ring
unfolding program
refused = refl

counted : member_count none (started (codes "h")).1.view.ring ≡ 2
unfolding program
counted = refl

reported : length (members (λ p. show (pos p)) (some (own ∷ b ∷ []))) ≡ 2
unfolding program
reported = refl
