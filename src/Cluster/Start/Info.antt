-- ===== src/Cluster/Start/Info.antt =====
-- pkg/cluster/mesh.go: what a node reports of the members, `Members` and `MemberCount`.
use jaydb.Base.{ℕ, List, [], ◌∷◌, ◌++◌, Str, Option, none, some, length, codes}
use jaydb.Sharding.Ring.{Ring}
use jaydb.Cluster.Mesh.{get_mesh_port}
use jaydb.Cluster.Start.{Peer}

-- `MemberInfo`
pub record MemberInfo : Type 0 where
  pub name : Str
  pub addr : Str
  pub gossip_port : ℕ
  pub quic_port : ℕ
  pub quic_addr : Str
  pub mesh_port : ℕ
  pub mesh_addr : Str

module _ (show_int : ℕ → Str) where
  unfoldable pub member_info : Peer → MemberInfo
  member_info p =
      let port = get_mesh_port p.node.meta in
      let addr = p.node.addr ++ (codes ":" ++ show_int port) in
      record {
        name = p.name;
        addr = p.node.addr;
        gossip_port = p.port;
        quic_port = port;
        quic_addr = addr;
        mesh_port = port;
        mesh_addr = addr;
      }

  -- The loop of `Members`, and `Members` with the members of the memberlist, if there is one.
  unfoldable pub member_infos : List Peer → List MemberInfo
  member_infos [] = []
  member_infos (p ∷ ps) = member_info p ∷ member_infos ps

  abbrev pub members : Option (List Peer) → List MemberInfo
  members none = []
  members (some ps) = member_infos ps

-- `MemberCount`, of the number that the memberlist gives, else of the ring.
unfoldable pub member_count : Option ℕ → Option Ring → ℕ
member_count (some n) ring = n
member_count none (some r) = length r.nodes
member_count none none = 0
