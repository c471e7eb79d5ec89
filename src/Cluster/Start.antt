-- ===== src/Cluster/Start.antt =====
-- pkg/cluster/mesh.go: how a node starts, who it says it is, and how it stops. What the system and
-- memberlist answer are parameters; the events that memberlist sends meanwhile are lists.
pub mod Ready
pub mod Released
pub mod Announced
pub mod Info
pub mod Tests
use jaydb.Base.{
  ℕ, ◌&&◌, not, List, [], ◌∷◌, ◌++◌, Str, Bytes, Bool, true, false, Option, none, some,
  if◌then◌else◌, leb, length, str_eq, codes, ℤ, pos, negsuc, pos_part, Result, ok, err,
}
use jaydb.Sharding.Ring.{Ring, new_ring}
use jaydb.Cluster.Binary.Buffer.{put_uint16}
use jaydb.Cluster.Pool.{default_pool_size}
use jaydb.Cluster.Mesh.{get_mesh_port}
use jaydb.Cluster.MeshPool.{MeshPool, new_mesh_pool, close_mesh}
use jaydb.Cluster.Members.{Member, View, Event, ring_with, pool_with, mesh_addr, notify_all}

-- `NodeConfig`, as the start reads it; the handler, the secret and the timeouts are in Cluster/Mesh.
pub record NodeConfig : Type 0 where
  pub node_name : Str
  pub bind_addr : Str
  pub bind_port : ℤ
  pub mesh_port : ℤ
  pub quic_port : ℤ
  pub join_addrs : List Str
  pub ring : Option Ring
  pub pool_size : ℤ

-- `net.Addr`: `nil`, the two types that the code tells apart, or another with its text.
pub data Addr : Type 0 where
  nil : Addr
  tcp udp : ℕ → Addr
  other : Str → Addr

pub data PortError : Type 0 where
  no_addr : PortError
  not_split : Str → Str → PortError
  not_number : Str → Str → PortError
  out_of_range : Str → PortError

-- The functions of other packages: `net.Listen` and the address of the listener, `net.SplitHostPort`,
-- `strconv.Atoi` and `%d`.
pub record Net : Type 0 where
  pub listen : Str → Result Str Addr
  pub split_host_port : Str → Result Str (Str × Str)
  pub atoi : Str → Result Str ℤ
  pub show_int : ℤ → Str

-- `memberlist.Config`, as far as it is set, with what its delegate's `NodeMeta` answers.
pub record MlConfig : Type 0 where
  pub name : Str
  pub bind_addr : Str
  pub bind_port : ℤ
  pub meta : Bytes

-- `memberlist.Node`
pub record Peer : Type 0 where
  pub name : Str
  pub node : Member
  pub port : ℕ

-- memberlist: the port that `Create` has bound and the events that it sends, the events of a `Join`,
-- and the members that are listed then, each with the events that come before its round of the loop.
pub record Gossip : Type 0 where
  pub create : MlConfig → Result Str (ℕ × List Event)
  pub join : List Str → List Event
  pub listed : List (List Event × Peer)

-- `Node`, with what it has open.
pub record Running : Type 0 where
  pub config : NodeConfig
  pub mesh_port : ℕ
  pub bind_port : ℕ
  pub view : View
  pub listening : Bool
  pub gossiping : Bool
  pub cancelled : Bool
  pub closed : Bool

pub data StartError : Type 0 where
  listen : Str → Str → StartError
  resolve : PortError → StartError
  create : Str → StartError

abbrev pub ring_or_new : Option Ring → Ring
ring_or_new none = new_ring (pos 100) (pos 2)
ring_or_new (some r) = r

-- The defaults at the head of `NewNode`.
unfoldable pub with_defaults : NodeConfig → NodeConfig
with_defaults c = record c {
  bind_addr = if str_eq c.bind_addr [] then codes "127.0.0.1" else c.bind_addr;
  pool_size = if leb (pos_part c.pool_size) 0 then pos default_pool_size else c.pool_size;
  ring = some (ring_or_new c.ring);
}

abbrev pub is_zero : ℤ → Bool
is_zero (pos n) = leb n 0
is_zero (negsuc n) = false

unfoldable pub asked_port : NodeConfig → ℤ
asked_port c = if is_zero c.mesh_port && not (is_zero c.quic_port) then c.quic_port else c.mesh_port

-- The check of the range, of the number that `Atoi` returned.
abbrev pub ranged_port : Str → ℤ → Result PortError ℕ
ranged_port text (pos p) = if leb p 65535 then ok p else err (out_of_range text)
ranged_port text (negsuc p) = err (out_of_range text)

-- The metadata of the node: its port as a `uint16`.
unfoldable pub node_meta : ℕ → Bytes
node_meta port = put_uint16 port

-- `Close` of the pools, if there are any.
abbrev pub close_pool : Option MeshPool → Option MeshPool
close_pool none = none
close_pool (some m) = some (close_mesh m)

-- The contexts of the pools end with the node's.
abbrev pub end_pool : Option MeshPool → Option MeshPool
end_pool none = none
end_pool (some m) = some (record m { done = true })

abbrev pub ended_view : View → View
ended_view v = record v { mesh_pool = end_pool v.mesh_pool }

-- What each way out of `NewNode` undoes.
abbrev pub cancel : Running → Running
cancel n = record n { cancelled = true; view = ended_view n.view }

abbrev pub close_listener : Running → Running
close_listener n = record n { listening = false }

abbrev pub closed_view : View → View
closed_view v = record v { mesh_pool = close_pool v.mesh_pool }

abbrev pub shut_pools : Running → Running
shut_pools n = record n { view = closed_view n.view }

module _ (net : Net) where
  unfoldable pub port_from_addr : Addr → Result PortError ℕ
  port_from_addr nil = err no_addr
  port_from_addr (tcp p) = ok p
  port_from_addr (udp p) = ok p
  port_from_addr (other text) = elim (net.split_host_port text) [
    | err e ↦ err (not_split text e)
    | ok (_, port) ↦ elim (net.atoi port) [
      | err e ↦ err (not_number port e)
      | ok n ↦ ranged_port port n
    ]
  ]

  -- `fmt.Sprintf("%s:%d", host, port)`
  abbrev pub host_port : Str → ℤ → Str
  host_port host port = host ++ (codes ":" ++ net.show_int port)

  abbrev pub show_port : ℕ → Str
  show_port p = net.show_int (pos p)

  unfoldable pub self_mesh_addr : Running → Str
  self_mesh_addr n = host_port n.config.bind_addr (pos n.mesh_port)

  unfoldable pub gossip_addr : Running → Str
  gossip_addr n = host_port n.config.bind_addr (pos n.bind_port)

  -- The node before it listens; `SelfMeshAddr` has no port yet.
  abbrev pub unstarted : NodeConfig → Running
  unstarted c = record {
    config = c;
    mesh_port = 0;
    bind_port = 0;
    view = record { self = host_port c.bind_addr (pos 0); ring = c.ring; mesh_pool = none };
    listening = false;
    gossiping = false;
    cancelled = false;
    closed = false;
  }

  -- The node with its listener, its pools and itself on the ring.
  unfoldable pub open_mesh : ℕ → Running → Running
  open_mesh port n =
      let self = host_port n.config.bind_addr (pos port) in
      record n {
        mesh_port = port;
        listening = true;
        view = record {
          self = self;
          ring = ring_with self n.view.ring;
          mesh_pool = some (new_mesh_pool n.config.pool_size);
        };
      }

  abbrev pub ml_config : Running → MlConfig
  ml_config n = record {
    name = n.config.node_name;
    bind_addr = n.config.bind_addr;
    bind_port = n.config.bind_port;
    meta = node_meta n.mesh_port;
  }

  -- One round of the loop over the members, which is not told from an update.
  unfoldable pub sync_member : Member → View → View
  sync_member m v = record v {
    ring = ring_with (mesh_addr show_port m) v.ring;
    mesh_pool = pool_with v.self (mesh_addr show_port m) v.mesh_pool;
  }

  unfoldable pub sync_members : List (List Event × Peer) → View → View
  sync_members [] v = v
  sync_members ((es, p) ∷ rest) v =
      sync_members rest (sync_member p.node (notify_all show_port es v))

  abbrev pub join_events : Gossip → List Str → List Event
  join_events g [] = []
  join_events g (addr ∷ addrs) = g.join (addr ∷ addrs)

  -- The node behind the creation, which sent some events: it joins, and runs the loop.
  abbrev pub joined : Gossip → ℕ → List Event → Running → Running
  joined g port es n =
      let v = notify_all show_port es n.view in
      let v' = notify_all show_port (join_events g n.config.join_addrs) v in
      record n { bind_port = port; gossiping = true; view = sync_members g.listed v' }

  -- `NewNode` from the creation of the memberlist.
  unfoldable pub start_gossip : Gossip → Running → Option StartError × Running
  start_gossip g n = elim (g.create (ml_config n)) [
    | err e ↦ (some (create e), cancel (shut_pools (close_listener n)))
    | ok (port, es) ↦ (none, joined g port es n)
  ]

  -- `NewNode`: the node, or the error and what is left of the node.
  unfoldable pub new_node : Gossip → NodeConfig → Option StartError × Running
  new_node g c =
      let n = unstarted (with_defaults c) in
      let addr = host_port n.config.bind_addr (asked_port n.config) in
      elim (net.listen addr) [
        | err e ↦ (some (listen addr e), cancel n)
        | ok bound ↦ elim (port_from_addr bound) [
          | err e ↦ (some (resolve e), cancel (close_listener (record n { listening = true })))
          | ok port ↦ start_gossip g (open_mesh port n)
        ]
      ]

  -- Later events.
  abbrev pub notified : List Event → Running → Running
  notified es n = record n { view = notify_all show_port es n.view }

  -- `Close`, with the events that `Leave` sends.
  unfoldable pub close_node : List Event → Running → Running
  close_node es n =
      if n.closed
      then n
      else let left = if n.gossiping then notified es (cancel n) else cancel n in
        let down = shut_pools (close_listener left) in
        record down { gossiping = false; closed = true }
