-- ===== src/Cluster/Start/Announced.antt =====
-- The port that a node announces, and the address under which the others know it.
use jaydb.Base.{
  ℕ, subst, lookup, lookup-insert, str_eq_iff, ◌^◌, ◌<◌, ◌≡◌, refl, List, [], ◌∷◌, Str, Option,
  none, some, leb, ℤ, pos, negsuc, Result, ok, err, arith, Bool-cases, Result-cases, inl, inr,
}
use jaydb.Cluster.Binary.Buffer.{put_uint16, be_value, be_value-put_uint16}
use jaydb.Cluster.Mesh.{get_mesh_port}
use jaydb.Cluster.Pool.{new_peer_pool}
use jaydb.Cluster.MeshPool.{MeshPool, add_peer}
use jaydb.Cluster.MeshPool.Reconcile.{lookup-remove_peer}
use jaydb.Cluster.Members.{
  pool_with, pool_without, View, Event, join, leave, update, mesh_addr, notify_all, notify_join,
  notify_leave, notify_update,
}
use jaydb.Cluster.Start.{
  StartError, Peer, sync_member, sync_members, join_events, with_defaults, asked_port, host_port,
  Addr, nil, tcp, udp, other, Net, Gossip, NodeConfig, Running, ranged_port, node_meta,
  port_from_addr, show_port, self_mesh_addr, open_mesh, unstarted, ml_config, start_gossip,
  new_node, notified,
}

-- The ports of TCP and of UDP have 16 bits.
abbrev pub IsPort : Addr → Type 0
IsPort nil = Unit {0}
IsPort (tcp p) = p < 2 ^ 16
IsPort (udp p) = p < 2 ^ 16
IsPort (other text) = Unit {0}

-- What `port_from_addr` may return.
abbrev Fits : {E : Type 0} → Result E ℕ → Type 0
Fits (err e) = Unit {0}
Fits (ok p) = p < 2 ^ 16

ranged_port-Fits : (text : Str) (n : ℤ) → Fits (ranged_port text n)
ranged_port-Fits text (pos p) = elim (Bool-cases (leb p 65535)) [
  | inl e ↦ rw e (ground (arith, e))
  | inr e ↦ rw e tt
]
ranged_port-Fits text (negsuc p) = tt

port_from_addr-Fits : (net : Net) (a : Addr) → IsPort a → Fits (port_from_addr net a)
unfolding port_from_addr
port_from_addr-Fits net nil h = tt
port_from_addr-Fits net (tcp p) h = h
port_from_addr-Fits net (udp p) h = h
port_from_addr-Fits net (other text) h = elim (Result-cases (net.split_host_port text)) [
  | inr (e, s) ↦ rw (port_from_addr, s) tt
  | inl ((host, port), s) ↦ elim (Result-cases (net.atoi port)) [
    | inr (e, t) ↦ rw (port_from_addr, s, t) tt
    | inl (n, t) ↦ rw (port_from_addr, s, t) (ranged_port-Fits port n)
  ]
]

pub get_mesh_port-node_meta : (p : ℕ) → p < 2 ^ 16 → get_mesh_port (node_meta p) ≡ p
unfolding get_mesh_port node_meta put_uint16 be_value
get_mesh_port-node_meta p h = omega (arith, be_value-put_uint16 p)

-- No pool has the address.
abbrev pub Unpooled : Str → Option MeshPool → Type 0
Unpooled a none = Unit {0}
Unpooled a (some m) = lookup a m.peers ≡ none

-- The address is the view's own, and has no pool.
abbrev pub IsApart : Str → View → Type 0
IsApart a v = (v.self ≡ a) × Unpooled a v.mesh_pool

pool_with-Unpooled :
    (a self addr : Str) (m : Option MeshPool)
    → self ≡ a
    → Unpooled a m
    → Unpooled a (pool_with self addr m)
unfolding add_peer
pool_with-Unpooled a self addr none s h = tt
pool_with-Unpooled a self addr (some m) s h = ground (
  arith,
  h,
  s,
  str_eq_iff addr a,
  str_eq_iff addr self,
  lookup-insert addr a (new_peer_pool (pos m.pool_size)) m.peers,
)

pool_without-Unpooled :
    (a addr : Str) (m : Option MeshPool) → Unpooled a m → Unpooled a (pool_without addr m)
pool_without-Unpooled a addr none h = tt
pool_without-Unpooled a addr (some m) h = ground (arith, h, lookup-remove_peer a addr m)

module _ (net : Net) where
  -- A node that has started: its port has 16 bits and is read back from what it announces, after
  -- later events its own name has no pool, and under
  -- the address that it binds the others know it by its own name.
  abbrev pub IsAnnounced : List Event → Option StartError × Running → Type 0
  IsAnnounced later (some e, n) = Unit {0}
  IsAnnounced later (none, n) =
      (n.mesh_port < 2 ^ 16)
      × (get_mesh_port (ml_config net n).meta ≡ n.mesh_port)
      × IsApart (self_mesh_addr net n) (notified net later n).view
      × (mesh_addr (show_port net)
            (record { addr = n.config.bind_addr; meta = (ml_config net n).meta })
          ≡ self_mesh_addr net n)

  notify_all-IsApart :
      (a : Str) (es : List Event) (v : View)
      → IsApart a v
      → IsApart a (notify_all (show_port net) es v)
  unfolding notify_all notify_join notify_leave notify_update
  notify_all-IsApart a [] v h = h
  notify_all-IsApart a (join n ∷ es) v h =
      notify_all-IsApart a es (notify_join (show_port net) n v)
        (h.0, pool_with-Unpooled a v.self (mesh_addr (show_port net) n) v.mesh_pool h.0 h.1)
  notify_all-IsApart a (leave n ∷ es) v h =
      notify_all-IsApart a es (notify_leave (show_port net) n v)
        (h.0, pool_without-Unpooled a (mesh_addr (show_port net) n) v.mesh_pool h.1)
  notify_all-IsApart a (update n ∷ es) v h =
      notify_all-IsApart a es (notify_update (show_port net) n v)
        (h.0, pool_with-Unpooled a v.self (mesh_addr (show_port net) n) v.mesh_pool h.0 h.1)

  sync_members-IsApart :
      (a : Str) (ms : List (List Event × Peer)) (v : View)
      → IsApart a v
      → IsApart a (sync_members net ms v)
  unfolding sync_members sync_member
  sync_members-IsApart a [] v h = h
  sync_members-IsApart a ((es, p) ∷ rest) v h =
      let w = notify_all (show_port net) es v in
      let t = notify_all-IsApart a es v h in
      sync_members-IsApart a rest (sync_member net p.node w)
        (t.0, pool_with-Unpooled a w.self (mesh_addr (show_port net) p.node) w.mesh_pool t.0 t.1)

  start_gossip-IsAnnounced :
      (g : Gossip) (n : Running) (later : List Event)
      → n.mesh_port < 2 ^ 16
      → IsApart (self_mesh_addr net n) n.view
      → IsAnnounced later (start_gossip net g n)
  unfolding start_gossip self_mesh_addr mesh_addr
  start_gossip-IsAnnounced g n later h e = elim (Result-cases (g.create (ml_config net n))) [
    | inr (x, s) ↦ rw (start_gossip, s) tt
    | inl ((port, es), s) ↦
        let a = self_mesh_addr net n in
        let joins = join_events net g n.config.join_addrs in
        let p = get_mesh_port-node_meta n.mesh_port h in
        let v = notify_all (show_port net) es n.view in
        let v' = notify_all (show_port net) joins v in
        let told = notify_all-IsApart a joins v (notify_all-IsApart a es n.view e) in
        let listed = sync_members-IsApart a g.listed v' told in
        let kept = notify_all-IsApart a later (sync_members net g.listed v') listed in
        rw (start_gossip, s) (h, p, kept, rw p refl)
  ]

  -- If the ports of the listener have 16 bits, a node that starts has such a port too, and everyone
  -- reads it from the two bytes that it announces. After any later events it has no pool for its own
  -- mesh address, which is the one that the others build from the announced port and the address it
  -- binds.
  pub new_node-IsAnnounced :
      (g : Gossip) (c : NodeConfig) (later : List Event)
      → ((at : Str) (a : Addr) → net.listen at ≡ ok a → IsPort a)
      → IsAnnounced later (new_node net g c)
  unfolding new_node open_mesh self_mesh_addr lookup
  new_node-IsAnnounced g c later fits =
      let n = unstarted net (with_defaults c) in
      let at = host_port net n.config.bind_addr (asked_port n.config) in
      elim (Result-cases (net.listen at)) [
        | inr (e, s) ↦ rw (new_node, s) tt
        | inl (bound, s) ↦ elim (Result-cases (port_from_addr net bound)) [
          | inr (e, t) ↦ rw (new_node, s, t) tt
          | inl (port, t) ↦
              let f : Fits (port_from_addr net bound) =
                port_from_addr-Fits net bound (fits at bound s) in
              let p : port < 2 ^ 16 = subst (λ r. Fits r) t f in
              rw (new_node, s, t)
                (start_gossip-IsAnnounced g (open_mesh net port n) later p (refl, refl))
        ]
      ]
