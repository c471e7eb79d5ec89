-- ===== src/Cluster/Start/Released.antt =====
-- What a node that does not start, or is closed, still holds.
use jaydb.Base.{
  ◌≡◌, refl, lookup, List, [], ◌∷◌, Str, true, false, Option, none, some, arith, Result-cases,
  Bool-cases, inl, inr,
}
use jaydb.Cluster.MeshPool.{MeshPool, close_mesh, add_peer, remove_peer}
use jaydb.Cluster.Members.{
  View, Event, join, leave, update, mesh_addr, pool_with, pool_without, notify_all, notify_join,
  notify_leave, notify_update,
}
use jaydb.Cluster.Start.{
  Net, Gossip, NodeConfig, Running, StartError, with_defaults, asked_port, host_port, show_port,
  port_from_addr, unstarted, open_mesh, ml_config, start_gossip, notified, new_node, close_node,
  close_pool, end_pool, ended_view, cancel, closed_view, joined,
}

-- No pool, and none can be made.
abbrev pub NoPools : Option MeshPool → Type 0
NoPools none = Unit {0}
NoPools (some m) = (m.peers ≡ []) × (m.done ≡ true)

abbrev pub IsUp : Running → Type 0
IsUp n = (n.listening ≡ true) × (n.gossiping ≡ true) × (n.cancelled ≡ false)

abbrev pub IsDown : Running → Type 0
IsDown n =
    (n.listening ≡ false) × (n.gossiping ≡ false) × (n.cancelled ≡ true) × NoPools n.view.mesh_pool

close_pool-NoPools : (m : Option MeshPool) → NoPools (close_pool m)
unfolding close_mesh
close_pool-NoPools none = tt
close_pool-NoPools (some m) = (refl, refl)

end_pool-NoPools : (m : Option MeshPool) → NoPools m → NoPools (end_pool m)
end_pool-NoPools none h = tt
end_pool-NoPools (some m) h = (h.0, refl)

pool_with-NoPools :
    (self addr : Str) (m : Option MeshPool) → NoPools m → NoPools (pool_with self addr m)
unfolding add_peer
pool_with-NoPools self addr none h = tt
pool_with-NoPools self addr (some m) h = ground (arith, h.0, h.1)

pool_without-NoPools :
    (addr : Str) (m : Option MeshPool) → NoPools m → NoPools (pool_without addr m)
unfolding remove_peer lookup
pool_without-NoPools addr none h = tt
pool_without-NoPools addr (some m) h = ground (arith, h.0, h.1)

module _ (net : Net) where
  notify_all-NoPools :
      (es : List Event) (v : View)
      → NoPools v.mesh_pool
      → NoPools (notify_all (show_port net) es v).mesh_pool
  unfolding notify_all notify_join notify_leave notify_update
  notify_all-NoPools [] v h = h
  notify_all-NoPools (join n ∷ es) v h =
      notify_all-NoPools es (notify_join (show_port net) n v)
        (pool_with-NoPools v.self (mesh_addr (show_port net) n) v.mesh_pool h)
  notify_all-NoPools (leave n ∷ es) v h =
      notify_all-NoPools es (notify_leave (show_port net) n v)
        (pool_without-NoPools (mesh_addr (show_port net) n) v.mesh_pool h)
  notify_all-NoPools (update n ∷ es) v h =
      notify_all-NoPools es (notify_update (show_port net) n v)
        (pool_with-NoPools v.self (mesh_addr (show_port net) n) v.mesh_pool h)

  closed_view-NoPools :
      (es : List Event) (v : View)
      → NoPools (notify_all (show_port net) es (closed_view v)).mesh_pool
  closed_view-NoPools es v = notify_all-NoPools es (closed_view v) (close_pool-NoPools v.mesh_pool)

  -- A node that starts is up and, once closed, is down; one that does not start is down. Events of
  -- the shutdown, and later ones, change nothing about that.
  abbrev pub IsReleased : List Event → List Event → Option StartError × Running → Type 0
  IsReleased es later (some e, n) = IsDown (notified net later n)
  IsReleased es later (none, n) = IsUp n × IsDown (notified net later (close_node net es n))

  close_node-IsDown :
      (es later : List Event) (n : Running)
      → n.closed ≡ false
      → IsDown (notified net later (close_node net es n))
  unfolding close_node
  close_node-IsDown es later n c = elim (Bool-cases n.gossiping) [
    | inl g ↦
        rw (close_node, c, g)
          (refl, refl, refl, closed_view-NoPools later (notified net es (cancel n)).view)
    | inr g ↦
        rw (close_node, c, g) (refl, refl, refl, closed_view-NoPools later (ended_view n.view))
  ]

  start_gossip-IsReleased :
      (g : Gossip) (n : Running) (es later : List Event)
      → n.closed ≡ false
      → n.gossiping ≡ false
      → n.cancelled ≡ false
      → n.listening ≡ true
      → IsReleased es later (start_gossip net g n)
  unfolding start_gossip
  start_gossip-IsReleased g n es later c o d l = elim (Result-cases (g.create (ml_config net n))) [
    | inr (x, s) ↦
        let v = closed_view n.view in
        let p = end_pool-NoPools v.mesh_pool (close_pool-NoPools n.view.mesh_pool) in
        rw (start_gossip, s) (refl, o, refl, notify_all-NoPools later (ended_view v) p)
    | inl ((port, fs), s) ↦
        rw (start_gossip, s) ((l, refl, d), close_node-IsDown es later (joined net g port fs n) c)
  ]

  -- Whatever the system and memberlist answer: a node that starts has its listener and its gossip,
  -- and once it is closed neither, nor any pool; a start that fails leaves none of them either. The
  -- events that the shutdown sends, and later ones, bring no pool back.
  pub new_node-IsReleased :
      (g : Gossip) (c : NodeConfig) (es later : List Event) → IsReleased es later (new_node net g c)
  unfolding new_node open_mesh
  new_node-IsReleased g c es later =
      let n = unstarted net (with_defaults c) in
      let at = host_port net n.config.bind_addr (asked_port n.config) in
      elim (Result-cases (net.listen at)) [
        | inr (e, s) ↦ rw (new_node, s) (refl, refl, refl, notify_all-NoPools later n.view tt)
        | inl (bound, s) ↦ elim (Result-cases (port_from_addr net bound)) [
          | inr (e, t) ↦ rw (new_node, s, t) (refl, refl, refl, notify_all-NoPools later n.view tt)
          | inl (port, t) ↦
              rw (new_node, s, t)
                (start_gossip-IsReleased g (open_mesh net port n) es later refl refl refl refl)
        ]
      ]
