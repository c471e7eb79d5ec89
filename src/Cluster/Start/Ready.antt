-- ===== src/Cluster/Start/Ready.antt =====
-- A started node's ring and pools say the same about who is a member.
use jaydb.Base.{
  ℕ, ◌≡◌, refl, sym, ◌∙◌, ap, subst, List, [], ◌∷◌, ◌++◌, Str, Bool, false, not, ◌&&◌, Option, none,
  some, str_eq, str_eq_iff, lookup, arith, Result, ok, err, Result-cases, inl, inr,
}
use jaydb.Sharding.Ring.{has_node}
use jaydb.Sharding.Ring.Invariant.{has_node-add_node}
use jaydb.Cluster.Members.{
  View, Event, update, notify, notify_all, notify_update, notify_join, notify_leave,
}
use jaydb.Cluster.Members.Present.{InRing, InPools, is_present, notify_all-agrees}
use jaydb.Cluster.Start.{
  Net, Gossip, Peer, NodeConfig, Running, StartError, ring_or_new, with_defaults, asked_port,
  host_port, show_port, port_from_addr, self_mesh_addr, unstarted, open_mesh, ml_config,
  sync_member, sync_members, join_events, start_gossip, notified, new_node,
}

own-unpooled : (a k : Str) → false ≡ (not (str_eq k a) && str_eq a k)
own-unpooled a k = ground (arith, str_eq_iff a k, str_eq_iff k a)

module _ (net : Net) where
  -- The round of the loop for a member is an update's handler, so the loop is a run of events.
  abbrev pub synced : List (List Event × Peer) → List Event
  synced [] = []
  synced ((es, p) ∷ rest) = es ++ (update p.node ∷ synced rest)

  notify_all-append :
      (es fs : List Event) (v : View)
      → notify_all (show_port net) (es ++ fs) v
        ≡ notify_all (show_port net) fs (notify_all (show_port net) es v)
  unfolding notify_all notify_join notify_leave notify_update
  notify_all-append [] fs v = refl
  notify_all-append (e ∷ es) fs v = notify_all-append es fs (notify (show_port net) e v)

  sync_members-notify_all :
      (ms : List (List Event × Peer)) (v : View)
      → sync_members net ms v ≡ notify_all (show_port net) (synced ms) v
  unfolding sync_members sync_member notify_all notify_update
  sync_members-notify_all [] v = refl
  sync_members-notify_all ((es, p) ∷ rest) v =
      sync_members-notify_all rest (sync_member net p.node (notify_all (show_port net) es v))
      ∙ sym (notify_all-append es (update p.node ∷ synced rest) v)

  -- All that a start tells the node, and later events.
  abbrev pub told : Gossip → NodeConfig → List Event → List Event → List Event
  told g c es later = es ++ (join_events net g c.join_addrs ++ (synced g.listed ++ later))

  synced-told :
      (g : Gossip) (c : NodeConfig) (es later : List Event) (v : View)
      → notify_all (show_port net) later (
          sync_members net g.listed (
            notify_all
              (show_port net)
              (join_events net g c.join_addrs)
              (notify_all (show_port net) es v)))
        ≡ notify_all (show_port net) (told g c es later) v
  synced-told g c es later v =
      let joins = join_events net g c.join_addrs in
      let v1 = notify_all (show_port net) es v in
      let v2 = notify_all (show_port net) joins v1 in
      ap (notify_all (show_port net) later) (sync_members-notify_all g.listed v2)
      ∙ sym (notify_all-append (synced g.listed) later v2)
      ∙ sym (notify_all-append joins (synced g.listed ++ later) v1)
      ∙ sym (notify_all-append es (joins ++ (synced g.listed ++ later)) v)

  abbrev pub events_of : Result Str (ℕ × List Event) → List Event
  events_of (err e) = []
  events_of (ok (port, es)) = es

  -- Whether an address is a member's for a node, after later events: at first only its own is.
  abbrev pub is_known : Gossip → Str → List Event → Running → Bool
  is_known g k later n =
      let es = told g n.config (events_of (g.create (ml_config net n))) later in
      is_present (show_port net) k es (str_eq (self_mesh_addr net n) k)

  -- The ring and the pools of a node that has started agree on an address after later events.
  abbrev pub IsReady : Gossip → Str → List Event → Option StartError × Running → Type 0
  IsReady g k later (some e, n) = Unit {0}
  IsReady g k later (none, n) =
      InRing k (is_known g k later n) (notified net later n).view.ring
      × InPools k (self_mesh_addr net n) (is_known g k later n)
          (notified net later n).view.mesh_pool

  start_gossip-IsReady :
      (g : Gossip) (n : Running) (k : Str) (later : List Event)
      → n.view.self ≡ self_mesh_addr net n
      → InRing k (str_eq (self_mesh_addr net n) k) n.view.ring
      → InPools k (self_mesh_addr net n) (str_eq (self_mesh_addr net n) k) n.view.mesh_pool
      → IsReady g k later (start_gossip net g n)
  unfolding start_gossip self_mesh_addr
  start_gossip-IsReady g n k later e r m = elim (Result-cases (g.create (ml_config net n))) [
    | inr (x, s) ↦ rw (start_gossip, s) tt
    | inl ((port, es), s) ↦
        let b = str_eq (self_mesh_addr net n) k in
        let es' = told g n.config es later in
        let known = is_present (show_port net) k es' b in
        let a = notify_all-agrees (show_port net) k b es' n.view r (rw e m) in
        rw (start_gossip, s, IsReady, is_known, s)
          (subst (λ v. InRing k known v.ring × InPools k (self_mesh_addr net n) known v.mesh_pool)
            (sym (synced-told g n.config es later n.view))
            (
              a.0,
              subst (λ x. InPools k x known (notify_all (show_port net) es' n.view).mesh_pool) e
                  a.1,
            ))
  ]

  -- If the ring that the node is given does not have an address, then for a node that starts, and
  -- after any later events: the ring has the address exactly if what named it last, be it the node's
  -- own registration, an event or a listed member, was no leave; and there is a pool for it exactly
  -- then, unless the address is the node's own.
  pub new_node-IsReady :
      (g : Gossip) (c : NodeConfig) (k : Str) (later : List Event)
      → has_node (ring_or_new c.ring) k ≡ false
      → IsReady g k later (new_node net g c)
  unfolding new_node open_mesh self_mesh_addr with_defaults lookup
  new_node-IsReady g c k later h =
      let n = unstarted net (with_defaults c) in
      let at = host_port net n.config.bind_addr (asked_port n.config) in
      elim (Result-cases (net.listen at)) [
        | inr (e, s) ↦ rw (new_node, s) tt
        | inl (bound, s) ↦ elim (Result-cases (port_from_addr net bound)) [
          | inr (e, t) ↦ rw (new_node, s, t) tt
          | inl (port, t) ↦
              let n' = open_mesh net port n in
              rw (new_node, s, t)
                (start_gossip-IsReady g n' k later refl
                  (ground (arith, h, has_node-add_node (ring_or_new c.ring) n'.view.self k))
                  (own-unpooled n'.view.self k, refl))
        ]
      ]
