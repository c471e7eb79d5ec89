-- ===== src/Cluster/Members/Present.antt =====
-- After any events, the ring and the pools say the same about who is a member.
use jaydb.Base.{
  ℕ, ◌≡◌, refl, ◌&&◌, ◌||◌, not, List, [], ◌∷◌, ◌++◌, Str, Bool, false, Option, none, some, str_eq,
  str_eq_iff, codes, lookup, is_some, arith, Bool-cases, inl, inr,
}
use jaydb.Sharding.Ring.{Ring, has_node}
use jaydb.Sharding.Ring.Invariant.{has_node-add_node, has_node-remove_node}
use jaydb.Cluster.MeshPool.{MeshPool, remove_peer}
use jaydb.Cluster.MeshPool.Reconcile.{lookup-add_peer, lookup-remove_peer}
use jaydb.Cluster.Mesh.{get_mesh_port}
use jaydb.Cluster.Members.{
  ring_with, ring_without, pool_with, pool_without, Member, View, Event, join, leave, update,
  mesh_addr, notify_join, notify_leave, notify_update, notify_all,
}

-- A ring, where there is one, that says of an address whether it is a member's.
abbrev pub InRing : Str → Bool → Option Ring → Type 0
InRing k b none = Unit {0}
InRing k b (some r) = has_node r k ≡ b

-- Running pools, where there are any, that have one for the address exactly if it is a member's and
-- not the node's own.
abbrev pub InPools : Str → Str → Bool → Option MeshPool → Type 0
InPools k self b none = Unit {0}
InPools k self b (some m) =
    (is_some (lookup k m.peers) ≡ (not (str_eq k self) && b)) × (m.done ≡ false)

ring_with-InRing :
    (k addr : Str) (b : Bool) (r : Option Ring)
    → InRing k b r
    → InRing k (str_eq addr k || b) (ring_with addr r)
ring_with-InRing k addr b none h = tt
ring_with-InRing k addr b (some r) h = ground (arith, has_node-add_node r addr k, h)

ring_without-InRing :
    (k addr : Str) (b : Bool) (r : Option Ring)
    → InRing k b r
    → InRing k (not (str_eq addr k) && b) (ring_without addr r)
ring_without-InRing k addr b none h = tt
ring_without-InRing k addr b (some r) h = ground (arith, has_node-remove_node r addr k, h)

pool_with-InPools :
    (k addr self : Str) (b : Bool) (m : Option MeshPool)
    → str_eq addr [] ≡ false
    → InPools k self b m
    → InPools k self (str_eq addr k || b) (pool_with self addr m)
pool_with-InPools k addr self b none e h = tt
pool_with-InPools k addr self b (some m) e h = elim (Bool-cases (str_eq addr self)) [
  | inl s ↦
      rw s (ground (arith, h.0, s, str_eq_iff addr self, str_eq_iff addr k, str_eq_iff k self), h.1)
  | inr s ↦
      let l = lookup-add_peer k addr m h.1 e in
      rw s (
        ground (arith, h.0, l.0, s, str_eq_iff addr self, str_eq_iff addr k, str_eq_iff k self),
        l.1,
      )
]

pool_without-InPools :
    (k addr self : Str) (b : Bool) (m : Option MeshPool)
    → InPools k self b m
    → InPools k self (not (str_eq addr k) && b) (pool_without addr m)
unfolding remove_peer
pool_without-InPools k addr self b none h = tt
pool_without-InPools k addr self b (some m) h =
    (ground (arith, h.0, lookup-remove_peer k addr m), ground (arith, h.1))

module _ (show_int : ℕ → Str) where
  -- Whether an address is a member's after events: the last event that names it decides.
  abbrev pub is_present : Str → List Event → Bool → Bool
  is_present k [] b = b
  is_present k (join n ∷ es) b = is_present k es (str_eq (mesh_addr show_int n) k || b)
  is_present k (leave n ∷ es) b = is_present k es (not (str_eq (mesh_addr show_int n) k) && b)
  is_present k (update n ∷ es) b = is_present k es (str_eq (mesh_addr show_int n) k || b)

  addr-some : (n : Member) → str_eq (mesh_addr show_int n) [] ≡ false
  unfolding mesh_addr str_eq
  addr-some n = by_addr n.addr
    where
      by_addr : (a : Str) → str_eq (a ++ (codes ":" ++ show_int (get_mesh_port n.meta))) [] ≡ false
      by_addr [] = refl
      by_addr (c ∷ cs) = refl

  -- If the ring and the running pools agree on an address, then after any events of the members they agree on
  -- it still: the ring has the address exactly if the last event that names it was no leave, and there
  -- is a pool for it exactly then, unless the address is the node's own.
  pub notify_all-agrees :
      (k : Str) (b : Bool) (es : List Event) (v : View)
      → InRing k b v.ring
      → InPools k v.self b v.mesh_pool
      → InRing k (is_present k es b) (notify_all show_int es v).ring
        × InPools k v.self (is_present k es b) (notify_all show_int es v).mesh_pool
  unfolding notify_all notify_join notify_leave notify_update
  notify_all-agrees k b [] v r m = (r, m)
  notify_all-agrees k b (join n ∷ es) v r m =
      notify_all-agrees k (str_eq (mesh_addr show_int n) k || b) es (notify_join show_int n v)
        (ring_with-InRing k (mesh_addr show_int n) b v.ring r)
        (pool_with-InPools k (mesh_addr show_int n) v.self b v.mesh_pool (addr-some n) m)
  notify_all-agrees k b (leave n ∷ es) v r m =
      notify_all-agrees k (not (str_eq (mesh_addr show_int n) k) && b) es
        (notify_leave show_int n v) (ring_without-InRing k (mesh_addr show_int n) b v.ring r)
        (pool_without-InPools k (mesh_addr show_int n) v.self b v.mesh_pool m)
  notify_all-agrees k b (update n ∷ es) v r m =
      notify_all-agrees k (str_eq (mesh_addr show_int n) k || b) es (notify_update show_int n v)
        (ring_with-InRing k (mesh_addr show_int n) b v.ring r)
        (pool_with-InPools k (mesh_addr show_int n) v.self b v.mesh_pool (addr-some n) m)
