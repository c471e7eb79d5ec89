-- ===== src/Cluster/MeshPool/Reconcile.antt =====
-- `ReconcilePeers` makes the pools exactly those of the active peers.
use jaydb.Base.{
  ◌≡◌, refl, ◌∙◌, ◌&&◌, not, List, [], ◌∷◌, Str, StrMap, false, none, some, if◌then◌else◌, is_some,
  lookup, keep_if, contains, contains-keep_if, str_eq, str_eq_iff, lookup-insert, lookup-erase,
  arith, inl, inr, Bool-cases, pos,
}
use jaydb.Cluster.Pool.{PeerPool, new_peer_pool}
use jaydb.Cluster.MeshPool.{
  MeshPool, add_peer, remove_peer, is_peer, add_all, to_remove, remove_all, reconcile_peers,
}

-- The pool of an address, or the new one that it would get.
abbrev pub kept_or_new : Str → MeshPool → PeerPool
kept_or_new k m = elim (lookup k m.peers) [ some p ↦ p | none ↦ new_peer_pool (pos m.pool_size) ]

pub lookup-add_peer :
    (k addr : Str) (m : MeshPool)
    → m.done ≡ false
    → str_eq addr [] ≡ false
    → (lookup k (add_peer addr m).peers
        ≡ (if str_eq addr k then some (kept_or_new k m) else lookup k m.peers))
      × ((add_peer addr m).done ≡ false)
      × ((add_peer addr m).pool_size ≡ m.pool_size)
unfolding add_peer
lookup-add_peer k addr m d e =
    ground (
      arith,
      d,
      e,
      lookup-insert addr k (new_peer_pool (pos m.pool_size)) m.peers,
      str_eq_iff addr k,
    )

pub lookup-remove_peer :
    (k addr : Str) (m : MeshPool)
    → lookup k (remove_peer addr m).peers ≡ (if str_eq addr k then none else lookup k m.peers)
unfolding remove_peer
lookup-remove_peer k addr m = ground (arith, lookup-erase addr k m.peers, str_eq_iff addr k)

lookup-remove_all :
    (k : Str) (addrs : List Str) (m : MeshPool)
    → lookup k (remove_all addrs m).peers ≡ (if contains addrs k then none else lookup k m.peers)
unfolding remove_all contains
lookup-remove_all k [] m = refl
lookup-remove_all k (a ∷ as') m =
    ground (arith, lookup-remove_all k as' (remove_peer a m), lookup-remove_peer k a m)

contains-to_remove :
    (k : Str) (active : List Str) (ps : StrMap PeerPool)
    → contains (to_remove active ps) k ≡ (is_some (lookup k ps) && not (contains active k))
unfolding to_remove contains lookup
contains-to_remove k active [] = refl
contains-to_remove k active ((a, p) ∷ rest) =
    ground (arith, contains-to_remove k active rest, str_eq_iff a k)

lookup-add_all :
    (k self : Str) (active : List Str) (m : MeshPool)
    → m.done ≡ false
    → lookup k (add_all (keep_if (is_peer self) active) m).peers ≡ (
        if contains (keep_if (is_peer self) active) k
        then some (kept_or_new k m)
        else lookup k m.peers)
unfolding add_all contains
lookup-add_all k self [] m d = refl
lookup-add_all k self (a ∷ as') m d = elim (Bool-cases (is_peer self a)) [
  | inr e ↦ rw e (lookup-add_all k self as' m d)
  | inl e ↦
      let h = lookup-add_peer k a m d (ground (arith, e)) in
      rw e (ground (arith, lookup-add_all k self as' (add_peer a m) h.1, h.0, h.2))
]

-- After `ReconcilePeers` the mesh has a pool for exactly the active addresses other than its own and
-- the empty one: the pool that was there before if there was one, else a new one.
pub lookup-reconcile_peers :
    (active : List Str) (self : Str) (m : MeshPool) (k : Str)
    → m.done ≡ false
    → lookup k (reconcile_peers active self m).peers
      ≡ (if is_peer self k && contains active k then some (kept_or_new k m) else none)
unfolding reconcile_peers
lookup-reconcile_peers active self m k d =
    let set = keep_if (is_peer self) active in
    let m' = add_all set m in
    let a = lookup-add_all k self active m d in
    let t = contains-to_remove k set m'.peers in
    lookup-remove_all k (to_remove set m'.peers) m'
    ∙ ground (arith, a, t, contains-keep_if (is_peer self) active k)
