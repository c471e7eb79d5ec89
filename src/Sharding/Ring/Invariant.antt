-- ===== src/Sharding/Ring/Invariant.antt =====
-- The ring's two views of its members agree, and its nodes stay sorted; what each method does to
-- the members, and when it moves the generation.
use jaydb.Base.{
  contains-keep_if, is_some, ◌^◌, ◌<◌, ◌≡◌, refl, ◌∙◌, inl, inr, List, [], ◌∷◌, ◌++◌, Str, StrMap,
  Bool, true, false, not, ◌&&◌, ◌||◌, arith, keep_if, All, lookup, insert, lookup-insert,
  lookup-erase, ℤ, str_eq, str_ltb, str_eq_iff, Bool-cases, contains, IsAscending, IsDistinct,
  contains-sort, contains-append, sort-IsAscending, IsDistinct-of_IsAscending,
}
use jaydb.Sharding.Ring.{Ring, new_ring, add_node, remove_node, has_node, dedup, keys, identical}

pub record IsRing (r : Ring) : Type 0 where
  pub ascending : IsAscending r.nodes
  pub members : (k : Str) → contains r.nodes k ≡ has_node r k
  pub counter : r.generation < 2 ^ 64

pub new_ring-IsRing : (replicas depth : ℤ) → IsRing (new_ring replicas depth)
unfolding new_ring has_node contains lookup
new_ring-IsRing replicas depth = record {
  ascending = tt;
  members = λ k. refl;
  counter = omega arith;
}

IsDistinct-append :
    (xs : List Str) (x : Str) → IsDistinct xs → contains xs x ≡ false → IsDistinct (xs ++ (x ∷ []))
unfolding contains
IsDistinct-append [] x d m = (refl, tt)
IsDistinct-append (y ∷ ys) x d m = (
  ground (arith, contains-append ys (x ∷ []) y, str_eq_iff x y, str_eq_iff y x),
  IsDistinct-append ys x d.1 (ground arith),
)

All-keep_if :
    (q p : Str → Bool) (xs : List Str)
    → All (λ y. q y ≡ true) xs
    → All (λ y. q y ≡ true) (keep_if p xs)
All-keep_if q p [] h = tt
All-keep_if q p (x ∷ xs) h = elim (Bool-cases (p x)) [
  | inl e ↦ rw e (h.0, All-keep_if q p xs h.1)
  | inr e ↦ rw e (All-keep_if q p xs h.1)
]

keep_if-IsAscending : (p : Str → Bool) (xs : List Str) → IsAscending xs → IsAscending (keep_if p xs)
keep_if-IsAscending p [] h = tt
keep_if-IsAscending p (x ∷ xs) h = elim (Bool-cases (p x)) [
  | inl e ↦ rw e (All-keep_if (str_ltb x) p xs h.0, keep_if-IsAscending p xs h.1)
  | inr e ↦ rw e (keep_if-IsAscending p xs h.1)
]

-- The members after each method.
pub has_node-add_node :
    (r : Ring) (addr k : Str) → has_node (add_node r addr) k ≡ (str_eq addr k || has_node r k)
unfolding has_node add_node
has_node-add_node r addr k = ground (arith, lookup-insert addr k tt r.node_set, str_eq_iff addr k)

pub has_node-remove_node :
    (r : Ring) (addr k : Str)
    → has_node (remove_node r addr) k ≡ (not (str_eq addr k) && has_node r k)
unfolding has_node remove_node
has_node-remove_node r addr k = ground (arith, lookup-erase addr k r.node_set, str_eq_iff addr k)

pub add_node-IsRing : (r : Ring) (addr : Str) → IsRing r → IsRing (add_node r addr)
unfolding add_node has_node
add_node-IsRing r addr v = elim (Bool-cases (is_some (lookup addr r.node_set))) [
  | inl e ↦ rw e v
  | inr e ↦ rw e (record {
    ascending = sort-IsAscending _ (
        IsDistinct-append r.nodes addr (IsDistinct-of_IsAscending r.nodes v.ascending)
          (v.members addr ∙ e));
    members = λ k.
        contains-sort (r.nodes ++ (addr ∷ [])) k
        ∙ unfold contains in
          ground (
            arith,
            contains-append r.nodes (addr ∷ []) k,
            v.members k,
            lookup-insert addr k tt r.node_set,
          );
    counter = omega arith;
  })
]

pub remove_node-IsRing : (r : Ring) (addr : Str) → IsRing r → IsRing (remove_node r addr)
unfolding remove_node has_node
remove_node-IsRing r addr v = elim (Bool-cases (is_some (lookup addr r.node_set))) [
  | inr e ↦ rw e v
  | inl e ↦ rw e (record {
    ascending = keep_if-IsAscending _ r.nodes v.ascending;
    members = λ k. ground (
      arith,
      contains-keep_if (λ n. not (str_eq n addr)) r.nodes k,
      v.members k,
      lookup-erase addr k r.node_set,
      str_eq_iff addr k,
      str_eq_iff k addr,
    );
    counter = omega arith;
  })
]

pub contains-keys : (m : StrMap (Unit {0})) (k : Str) → contains (keys m) k ≡ is_some (lookup k m)
unfolding contains keys lookup
contains-keys [] k = refl
contains-keys ((j, v) ∷ m) k = ground (arith, contains-keys m k)

keys-insert-IsDistinct :
    (a : Str) (m : StrMap (Unit {0})) → IsDistinct (keys m) → IsDistinct (keys (insert a tt m))
unfolding keys insert contains lookup
keys-insert-IsDistinct a [] d = (refl, tt)
keys-insert-IsDistinct a ((j, v) ∷ m) d = elim (Bool-cases (str_eq j a)) [
  | inl e ↦ rw (e, ← (str_eq_iff j a).0 e) d
  | inr e ↦ rw e (
    ground (
      arith,
      contains-keys (insert a tt m) j,
      contains-keys m j,
      lookup-insert a j tt m,
      str_eq_iff a j,
      str_eq_iff j a,
    ),
    keys-insert-IsDistinct a m d.1,
  )
]

pub dedup-IsDistinct :
    (as' : List Str) (m : StrMap (Unit {0})) → IsDistinct (keys m) → IsDistinct (keys (dedup as' m))
unfolding dedup
dedup-IsDistinct [] m d = d
dedup-IsDistinct (a ∷ as') m d = elim (Bool-cases (str_eq a [])) [
  | inl e ↦ rw e (dedup-IsDistinct as' m d)
  | inr e ↦ rw e (dedup-IsDistinct as' (insert a tt m) (keys-insert-IsDistinct a m d))
]

-- The set holds the addresses of the list that are not empty.
pub lookup-dedup :
    (as' : List Str) (m : StrMap (Unit {0})) (k : Str)
    → is_some (lookup k (dedup as' m))
      ≡ (is_some (lookup k m) || (contains as' k && not (str_eq k [])))
unfolding dedup contains
lookup-dedup [] m k = ground arith
lookup-dedup (a ∷ as') m k = elim (Bool-cases (str_eq a [])) [
  | inl e ↦ rw e (ground (arith, lookup-dedup as' m k, str_eq_iff a k))
  | inr e ↦
      rw e
        (ground (arith, lookup-dedup as' (insert a tt m) k, lookup-insert a k tt m, str_eq_iff a k))
]

pub identical-eq : (xs ys : List Str) → identical xs ys ≡ true → xs ≡ ys
unfolding identical
identical-eq [] [] h = refl
identical-eq [] (y ∷ ys) h = cc
identical-eq (x ∷ xs) [] h = cc
identical-eq (x ∷ xs) (y ∷ ys) h = ground (arith, str_eq_iff x y, identical-eq xs ys)
