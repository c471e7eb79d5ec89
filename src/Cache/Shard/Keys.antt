-- ===== src/Cache/Shard/Keys.antt =====
-- Which keys a shard, or a manager, holds at most.
use jaydb.Base.{
  found_at_place, ℕ, zero, suc, ◌≡◌, inl, inr, List, [], ◌∷◌, Str, Bool, true, some, get_elem?,
  remove_at, All, All-at, lookup, Option-cases,
}
use jaydb.Storage.{Object}
use jaydb.Cache.Shard.{Item, Shard, find_element, find_pos, drop_key, remove_elem, touch, store}

-- An element that is found is on the list.
found_at :
    (key : Str) (s : Shard) (i : ℕ) (x : Item)
    → find_element key s ≡ some (i, x)
    → get_elem? s.lru i ≡ some x
unfolding find_element
found_at key s i x h = found_at_place s.lru i x (lookup key s.items) (find_pos key s.lru) h

module _ (P : Str → Bool) where
  -- Every item's key is one of `P`.
  abbrev pub KeysIn : Shard → Type 0
  KeysIn s = All (λ (x : Item). P x.key ≡ true) s.lru

  All-remove_at :
      (i : ℕ) (xs : List Item)
      → All (λ (x : Item). P x.key ≡ true) xs
      → All (λ (x : Item). P x.key ≡ true) (remove_at i xs)
  All-remove_at i [] h = tt
  All-remove_at zero (x ∷ xs) h = h.1
  All-remove_at (suc i) (x ∷ xs) h = (h.0, All-remove_at i xs h.1)

  pub remove_elem-KeysIn : (i : ℕ) (x : Item) (s : Shard) → KeysIn s → KeysIn (remove_elem i x s).1
  unfolding remove_elem
  remove_elem-KeysIn i x s h = All-remove_at i s.lru h

  found-KeysIn :
      (key : Str) (s : Shard) (i : ℕ) (x : Item)
      → find_element key s ≡ some (i, x)
      → KeysIn s
      → P x.key ≡ true
  found-KeysIn key s i x e h =
      All-at (λ (y : Item). P y.key ≡ true) s.lru i x h (found_at key s i x e)

  pub drop_key-KeysIn : (key : Str) (s : Shard) → KeysIn s → KeysIn (drop_key key s).1
  unfolding drop_key
  drop_key-KeysIn key s h = elim (Option-cases (find_element key s)) [
    | inl e ↦ rw (e, drop_key) h
    | inr ((i, x), e) ↦ rw (e, drop_key) (remove_elem-KeysIn i x s h)
  ]

  pub touch-KeysIn :
      (key : Str) (i : ℕ) (x : Item) (now : ℕ) (s : Shard)
      → find_element key s ≡ some (i, x)
      → KeysIn s
      → KeysIn (touch i x now s)
  unfolding touch
  touch-KeysIn key i x now s e h = (found-KeysIn key s i x e h, All-remove_at i s.lru h)

  pub store-KeysIn :
      (key : Str) (obj : Object) (size now : ℕ) (s : Shard)
      → P key ≡ true
      → KeysIn s
      → KeysIn (store key obj size now s).1
  unfolding store
  store-KeysIn key obj size now s p h = elim (Option-cases (find_element key s)) [
    | inl e ↦ rw (e, store) (p, h)
    | inr ((i, x), e) ↦ rw (e, store) (found-KeysIn key s i x e h, All-remove_at i s.lru h)
  ]
