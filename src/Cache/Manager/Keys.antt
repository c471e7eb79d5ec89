-- ===== src/Cache/Manager/Keys.antt =====
-- Which keys a manager holds at most, and that evictions add none.
use jaydb.Cache.Shard.{Item}
use jaydb.Cache.Shard.Places.{has_key}
use jaydb.Base.{
  str_eq_refl, str_eq_iff, ℕ, zero, suc, ◌≡◌, refl, inl, inr, List, [], ◌∷◌, Str, Bool, true, false,
  Option, some, none, arith, All, All-set, set, Option-cases, Bool-cases,
}
use jaydb.Cache.Shard.{Shard, find_element, remove_elem}
use jaydb.Cache.Shard.Keys.{KeysIn, remove_elem-KeysIn}
use jaydb.Cache.Manager.{Manager, shard_at, scan, evict_attempts, evict_oldest, is_same_element}

module _ (P : Str → Bool) where
  abbrev pub ManagerIn : Manager → Type 0
  ManagerIn m = All (KeysIn P) m.shards

  pub shard_at-KeysIn : (ss : List Shard) (i : ℕ) → All (KeysIn P) ss → KeysIn P (shard_at ss i)
  shard_at-KeysIn [] i h = tt
  shard_at-KeysIn (s ∷ ss) zero h = h.0
  shard_at-KeysIn (s ∷ ss) (suc i) h = shard_at-KeysIn ss i h.1

  items_in :
      (xs : List Item)
      → ((k : Str) → P k ≡ false → has_key k xs ≡ false)
      → All (λ (x : Item). P x.key ≡ true) xs
  items_in [] h = tt
  items_in (x ∷ xs) h =
      (ground (arith, h x.key, str_eq_refl x.key), items_in xs (λ k p. ground (arith, h k p)))

  has_key-items :
      (xs : List Item) (k : Str)
      → All (λ (x : Item). P x.key ≡ true) xs
      → P k ≡ false
      → has_key k xs ≡ false
  has_key-items [] k h p = refl
  has_key-items (x ∷ xs) k h p =
      ground (arith, h.0, has_key-items xs k h.1 p, p, str_eq_iff x.key k)

  pub ManagerIn-of_has_key :
      (ss : List Shard)
      → ((i : ℕ) (k : Str) → P k ≡ false → has_key k (shard_at ss i).lru ≡ false)
      → All (KeysIn P) ss
  ManagerIn-of_has_key [] h = tt
  ManagerIn-of_has_key (s ∷ ss) h =
      (items_in s.lru (h 0), ManagerIn-of_has_key ss (λ i k p. h (suc i) k p))

  pub has_key-ManagerIn :
      (ss : List Shard) (i : ℕ) (k : Str)
      → All (KeysIn P) ss
      → P k ≡ false
      → has_key k (shard_at ss i).lru ≡ false
  has_key-ManagerIn ss i k h p = has_key-items (shard_at ss i).lru k (shard_at-KeysIn ss i h) p

  -- What an eviction leaves, if there was one.
  abbrev pub EvictedIn : Option (ℕ × Manager) → Type 0
  EvictedIn none = Unit {0}
  EvictedIn (some (freed, m)) = ManagerIn m

  evict_attempts-EvictedIn :
      (attempts : ℕ) (m : Manager) → ManagerIn m → EvictedIn (evict_attempts attempts m)
  unfolding evict_attempts
  evict_attempts-EvictedIn zero m h = tt
  evict_attempts-EvictedIn (suc n) m h = elim (Option-cases (scan 0 m.shards none)) [
    | inl e ↦ rw (evict_attempts, e) tt
    | inr (v, e) ↦
        elim (Bool-cases
          (is_same_element (find_element v.item.key (shard_at m.shards v.shard)) v.place)) [
            | inl q ↦
                rw (evict_attempts, e, q)
                  (All-set (KeysIn P) m.shards v.shard
                    (remove_elem v.place v.item (shard_at m.shards v.shard)).1 h
                    (remove_elem-KeysIn P v.place v.item (shard_at m.shards v.shard)
                      (shard_at-KeysIn m.shards v.shard h)))
            | inr q ↦ rw (evict_attempts, e, q) (evict_attempts-EvictedIn n m h)
          ]
  ]

  pub evict_oldest-EvictedIn : (m : Manager) → ManagerIn m → EvictedIn (evict_oldest m)
  unfolding evict_oldest
  evict_oldest-EvictedIn m h = evict_attempts-EvictedIn 3 m h

  -- One shard of a manager in the place of another that holds no other keys.
  pub set-ManagerIn :
      (m : Manager) (i : ℕ) (s : Shard)
      → (KeysIn P (shard_at m.shards i) → KeysIn P s)
      → ManagerIn m
      → All (KeysIn P) (set m.shards i s)
  set-ManagerIn m i s k h = All-set (KeysIn P) m.shards i s h (k (shard_at-KeysIn m.shards i h))
