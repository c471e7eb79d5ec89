-- ===== src/Cache/Manager/Evict.antt =====
-- `EvictOldest`: it takes the entry that was used longest ago among the last ones of the shards, at
-- its first attempt, and it refuses only when the manager is empty.
use jaydb.Base.{
  ℕ, ◌+◌, ◌<◌, ◌⊎◌, ◌≡◌, refl, sym, ap, subst, ◌∙◌, inl, inr, List, [], ◌∷◌, true, none, some,
  arith, All, get_elem?, length, set, length-remove_at, get_elem?-lt, Option-cases, suc,
}
use jaydb.Cache.Shard.{Item, Shard, find_element, remove_elem}
use jaydb.Cache.Shard.Places.{has_key_at, sizes}
use jaydb.Cache.Shard.Invariant.{IsShard, remove_elem-IsShard, at_least}
use jaydb.Cache.Manager.{
  Manager, Victim, shard_at, scan, evict_attempts, evict_oldest, add_uint64, is_same_element,
  manager_bytes, manager_items,
}
use jaydb.Cache.Manager.Shards.{
  IsManager, shard_at-IsShard, manager_bytes-set, manager_items-set, set-IsManager,
}
use jaydb.Cache.Manager.Scan.{IsOldest, find_pos_at, scan-IsFound, scan-IsOldest, scan_empty}

find_element_at :
    (s : Shard) (i : ℕ) (x : Item)
    → IsShard s
    → get_elem? s.lru i ≡ some x
    → find_element x.key s ≡ some (i, x)
unfolding find_element
find_element_at s i x v g =
    ground
      (arith, v.same_keys x.key, has_key_at s.lru i x g, find_pos_at s.lru i x v.lru_distinct g, g)

-- The manager without its victim.
abbrev pub evicted : Manager → Victim → Manager
evicted m w = record m {
  shards = set m.shards w.shard (remove_elem w.place w.item (shard_at m.shards w.shard)).1;
  evictions = add_uint64 m.evictions 1;
}

-- What an eviction does: it takes the victim out of its shard.
pub record Evicted (m : Manager) (freed : ℕ) (m' : Manager) : Type 0 where
  pub victim : Victim
  pub bound : victim.shard < length m.shards
  pub element : get_elem? (shard_at m.shards victim.shard).lru victim.place ≡ some victim.item
  pub oldest : IsOldest m.shards victim
  pub size_freed : freed ≡ victim.item.size
  pub after : m' ≡ evicted m victim

same_some : {v w : Victim} → some v ≡ some w → v ≡ w
same_some e = cc

no_victim : {w : Victim} → none ≡ some w → ⊥
no_victim e = cc

evict_attempts-none :
    (k : ℕ) (m : Manager) → scan 0 m.shards none ≡ none → evict_attempts (suc k) m ≡ none
unfolding evict_attempts
evict_attempts-none k m e = rw (e, evict_attempts) refl

evict_attempts-some :
    (k : ℕ) (m : Manager) (w : Victim)
    → scan 0 m.shards none ≡ some w
    → is_same_element (find_element w.item.key (shard_at m.shards w.shard)) w.place ≡ true
    → evict_attempts (suc k) m ≡ some (w.item.size, evicted m w)
unfolding evict_attempts remove_elem
evict_attempts-some k m w e s = rw (e, evict_attempts, s) refl

-- On a manager whose shards are sound, `EvictOldest` refuses only if no shard has an entry; else its
-- first attempt takes an entry that is the last of its shard, and that was used no later than the
-- last entry of any shard, and reports its size.
pub evict_oldest_lem :
    (m : Manager)
    → IsManager m
    → ((evict_oldest m ≡ none) × All (λ (s : Shard). s.lru ≡ []) m.shards)
      ⊎ ((freed : ℕ) × (m' : Manager) × (evict_oldest m ≡ some (freed, m')) × Evicted m freed m')
unfolding evict_oldest
evict_oldest_lem m v = elim (Option-cases (scan 0 m.shards none)) [
  | inl e ↦ inl (evict_attempts-none 2 m e, (scan_empty 0 m.shards none e).1)
  | inr (w, e) ↦ elim (scan-IsFound 0 m.shards none w e) [
    | inl q ↦ absurd (no_victim q)
    | inr f ↦
        let at : f.offset ≡ w.shard = omega (arith, f.place_in) in
        let g : get_elem? (shard_at m.shards w.shard).lru w.place ≡ some w.item =
          ap (λ (i : ℕ). get_elem? (shard_at m.shards i).lru w.place) (sym at) ∙ f.element in
        let k =
          find_element_at (shard_at m.shards w.shard) w.place w.item
            (shard_at-IsShard m.shards w.shard v.sound) g in
        inr (
          w.item.size,
          evicted m w,
          evict_attempts-some 2 m w e (ap (λ r. is_same_element r w.place) k ∙ ground arith),
          record {
            victim = w;
            bound = omega (arith, f.bound, at);
            element = g;
            oldest = scan-IsOldest 0 m.shards none w e;
            size_freed = refl;
            after = refl;
          },
        )
  ]
]

All-empty :
    (ss : List Shard)
    → All IsShard ss
    → All (λ (s : Shard). s.lru ≡ []) ss
    → (manager_bytes ss ≡ 0) × (manager_items ss ≡ 0)
All-empty [] v e = (refl, refl)
All-empty (s ∷ ss) v e =
    let (b, i) = All-empty ss v.1 e.1 in
    (
      ground (arith, b, v.0.exact, ap sizes e.0),
      ground (arith, i, v.0.same_length, ap (length {A = Item}) e.0),
    )

pub evict_oldest_none :
    (m : Manager)
    → IsManager m
    → evict_oldest m ≡ none
    → (manager_bytes m.shards ≡ 0) × (manager_items m.shards ≡ 0)
evict_oldest_none m v h = elim (evict_oldest_lem m v) [
  | inl (_, e) ↦ All-empty m.shards v.sound e
  | inr (f, m', e, _) ↦ absurd (go (sym h ∙ e))
]
  where
    go : {r : ℕ × Manager} → none ≡ some r → ⊥
    go q = cc

evicted-IsManager :
    (m : Manager) (w : Victim)
    → IsManager m
    → get_elem? (shard_at m.shards w.shard).lru w.place ≡ some w.item
    → IsManager (evicted m w)
evicted-IsManager m w v g =
    let s = shard_at-IsShard m.shards w.shard v.sound in
    let u =
      set-IsManager m w.shard _ v
        (remove_elem-IsShard w.place w.item (shard_at m.shards w.shard) s g) in
    record { sound = u.sound; complete = u.complete }

remove_elem-sums :
    (i : ℕ) (x : Item) (s : Shard)
    → IsShard s
    → get_elem? s.lru i ≡ some x
    → ((remove_elem i x s).1.bytes + x.size ≡ s.bytes)
      × (suc (length (remove_elem i x s).1.items) ≡ length s.items)
unfolding remove_elem
remove_elem-sums i x s v g =
    let w = remove_elem-IsShard i x s v g in
    (
      omega (arith, at_least i x s v g),
      omega (
        arith,
        w.same_length,
        v.same_length,
        length-remove_at i s.lru (get_elem?-lt s.lru i x g),
      ),
    )

evicted-sums :
    (m : Manager) (w : Victim)
    → IsManager m
    → w.shard < length m.shards
    → get_elem? (shard_at m.shards w.shard).lru w.place ≡ some w.item
    → (manager_bytes m.shards ≡ manager_bytes (evicted m w).shards + w.item.size)
      × (manager_items m.shards ≡ suc (manager_items (evicted m w).shards))
evicted-sums m w v l g =
    let s = shard_at m.shards w.shard in
    let i = shard_at-IsShard m.shards w.shard v.sound in
    let s' = (remove_elem w.place w.item s).1 in
    let i' = remove_elem-IsShard w.place w.item s i g in
    let h = remove_elem-sums w.place w.item s i g in
    (
      omega (arith, manager_bytes-set m.shards w.shard s' l, h.0),
      omega (arith, manager_items-set m.shards w.shard s' l, h.1),
    )

-- What `EvictOldest` reports is what the manager holds less, one entry is gone, and the manager is
-- sound again.
pub evicted_lem :
    (m : Manager) (freed : ℕ) (m' : Manager)
    → IsManager m
    → Evicted m freed m'
    → (manager_bytes m.shards ≡ manager_bytes m'.shards + freed)
      × (manager_items m.shards ≡ suc (manager_items m'.shards))
      × IsManager m'
      × (m'.has_budget ≡ m.has_budget)
evicted_lem m freed m' v r =
    let w = r.victim in
    let (b, i) = evicted-sums m w v r.bound r.element in
    (
      ground (arith, b, r.size_freed, ap (λ (k : Manager). manager_bytes k.shards) r.after),
      ground (arith, i, ap (λ (k : Manager). manager_items k.shards) r.after),
      subst IsManager (sym r.after) (evicted-IsManager m w v r.element),
      ap (λ (k : Manager). k.has_budget) r.after,
    )
