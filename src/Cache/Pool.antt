-- ===== src/Cache/Pool.antt =====
-- The managers of a process, each by its number, as the evictors of one shared budget: what the
-- laws of `Evictors` ask holds of `EvictOldest`. `config` says which managers were given a budget.
use jaydb.Base.{
  ℕ, suc, ◌+◌, ◌≡◌, refl, ap, subst, ◌∙◌, sym, inl, inr, Bool, false, Option, none, some, arith,
  if◌then◌else◌, ◌==◌, Bool-cases,
}
use jaydb.Cache.Budget.{Evictors}
use jaydb.Cache.Manager.{Manager, manager_bytes, manager_items, evict_oldest}
use jaydb.Cache.Manager.Shards.{IsManager}
use jaydb.Cache.Manager.Evict.{Evicted, evict_oldest_lem, evict_oldest_none, evicted_lem}

abbrev pub Pool : Type 0
Pool = ℕ → Manager

abbrev pub update : Pool → ℕ → Manager → Pool
update ms e m d = if d == e then m else ms d

abbrev put_back : ℕ → Pool → Option (ℕ × Manager) → Option (ℕ × Pool)
put_back e ms none = none
put_back e ms (some (freed, m)) = some (freed, update ms e m)

-- `Evictor.EvictOldest` of the manager `e`.
abbrev pub evict_from : ℕ → Pool → Option (ℕ × Pool)
evict_from e ms = put_back e ms (evict_oldest (ms e))

abbrev pub held_in : ℕ → Pool → ℕ
held_in e ms = manager_bytes (ms e).shards

abbrev pub entries_in : ℕ → Pool → ℕ
entries_in e ms = manager_items (ms e).shards

abbrev pub IsPool : (ℕ → Bool) → Pool → Type 0
IsPool config ms = (e : ℕ) → IsManager (ms e) × ((ms e).has_budget ≡ config e)

module _ (config : ℕ → Bool) where
  pub update-IsPool :
      (e : ℕ) (ms : Pool) (m : Manager)
      → IsPool config ms
      → IsManager m
      → m.has_budget ≡ config e
      → IsPool config (update ms e m)
  update-IsPool e ms m p v h d = elim (Bool-cases (d == e)) [
    | inl q ↦ rw q (v, h ∙ ap config (ground arith))
    | inr q ↦ rw q (p d)
  ]

  -- An eviction of a pool is one of the manager.
  evict_from-inverse :
      (e : ℕ) (ms ms' : Pool) (freed : ℕ) (o : Option (ℕ × Manager))
      → put_back e ms o ≡ some (freed, ms')
      → (m : Manager) × (o ≡ some (freed, m)) × (update ms e m ≡ ms')
  evict_from-inverse e ms ms' freed none h = cc
  evict_from-inverse e ms ms' freed (some (f, m)) h = (m, cc, cc)

  evict_from-none :
      (e : ℕ) (ms : Pool) (o : Option (ℕ × Manager)) → put_back e ms o ≡ none → o ≡ none
  evict_from-none e ms none h = refl
  evict_from-none e ms (some (f, m)) h = cc

  pub at_update : (ms : Pool) (e : ℕ) (m : Manager) → update ms e m e ≡ m
  at_update ms e m = ground arith

  pub evicts :
      (e : ℕ) (ms ms' : Pool) (freed : ℕ)
      → IsPool config ms
      → evict_from e ms ≡ some (freed, ms')
      → (held_in e ms ≡ held_in e ms' + freed)
        × (entries_in e ms ≡ suc (entries_in e ms'))
        × IsPool config ms'
  evicts e ms ms' freed p h =
      let (m, q, u) = evict_from-inverse e ms ms' freed (evict_oldest (ms e)) h in
      elim (evict_oldest_lem (ms e) (p e).0) [
        | inl (n, _) ↦ absurd (nothing (sym n ∙ q))
        | inr (f, m', q', r) ↦
            let same : (f, m') ≡ (freed, m) = same_result (sym q' ∙ q) in
            let r' = subst (λ (z : ℕ × Manager). Evicted (ms e) z.0 z.1) same r in
            let (b, i, v, c) = evicted_lem (ms e) freed m (p e).0 r' in
            let at : m ≡ ms' e = sym (at_update ms e m) ∙ ap (λ (t : Pool). t e) u in
            (
              b ∙ ap (λ (k : Manager). manager_bytes k.shards + freed) at,
              i ∙ ap (λ (k : Manager). suc (manager_items k.shards)) at,
              subst (IsPool config) u (update-IsPool e ms m p v (c ∙ (p e).1)),
            )
      ]
    where
      nothing : {r : ℕ × Manager} → none ≡ some r → ⊥
      nothing h = cc

      same_result : {r r' : ℕ × Manager} → some r ≡ some r' → r ≡ r'
      same_result h = cc

  pub spares :
      (e d : ℕ) (ms ms' : Pool) (freed : ℕ)
      → evict_from e ms ≡ some (freed, ms')
      → (d == e) ≡ false
      → (held_in d ms' ≡ held_in d ms) × (entries_in d ms' ≡ entries_in d ms)
  spares e d ms ms' freed h n =
      let (m, _, u) = evict_from-inverse e ms ms' freed (evict_oldest (ms e)) h in
      let at : ms' d ≡ ms d = ap (λ (t : Pool). t d) (sym u) ∙ rw n refl in
      (
        ap (λ (k : Manager). manager_bytes k.shards) at,
        ap (λ (k : Manager). manager_items k.shards) at,
      )

  pub exhausted :
      (e : ℕ) (ms : Pool)
      → IsPool config ms
      → evict_from e ms ≡ none
      → (held_in e ms ≡ 0) × (entries_in e ms ≡ 0)
  exhausted e ms p h =
      evict_oldest_none (ms e) (p e).0 (evict_from-none e ms (evict_oldest (ms e)) h)

  -- The managers keep the contract of `Evictor`.
  abbrev pub evictors : Evictors Pool (IsPool config)
  evictors = record {
    evict_oldest = evict_from;
    held = held_in;
    count = entries_in;
    evicts = evicts;
    spares = spares;
    exhausted = exhausted;
  }
