-- ===== src/Cache/Budget/Tests.antt =====
-- Tests and witnesses for the budget, over managers whose entries have ten bytes each.
use jaydb.Base.{
  ℕ, zero, suc, ◌+◌, ◌*◌, ◌≡◌, refl, ap, [], ◌∷◌, Bool, true, false, ◌||◌, Option, none, some,
  arith, ◌==◌, if◌then◌else◌, pos, pos_part,
}
use jaydb.Cache.Budget.{
  Evictors, Budget, done, new_budget, register, release, fits, is_unbounded, drain, unregister,
  fix_cursor, reserve, reserve_loop,
}
use jaydb.Cache.Budget.Loop.{IsAccounted}
use jaydb.Cache.Budget.Reserve.{Outcome, reserve_lem, reserve-fits}
use jaydb.Cache.Budget.Unregister.{Unregistered, unregister_lem, unregister_absent}

-- The number of entries of each manager.
abbrev Store : Type 0
Store = ℕ → ℕ

abbrev update : Store → ℕ → ℕ → Store
update s e c d = if d == e then c else s d

abbrev evict_at : ℕ → ℕ → Store → Option (ℕ × Store)
evict_at zero e s = none
evict_at (suc c) e s = some (10, update s e c)

abbrev evict : ℕ → Store → Option (ℕ × Store)
evict e s = evict_at (s e) e s

abbrev bytes : ℕ → Store → ℕ
bytes e s = s e * 10

abbrev entries : ℕ → Store → ℕ
entries e s = s e

inverse :
    (c e : ℕ) (s s' : Store) (freed : ℕ)
    → evict_at c e s ≡ some (freed, s')
    → (d : ℕ) × (c ≡ suc d) × (freed ≡ 10) × (update s e d ≡ s')
inverse zero e s s' freed h = cc
inverse (suc d) e s s' freed h = (d, refl, cc, cc)

evicts :
    (e : ℕ) (s s' : Store) (freed : ℕ)
    → Unit {0}
    → evict e s ≡ some (freed, s')
    → (bytes e s ≡ bytes e s' + freed) × (entries e s ≡ suc (entries e s')) × Unit {0}
evicts e s s' freed w h =
    let (d, c, f, u) = inverse (s e) e s s' freed h in
    let at : (if e == e then d else s e) ≡ s' e = ap (λ (t : Store). t e) u in
    (ground (arith, c, f, at), ground (arith, c, at), tt)

spares :
    (e d : ℕ) (s s' : Store) (freed : ℕ)
    → evict e s ≡ some (freed, s')
    → (d == e) ≡ false
    → (bytes d s' ≡ bytes d s) × (entries d s' ≡ entries d s)
spares e d s s' freed h n =
    let (c, _, _, u) = inverse (s e) e s s' freed h in
    let at : (if d == e then c else s d) ≡ s' d = ap (λ (t : Store). t d) u in
    (ground (arith, at), ground (arith, at))

exhausted : (e : ℕ) (s : Store) → Unit {0} → evict e s ≡ none → (bytes e s ≡ 0) × (entries e s ≡ 0)
exhausted e s w h = go (s e) h
  where
    go : (c : ℕ) → evict_at c e s ≡ none → (c * 10 ≡ 0) × (c ≡ 0)
    go zero h = (refl, refl)
    go (suc c) h = cc

abbrev tens : Evictors Store (λ s. Unit {0})
tens = record {
  evict_oldest = evict;
  held = bytes;
  count = entries;
  evicts = evicts;
  spares = spares;
  exhausted = exhausted;
}

program : Unit {0}
unfolding new_budget register release drain unregister fix_cursor reserve reserve_loop
program = tt

-- Manager 1 has three entries, manager 2 has one.
abbrev store : Store
store = update (update (λ e. 0) 1 3) 2 1

abbrev budget : Budget
budget = record { limit = pos 45; used = 40; evictors = 1 ∷ 2 ∷ []; cursor = 1 }

-- Manager 2 gives its entry first, since the cursor stands on it.
first_victim :
    reserve tens 20 budget store (pos 10)
    ≡ done (true, record budget { used = 40; cursor = 0 }, update store 2 0)
unfolding program
first_victim = refl

nothing_evicted : reserve tens 20 budget store (pos 46) ≡ done (false, budget, store)
unfolding program
nothing_evicted = refl

first_leaves :
    unregister tens 4 budget store (some 1)
    ≡ done (
      record budget { used = 10; evictors = 2 ∷ []; cursor = 0 },
      update (update (update store 1 2) 1 1) 1 0,
    )
unfolding program
first_leaves = refl

budget-IsAccounted : IsAccounted tens 0 budget store
budget-IsAccounted = record {
  good = tt;
  exact = refl;
  distinct = (refl, (refl, tt));
  in_range = λ h. omega arith;
}

reserve_lem_example :
    (got : Bool) × (b' : Budget) × (s' : Store) × (reserve tens 20 budget store (pos 10)
      ≡ done (got, b', s'))
    × Outcome tens (pos_part (pos 10)) 0 budget store got b' s'
reserve_lem_example = reserve_lem tens 20 0 budget store (pos 10) budget-IsAccounted (omega arith)

reserve-fits_example :
    (b' : Budget) × (s' : Store) × (reserve tens 20 budget store (pos 10)
      ≡ done (is_unbounded budget.limit || fits (pos_part (pos 10)) budget.limit, b', s'))
reserve-fits_example = reserve-fits tens 20 budget store (pos 10) budget-IsAccounted (omega arith)

unregister_lem_example :
    (b' : Budget) × (s' : Store) × (unregister tens 4 budget store (some 1) ≡ done (b', s'))
    × Unregistered tens 0 1 budget store b' s'
unregister_lem_example =
    unregister_lem tens 4 0 1 budget store budget-IsAccounted (omega arith) refl

unregister_absent_example : unregister tens 4 budget store (some 7) ≡ done (budget, store)
unregister_absent_example = unregister_absent tens 4 7 budget store refl
