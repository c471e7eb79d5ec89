-- ===== src/Cache/Calls/Admit.antt =====
-- `admit` returns, and keeps the shared budget exact.
use jaydb.Base.{
  ◌-◌, ◌*◌, List, [], ◌∷◌, ◌==◌, ℕ, ◌+◌, ◌<◌, ◌≡◌, refl, sym, ap, subst, ◌∙◌, inl, inr, Str, Bool,
  true, Option, none, some, arith, if◌then◌else◌, All, length, pos, Bool-cases,
}
use jaydb.Storage.{Object}
use jaydb.Cache.Budget.{Run, done, reserve}
use jaydb.Cache.Budget.Loop.{measure}
use jaydb.Cache.Budget.Reserve.{reserve_lem}
use jaydb.Cache.Budget.Drain.{is_in, count_by}
use jaydb.Cache.Shard.Invariant.{IsShard}
use jaydb.Cache.Manager.{Manager, manager_bytes, manager_items}
use jaydb.Cache.Pool.{Pool, update, evictors}
use jaydb.Cache.Calls.{
  World, admit, after_reserve, admit_some, invalidate, store_in, put_manager, skip_large,
  is_too_large,
}
use jaydb.Cache.Calls.Accounts.{
  IsExact, give_back-IsExact, invalidate-evictors, store_in-evictors, invalidate-IsExact,
  store_in-IsExact,
}

module _ (config : ℕ → Bool) where
  -- Fuel for the rounds of `Reserve`.
  abbrev pub HasFuel : ℕ → World → Type 0
  HasFuel fuel w = measure (evictors config) w.budget w.pool 0 < fuel

  -- A call that returns a world where the count is exact, with the same managers registered.
  pub record Returned (inflight e : ℕ) (w : World) (r : Run World) : Type 0 where
    pub world : World
    pub returns : r ≡ done world
    pub exact : IsExact config inflight e world
    pub same_evictors : world.budget.evictors ≡ w.budget.evictors

  -- A manager in which the counters alone have changed.
  pub counted-IsExact :
      (inflight e : ℕ) (w : World) (m : Manager)
      → IsExact config inflight e w
      → m.shards ≡ (w.pool e).shards
      → m.has_budget ≡ (w.pool e).has_budget
      → IsExact config inflight e (put_manager e m w)
  counted-IsExact inflight e w m x s h =
      let (v, c) = x.accounted.good e in
      give_back-IsExact config (if config e then inflight + 0 else inflight) inflight e 0 0 w m
        (subst (λ n. IsExact config n e w) (ground arith) x)
        (record {
          sound = subst (All IsShard) (sym s) v.sound;
          complete = ap length s ∙ v.complete;
        })
        (h ∙ c) refl (ap (λ ss. manager_bytes ss + 0) s)

  counted-entries :
      (es : List ℕ) (e : ℕ) (ms : Pool) (m : Manager)
      → m.shards ≡ (ms e).shards
      → count_by (evictors config) es (update ms e m) ≡ count_by (evictors config) es ms
  counted-entries [] e ms m s = refl
  counted-entries (d ∷ es) e ms m s = elim (Bool-cases (d == e)) [
    | inl q ↦
        let at : d ≡ e = ground arith in
        rw q (
          omega (
            arith,
            counted-entries es e ms m s,
            ap manager_items s,
            ap (λ k. manager_items (ms k).shards) at,
          ))
    | inr q ↦ rw q (omega (arith, counted-entries es e ms m s))
  ]

  pub counted-HasFuel :
      (fuel e : ℕ) (w : World) (m : Manager)
      → m.shards ≡ (w.pool e).shards
      → HasFuel fuel w
      → HasFuel fuel (put_manager e m w)
  counted-HasFuel fuel e w m s h =
      subst (λ c. c * (length w.budget.evictors + 1) + (length w.budget.evictors - 0) < fuel)
        (sym (counted-entries w.budget.evictors e w.pool m s)) h

  invalidated :
      (inflight e : ℕ) (key : Str) (w w' : World)
      → IsExact config inflight e w'
      → w'.budget.evictors ≡ w.budget.evictors
      → Returned inflight e w (done (invalidate e key w'))
  invalidated inflight e key w w' x s = record {
    world = invalidate e key w';
    returns = refl;
    exact = invalidate-IsExact config inflight e key w' x;
    same_evictors = invalidate-evictors config e key w' ∙ s;
  }

  stored :
      (inflight e : ℕ) (key : Str) (obj : Object) (now : ℕ) (w w' : World)
      → IsExact config (if config e then inflight + length obj.value else inflight) e w'
      → w'.budget.evictors ≡ w.budget.evictors
      → Returned inflight e w (done (store_in e key obj now w'))
  stored inflight e key obj now w w' x s = record {
    world = store_in e key obj now w';
    returns = refl;
    exact = store_in-IsExact config inflight e key obj now w' x;
    same_evictors = store_in-evictors config e key obj now w' ∙ s;
  }

  -- After `Reserve`.
  admitted :
      (fuel inflight e : ℕ) (key : Str) (obj : Object) (now : ℕ) (w : World)
      → IsExact config inflight e w
      → HasFuel fuel w
      → config e ≡ true
      → Returned inflight e w (
          after_reserve e key obj now
            (reserve (evictors config) fuel w.budget w.pool (pos (length obj.value))))
  admitted fuel inflight e key obj now w x enough c =
      let n = length obj.value in
      let (got, b, ms, r, o) =
        reserve_lem (evictors config) fuel inflight w.budget w.pool (pos n) x.accounted enough in
      let same = o.reserved.same_evictors in
      let member : is_in e b.evictors ≡ config e = ap (is_in e) same ∙ x.registered in
      elim (Bool-cases got) [
        | inl g ↦
            rw (r, g)
              (stored inflight e key obj now w (record { budget = b; pool = ms })
                (subst (λ k. IsExact config k e (record { budget = b; pool = ms })) (ground arith)
                  (record { accounted = o.reserved.granted g; registered = member }))
                same)
        | inr g ↦
            rw (r, g)
              (invalidated inflight e key w (record { budget = b; pool = ms })
                (record { accounted = o.reserved.refused g; registered = member }) same)
      ]

  -- `admit` of an object.
  pub admit-Returned :
      (fuel inflight e : ℕ) (key : Str) (obj : Object) (now : ℕ) (w : World)
      → IsExact config inflight e w
      → HasFuel fuel w
      → Returned inflight e w (admit config fuel e key obj now w)
  unfolding admit
  admit-Returned fuel inflight e key obj now w x enough =
      let h = (x.accounted.good e).1 in
      elim (Bool-cases (is_too_large (w.pool e) (length obj.value))) [
        | inl l ↦ rw l (
            invalidated inflight e key w (put_manager e (skip_large (w.pool e)) w)
              (counted-IsExact inflight e w (skip_large (w.pool e)) x refl refl) refl)
        | inr l ↦ elim (Bool-cases (config e)) [
          | inl c ↦ rw (l, h ∙ c) (admitted fuel inflight e key obj now w x enough c)
          | inr c ↦
              rw (l, h ∙ c)
                (stored inflight e key obj now w w
                  (subst (λ k. IsExact config k e w) (ground arith) x) refl)
        ]
      ]

  pub admit_some-Returned :
      (fuel inflight e : ℕ) (key : Str) (o : Option Object) (now : ℕ) (w : World)
      → IsExact config inflight e w
      → HasFuel fuel w
      → Returned inflight e w (admit_some config fuel e key o now w)
  admit_some-Returned fuel inflight e key none now w x enough = record {
    world = w;
    returns = refl;
    exact = x;
    same_evictors = refl;
  }
  admit_some-Returned fuel inflight e key (some obj) now w x enough =
      admit-Returned fuel inflight e key obj now w x enough
