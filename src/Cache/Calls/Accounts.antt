-- ===== src/Cache/Calls/Accounts.antt =====
-- The shared budget stays exact: after each method it counts what the registered managers hold, and
-- the bytes that others have in flight.
use jaydb.Base.{
  ℕ, ◌+◌, ◌-◌, ◌<◌, ◌≡◌, refl, sym, ap, subst, ◌∙◌, inl, inr, Str, Bool, true, false, arith,
  if◌then◌else◌, ltb, leb, length, pos, Bool-cases,
}
use jaydb.Storage.{Object}
use jaydb.Cache.Budget.{Budget, release}
use jaydb.Cache.Budget.Drain.{is_in, Spares, by_changed, by_others}
use jaydb.Cache.Budget.Loop.{IsAccounted}
use jaydb.Cache.Shard.{Shard, drop_key, store}
use jaydb.Cache.Shard.Places.{sizes}
use jaydb.Cache.Shard.Invariant.{
  IsShard, drop_key-IsShard, drop_key-sizes, store-IsShard, store-sizes,
}
use jaydb.Cache.Manager.{Manager, shard_of, shard_at, shard_count, manager_bytes}
use jaydb.Cache.Manager.Shards.{IsManager, shard_at-IsShard, manager_bytes-set, set-IsManager}
use jaydb.Cache.Pool.{Pool, update, update-IsPool, at_update, evictors}
use jaydb.Cache.Calls.{World, put_shard, give_back, shard_for, invalidate, store_in}
use native.Mathlib.Nat.{mod-lt}

module _ (config : ℕ → Bool) where
  -- The budget counts what its managers hold and `inflight` bytes beside; the manager `e` is
  -- registered exactly if it was given the budget.
  pub record IsExact (inflight e : ℕ) (w : World) : Type 0 where
    pub accounted : IsAccounted (evictors config) inflight w.budget w.pool
    pub registered : is_in e w.budget.evictors ≡ config e

  changed : (e : ℕ) (ms : Pool) (m : Manager) → Spares (evictors config) e ms (update ms e m)
  changed e ms m = record { held_same = λ d n. rw n refl; count_same = λ d n. rw n refl }

  release_pos :
      (b : Budget) (n : ℕ) → ltb 0 n ≡ true → release b (pos n) ≡ record b { used = b.used - n }
  unfolding release
  release_pos b n p = let q : leb n 0 ≡ false = ground arith in rw q refl

  give_back_lem :
      (has : Bool) (n : ℕ) (b : Budget)
      → give_back has n b ≡ record b { used = if has then b.used - n else b.used }
  give_back_lem has n b = elim (Bool-cases has) [
    | inr h ↦ rw h (ground arith)
    | inl h ↦ elim (Bool-cases (ltb 0 n)) [
      | inl p ↦ rw (h, p) (release_pos b n p)
      | inr p ↦
          let z : b.used ≡ b.used - n = ground arith in
          rw (h, p) (ap (λ (u : ℕ). record b { used = u }) z)
    ]
  ]

  pub give_back-evictors :
      (has : Bool) (n : ℕ) (b : Budget) → (give_back has n b).evictors ≡ b.evictors
  give_back-evictors has n b = ap (λ (c : Budget). c.evictors) (give_back_lem has n b)

  -- A manager `m` in the place of `e` that holds `size` bytes more, which were reserved where there
  -- is a budget, and `freed` bytes less, which are given back.
  pub give_back-IsExact :
      (before inflight e size freed : ℕ) (w : World) (m : Manager)
      → IsExact before e w
      → IsManager m
      → m.has_budget ≡ config e
      → before ≡ (if config e then inflight + size else inflight)
      → manager_bytes m.shards + freed ≡ manager_bytes (w.pool e).shards + size
      → IsExact inflight e
          (record { budget = give_back m.has_budget freed w.budget; pool = update w.pool e m })
  give_back-IsExact before inflight e size freed w m x v h r q =
      let a = x.accounted in
      let es = w.budget.evictors in
      let E = evictors config in
      let new = ap (λ (k : Manager). manager_bytes k.shards) (at_update config w.pool e m) in
      let used = λ (t : Bool). if t then w.budget.used - freed else w.budget.used in
      let before_for = λ (t : Bool). if t then inflight + size else inflight in
      subst (λ (b : Budget). IsExact inflight e (record { budget = b; pool = update w.pool e m }))
        (sym (give_back_lem m.has_budget freed w.budget))
        (record {
          registered = x.registered;
          accounted = record {
            good = update-IsPool config e w.pool m a.good v h;
            distinct = a.distinct;
            in_range = a.in_range;
            exact = elim (Bool-cases (config e)) [
              | inl c ↦
                  let k =
                    (by_changed E e es w.pool (update w.pool e m) (changed e w.pool m) a.distinct
                      (x.registered ∙ c)).0 in
                  ap used (h ∙ c) ∙ omega (arith, a.exact, q, r ∙ ap before_for c, k, new)
              | inr c ↦
                  let k =
                    (by_others E e es w.pool (update w.pool e m) (changed e w.pool m)
                      (x.registered ∙ c)).0 in
                  ap used (h ∙ c) ∙ omega (arith, a.exact, k, r ∙ ap before_for c)
            ];
          };
        })

  -- A shard of the manager that holds `size` bytes more and `freed` less.
  pub shard-IsExact :
      (before inflight e size freed i : ℕ) (w : World) (s : Shard)
      → IsExact before e w
      → before ≡ (if config e then inflight + size else inflight)
      → i < shard_count
      → IsShard s
      → sizes s.lru + freed ≡ sizes (shard_at (w.pool e).shards i).lru + size
      → IsExact inflight e (record {
        budget = give_back (w.pool e).has_budget freed w.budget;
        pool = update w.pool e (put_shard i s (w.pool e));
      })
  shard-IsExact before inflight e size freed i w s x r l v q =
      let (m, h) = x.accounted.good e in
      let old = shard_at-IsShard (w.pool e).shards i m.sound in
      let near : i < length (w.pool e).shards = omega (arith, l, m.complete) in
      give_back-IsExact before inflight e size freed w (put_shard i s (w.pool e)) x
        (set-IsManager (w.pool e) i s m v) h r
        (omega (arith, manager_bytes-set (w.pool e).shards i s near, v.exact, old.exact, q))

  pub shard_of-lt : (key : Str) → shard_of key < shard_count
  unfolding shard_of
  shard_of-lt key = mod-lt _ (omega arith)

  -- `Invalidate` keeps the count exact.
  pub invalidate-IsExact :
      (inflight e : ℕ) (key : Str) (w : World)
      → IsExact inflight e w
      → IsExact inflight e (invalidate e key w)
  unfolding invalidate
  invalidate-IsExact inflight e key w x =
      let s = shard_for key (w.pool e) in
      let v = shard_at-IsShard (w.pool e).shards (shard_of key) (x.accounted.good e).0.sound in
      shard-IsExact inflight inflight e 0 _ (shard_of key) w (drop_key key s).1 x (ground arith)
        (shard_of-lt key) (drop_key-IsShard key s v) (omega (arith, drop_key-sizes key s v))

  pub store_in-IsExact :
      (inflight e : ℕ) (key : Str) (obj : Object) (now : ℕ) (w : World)
      → IsExact (if config e then inflight + length obj.value else inflight) e w
      → IsExact inflight e (store_in e key obj now w)
  unfolding store_in
  store_in-IsExact inflight e key obj now w x =
      let s = shard_for key (w.pool e) in
      let n = length obj.value in
      let v = shard_at-IsShard (w.pool e).shards (shard_of key) (x.accounted.good e).0.sound in
      shard-IsExact _ inflight e n _ (shard_of key) w (store key obj n now s).1 x refl
        (shard_of-lt key) (store-IsShard key obj n now s v) (store-sizes key obj n now s v)

  pub invalidate-evictors :
      (e : ℕ) (key : Str) (w : World) → (invalidate e key w).budget.evictors ≡ w.budget.evictors
  unfolding invalidate
  invalidate-evictors e key w = give_back-evictors (w.pool e).has_budget _ w.budget

  pub store_in-evictors :
      (e : ℕ) (key : Str) (obj : Object) (now : ℕ) (w : World)
      → (store_in e key obj now w).budget.evictors ≡ w.budget.evictors
  unfolding store_in
  store_in-evictors e key obj now w = give_back-evictors (w.pool e).has_budget _ w.budget
