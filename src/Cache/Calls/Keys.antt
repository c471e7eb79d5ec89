-- ===== src/Cache/Calls/Keys.antt =====
-- Which keys the managers hold: evictions and invalidations add none, and the calls on a key add no
-- other than that key.
use jaydb.Base.{
  Result-cases, ℕ, zero, suc, ◌+◌, ◌-◌, ◌≡◌, subst, inl, inr, Str, Bytes, Bool, true, false, ◌&&◌,
  ◌||◌, not, Option, some, none, arith, ltb, ◌==◌, length, get_elem?, pos, Result, ok, Option-cases,
  Bool-cases,
}
use jaydb.Storage.{Object, Error, Driver}
use jaydb.Cache.Budget.{
  Budget, Run, done, panicked, stuck, reserve, reserve_loop, fits, is_unbounded,
}
use jaydb.Cache.Shard.{find_element}
use jaydb.Cache.Shard.Keys.{drop_key-KeysIn, touch-KeysIn, store-KeysIn}
use jaydb.Cache.Manager.{Manager, shard_of, evict_oldest}
use jaydb.Cache.Manager.Keys.{ManagerIn, EvictedIn, evict_oldest-EvictedIn, set-ManagerIn}
use jaydb.Cache.Pool.{Pool, update, evict_from, evictors}
use jaydb.Cache.Calls.{
  World, put_manager, shard_for, invalidate, store_in, admit, admit_some, after_reserve, skip_large,
  is_too_large, fetch, get_object, put_object, is_fresh, count_miss, answer,
}

-- What a run returns, if it returns.
abbrev pub Ends : {A : Type 0} → (A → Type 0) → Run A → Type 0
Ends Q stuck = Unit {0}
Ends Q panicked = Unit {0}
Ends Q (done a) = Q a

module _ (P : Str → Bool) where
  -- The manager `d` of a pool.
  abbrev pub PoolIn : ℕ → Pool → Type 0
  PoolIn d ms = ManagerIn P (ms d)

  update-PoolIn :
      (d e : ℕ) (ms : Pool) (m : Manager)
      → PoolIn d ms
      → (ManagerIn P (ms e) → ManagerIn P m)
      → PoolIn d (update ms e m)
  update-PoolIn d e ms m h k = elim (Bool-cases (d == e)) [
    | inl q ↦
        let t : d ≡ e = ground (arith, q) in rw q (k (subst (λ (z : ℕ). ManagerIn P (ms z)) t h))
    | inr q ↦ rw q h
  ]

  abbrev EvictedPool : ℕ → Option (ℕ × Pool) → Type 0
  EvictedPool d none = Unit {0}
  EvictedPool d (some (freed, ms)) = PoolIn d ms

  evict_from-EvictedPool : (d e : ℕ) (ms : Pool) → PoolIn d ms → EvictedPool d (evict_from e ms)
  evict_from-EvictedPool d e ms h = elim (Option-cases (evict_oldest (ms e))) [
    | inl q ↦ rw q tt
    | inr ((freed, m), q) ↦
        rw q (
          update-PoolIn d e ms m h (λ g. subst (EvictedIn P) q (evict_oldest-EvictedIn P (ms e) g)))
  ]

  abbrev pub WorldIn : ℕ → World → Type 0
  WorldIn d w = PoolIn d w.pool

  pub invalidate-WorldIn :
      (d e : ℕ) (key : Str) (w : World) → WorldIn d w → WorldIn d (invalidate e key w)
  unfolding invalidate
  invalidate-WorldIn d e key w h = update-PoolIn d e w.pool _ h (
      set-ManagerIn P (w.pool e) (shard_of key) _
        (drop_key-KeysIn P key (shard_for key (w.pool e))))

  store_in-WorldIn :
      (d e : ℕ) (key : Str) (obj : Object) (now : ℕ) (w : World)
      → P key ≡ true
      → WorldIn d w
      → WorldIn d (store_in e key obj now w)
  unfolding store_in
  store_in-WorldIn d e key obj now w p h = update-PoolIn d e w.pool _ h (
      set-ManagerIn P (w.pool e) (shard_of key) _
        (store-KeysIn P key obj (length obj.value) now (shard_for key (w.pool e)) p))

  after_reserve-WorldIn :
      (d e : ℕ) (key : Str) (obj : Object) (now : ℕ) (r : Run (Bool × Budget × Pool))
      → P key ≡ true
      → Ends (λ (r : Bool × Budget × Pool). PoolIn d r.2) r
      → Ends (WorldIn d) (after_reserve e key obj now r)
  after_reserve-WorldIn d e key obj now stuck p h = tt
  after_reserve-WorldIn d e key obj now panicked p h = tt
  after_reserve-WorldIn d e key obj now (done (true, b, ms)) p h =
      store_in-WorldIn d e key obj now (record { budget = b; pool = ms }) p h
  after_reserve-WorldIn d e key obj now (done (false, b, ms)) p h =
      invalidate-WorldIn d e key (record { budget = b; pool = ms }) h

  module _ (config : ℕ → Bool) where
    reserve_loop-PoolIn :
        (d fuel n refused : ℕ) (b : Budget) (ms : Pool)
        → PoolIn d ms
        → Ends
            (λ (r : Bool × Budget × Pool). PoolIn d r.2)
            (reserve_loop (evictors config) fuel n refused b ms)
    unfolding reserve_loop
    reserve_loop-PoolIn d zero n refused b ms h = tt
    reserve_loop-PoolIn d (suc fuel) n refused b ms h =
        elim (Bool-cases (ltb 0 (length b.evictors) && ltb refused (length b.evictors))) [
          | inr c ↦ rw (reserve_loop, c) h
          | inl c ↦ elim (Option-cases (get_elem? b.evictors b.cursor)) [
            | inl g ↦ rw (reserve_loop, c, g) tt
            | inr (e, g) ↦ elim (Option-cases (evict_from e ms)) [
              | inl q ↦
                  rw (reserve_loop, c, g, q) (reserve_loop-PoolIn d fuel n (refused + 1) _ ms h)
              | inr ((freed, ms'), q) ↦
                  let h' = subst (EvictedPool d) q (evict_from-EvictedPool d e ms h) in
                  elim (Bool-cases (fits (b.used - freed + n) b.limit)) [
                    | inl f ↦ rw (reserve_loop, c, g, q, f) h'
                    | inr f ↦
                        rw (reserve_loop, c, g, q, f) (reserve_loop-PoolIn d fuel n 0 _ ms' h')
                  ]
            ]
          ]
        ]

    reserve-PoolIn :
        (d fuel : ℕ) (b : Budget) (ms : Pool) (n : ℕ)
        → PoolIn d ms
        → Ends
            (λ (r : Bool × Budget × Pool). PoolIn d r.2)
            (reserve (evictors config) fuel b ms (pos n))
    unfolding reserve
    reserve-PoolIn d fuel b ms n h =
        elim (Bool-cases (is_unbounded b.limit || fits (b.used + n) b.limit)) [
          | inl c ↦ rw (reserve, c) h
          | inr c ↦ elim (Bool-cases (not (fits n b.limit))) [
            | inl f ↦ rw (reserve, c, f) h
            | inr f ↦ rw (reserve, c, f) (reserve_loop-PoolIn d fuel n 0 b ms h)
          ]
        ]

    admit-WorldIn :
        (d fuel e : ℕ) (key : Str) (obj : Object) (now : ℕ) (w : World)
        → P key ≡ true
        → WorldIn d w
        → Ends (WorldIn d) (admit config fuel e key obj now w)
    unfolding admit
    admit-WorldIn d fuel e key obj now w p h =
        elim (Bool-cases (is_too_large (w.pool e) (length obj.value))) [
          | inl c ↦
              rw (admit, c)
                (invalidate-WorldIn d e key (put_manager e (skip_large (w.pool e)) w)
                  (update-PoolIn d e w.pool (skip_large (w.pool e)) h (λ g. g)))
          | inr c ↦ elim (Bool-cases (w.pool e).has_budget) [
            | inl b ↦
                rw (admit, c, b)
                  (after_reserve-WorldIn d e key obj now _ p
                    (reserve-PoolIn d fuel w.budget w.pool (length obj.value) h))
            | inr b ↦ rw (admit, c, b) (store_in-WorldIn d e key obj now w p h)
          ]
        ]

    admit_some-WorldIn :
        (d fuel e : ℕ) (key : Str) (o : Option Object) (now : ℕ) (w : World)
        → P key ≡ true
        → WorldIn d w
        → Ends (WorldIn d) (admit_some config fuel e key o now w)
    admit_some-WorldIn d fuel e key none now w p h = h
    admit_some-WorldIn d fuel e key (some obj) now w p h = admit-WorldIn d fuel e key obj now w p h

    answer-WorldIn :
        (d : ℕ) (r : Result Error (Option Object)) (c : Run World)
        → Ends (WorldIn d) c
        → Ends (λ (x : Result Error (Option Object) × World). WorldIn d x.1) (answer r c)
    answer-WorldIn d r stuck h = tt
    answer-WorldIn d r panicked h = tt
    answer-WorldIn d r (done w) h = h

    module _ {D : Type 0} (driver : Driver D) where
      fetch-WorldIn :
          (d fuel e : ℕ) (key : Str) (now : ℕ) (disk : D) (w : World)
          → P key ≡ true
          → WorldIn d w
          → Ends
              (λ (x : Result Error (Option Object) × World). WorldIn d x.1)
              (fetch config driver fuel e key now disk w)
      unfolding fetch
      fetch-WorldIn d fuel e key now disk w p h =
          let w' = put_manager e (count_miss (w.pool e)) w in
          let h' : WorldIn d w' = update-PoolIn d e w.pool (count_miss (w.pool e)) h (λ g. g) in
          elim (Result-cases (driver.get key disk)) [
            | inl (o, q) ↦
                rw (fetch, q)
                  (answer-WorldIn d (ok o) (admit_some config fuel e key o now w')
                    (admit_some-WorldIn d fuel e key o now w' p h'))
            | inr (x, q) ↦ rw (fetch, q) (invalidate-WorldIn d e key w' h')
          ]

      -- A read adds at most its own key to what the managers hold.
      pub get_object-WorldIn :
          (d fuel e : ℕ) (key : Str) (asked now : ℕ) (disk : D) (w : World)
          → P key ≡ true
          → WorldIn d w
          → Ends
              (λ (x : Result Error (Option Object) × World). WorldIn d x.1)
              (get_object config driver fuel e key asked now disk w)
      unfolding get_object
      get_object-WorldIn d fuel e key asked now disk w p h =
          elim (Option-cases (find_element key (shard_for key (w.pool e)))) [
            | inl q ↦ rw (get_object, q) (fetch-WorldIn d fuel e key now disk w p h)
            | inr ((i, x), q) ↦ elim (Bool-cases (is_fresh (w.pool e) x.last_accessed asked)) [
              | inr f ↦ rw (get_object, q, f) (fetch-WorldIn d fuel e key now disk w p h)
              | inl f ↦
                  rw (get_object, q, f)
                    (update-PoolIn d e w.pool _ h (
                      set-ManagerIn P (w.pool e) (shard_of key) _
                        (touch-KeysIn P key i x now (shard_for key (w.pool e)) q)))
            ]
          ]

      -- So does a write.
      pub put_object-WorldIn :
          (d fuel e : ℕ) (key : Str) (value : Bytes) (etag : Str) (now : ℕ) (disk : D) (w : World)
          → P key ≡ true
          → WorldIn d w
          → Ends
              (λ (x : Result Error (Option Object) × D × World). WorldIn d x.2)
              (put_object config driver fuel e key value etag now disk w)
      unfolding put_object
      put_object-WorldIn d fuel e key value etag now disk w p h =
          elim (Result-cases (driver.put key value etag disk).0) [
            | inr (x, q) ↦ rw (put_object, q) (invalidate-WorldIn d e key w h)
            | inl (o, q) ↦
                rw (put_object, q)
                  (put_end d o (driver.put key value etag disk).1
                    (admit_some config fuel e key o now w)
                    (admit_some-WorldIn d fuel e key o now w p h))
          ]
        where
          put_end :
              (d : ℕ) (o : Option Object) (disk' : D) (c : Run World)
              → Ends (WorldIn d) c
              → Ends
                  (λ (x : Result Error (Option Object) × D × World). WorldIn d x.2)
                  (elim c [
                    | stuck ↦ stuck
                    | panicked ↦ panicked
                    | done w' ↦ done (ok o, disk', w')
                  ])
          put_end d o disk' stuck h = tt
          put_end d o disk' panicked h = tt
          put_end d o disk' (done w') h = h
