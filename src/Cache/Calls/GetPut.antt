-- ===== src/Cache/Calls/GetPut.antt =====
-- `Get` and `Put` return, and keep the shared budget exact.
use jaydb.Base.{
  none, Result-cases, ℕ, ◌+◌, ◌<◌, ◌≡◌, refl, sym, ap, ◌∙◌, subst, inl, inr, Str, Bytes, Bool, true,
  Option, some, arith, if◌then◌else◌, length, get_elem?, Result, ok, err, Bool-cases,
}
use jaydb.Storage.{Object, Error, Driver}
use jaydb.Cache.Budget.{Run, done}
use jaydb.Cache.Shard.{Item, Shard, find_element, touch}
use jaydb.Cache.Shard.Invariant.{find_element_lem, touch-IsShard}
use jaydb.Cache.Manager.{Manager, shard_of}
use jaydb.Cache.Manager.Shards.{shard_at-IsShard, manager_bytes-set, set-IsManager}
use jaydb.Cache.Calls.{
  World, invalidate, put_manager, get_object, fetch, put_object, count_miss, is_fresh, count_hit,
  put_shard, shard_for,
}
use jaydb.Cache.Calls.Admit.{HasFuel, counted-IsExact, counted-HasFuel, admit_some-Returned}
use jaydb.Cache.Calls.Accounts.{
  IsExact, give_back-IsExact, invalidate-evictors, invalidate-IsExact, shard_of-lt,
}

-- What a `Get` is to return: the object of the entry while it is fresh, else the storage's answer.
abbrev pub due :
    Manager → ℕ → Option (ℕ × Item) → Result Error (Option Object) → Result Error (Option Object)
due m asked none stored = stored
due m asked (some (i, x)) stored =
    if is_fresh m x.last_accessed asked then ok (some x.object) else stored

module _ (config : ℕ → Bool) where
  touch-bytes : (i : ℕ) (x : Item) (now : ℕ) (s : Shard) → (touch i x now s).bytes ≡ s.bytes
  unfolding touch
  touch-bytes i x now s = refl

  module _ {D : Type 0} (driver : Driver D) where
    open driver use {get, put, delete}

    -- What a `Get` that returns has done.
    pub record Got (inflight e : ℕ) (key : Str) (asked : ℕ) (disk : D) (w : World)
        (c : Run (Result Error (Option Object) × World)) : Type 0 where
      pub result : Result Error (Option Object)
      pub world : World
      pub returns : c ≡ done (result, world)
      pub source :
          result ≡ due (w.pool e) asked (find_element key (shard_for key (w.pool e))) (get key disk)
      pub exact : IsExact config inflight e world
      pub same_evictors : world.budget.evictors ≡ w.budget.evictors

    fetched :
        (fuel inflight e : ℕ) (key : Str) (asked now : ℕ) (disk : D) (w : World)
        → IsExact config inflight e w
        → HasFuel config fuel w
        → ((r : Result Error (Option Object))
            → due (w.pool e) asked (find_element key (shard_for key (w.pool e))) r ≡ r)
        → Got inflight e key asked disk w (fetch config driver fuel e key now disk w)
    unfolding fetch
    fetched fuel inflight e key asked now disk w x enough cold =
        let w' = put_manager e (count_miss (w.pool e)) w in
        let x' = counted-IsExact config inflight e w (count_miss (w.pool e)) x refl refl in
        elim (Result-cases (get key disk)) [
          | inl (o, q) ↦
              let r =
                admit_some-Returned config fuel inflight e key o now w' x'
                  (counted-HasFuel config fuel e w (count_miss (w.pool e)) refl enough) in
              rw (q, fetch, r.returns)
                (record {
                  result = ok o;
                  world = r.world;
                  returns = refl;
                  source = sym (
                      ap (λ r. due (w.pool e) asked (find_element key (shard_for key (w.pool e))) r)
                        q
                      ∙ cold _);
                  exact = r.exact;
                  same_evictors = r.same_evictors;
                })
          | inr (m, q) ↦
              rw (q, fetch)
                (record {
                  result = err m;
                  world = invalidate e key w';
                  returns = refl;
                  source = sym (
                      ap (λ r. due (w.pool e) asked (find_element key (shard_for key (w.pool e))) r)
                        q
                      ∙ cold _);
                  exact = invalidate-IsExact config inflight e key w' x';
                  same_evictors = invalidate-evictors config e key w';
                })
        ]

    hit :
        (inflight e i : ℕ) (x : Item) (key : Str) (asked now : ℕ) (disk : D) (w : World)
        → IsExact config inflight e w
        → find_element key (shard_for key (w.pool e)) ≡ some (i, x)
        → get_elem? (shard_for key (w.pool e)).lru i ≡ some x
        → is_fresh (w.pool e) x.last_accessed asked ≡ true
        → Got inflight e key asked disk w (
            done (
              ok (some x.object),
              put_manager e
                  (count_hit (
                    put_shard (shard_of key) (touch i x now (shard_for key (w.pool e))) (w.pool e)))
                  w,
            ))
    hit inflight e i x key asked now disk w v f g h =
        let (m, c) = v.accounted.good e in
        let s = shard_for key (w.pool e) in
        let k = shard_at-IsShard (w.pool e).shards (shard_of key) m.sound in
        let u =
          set-IsManager (w.pool e) (shard_of key) (touch i x now s) m
            (touch-IsShard i x now s k g) in
        let near : shard_of key < length (w.pool e).shards =
          omega (arith, shard_of-lt config key, m.complete) in
        record {
          result = ok (some x.object);
          world = _;
          returns = refl;
          source = rw (f, h) refl;
          exact =
              give_back-IsExact config (if config e then inflight + 0 else inflight) inflight e 0 0
                w (count_hit (put_shard (shard_of key) (touch i x now s) (w.pool e)))
                (subst (λ n. IsExact config n e w) (ground arith) v)
                (record { sound = u.sound; complete = u.complete }) c refl
                (omega (
                  arith,
                  manager_bytes-set (w.pool e).shards (shard_of key) (touch i x now s) near,
                  touch-bytes i x now s,
                ));
          same_evictors = refl;
        }

    -- If the budget's count is exact and there is fuel for the rounds of `Reserve`, `Get` returns. What
    -- it returns is the object that the cache holds, where its entry is fresh, and else what the storage
    -- returns, errors too. The count is exact afterwards, and the same managers are registered.
    pub get_object-Got :
        (fuel inflight e : ℕ) (key : Str) (asked now : ℕ) (disk : D) (w : World)
        → IsExact config inflight e w
        → HasFuel config fuel w
        → Got inflight e key asked disk w (get_object config driver fuel e key asked now disk w)
    unfolding get_object
    get_object-Got fuel inflight e key asked now disk w x enough =
        let s = shard_for key (w.pool e) in
        let v = shard_at-IsShard (w.pool e).shards (shard_of key) (x.accounted.good e).0.sound in
        elim (find_element_lem key s v) [
          | inl (_, f) ↦
              rw (f, get_object)
                (fetched fuel inflight e key asked now disk w x enough (λ r. rw f refl))
          | inr (i, y, _, f, g, _) ↦ elim (Bool-cases (is_fresh (w.pool e) y.last_accessed asked)) [
            | inl h ↦ rw (f, get_object, h) (hit inflight e i y key asked now disk w x f g h)
            | inr h ↦
                rw (f, get_object, h)
                  (fetched fuel inflight e key asked now disk w x enough (λ r. rw (f, h) refl))
          ]
        ]

    -- What a `Put` that returns has done.
    pub record Wrote (inflight e : ℕ) (disk' : D) (result : Result Error (Option Object))
        (w : World) (c : Run (Result Error (Option Object) × D × World)) : Type 0 where
      pub world : World
      pub returns : c ≡ done (result, disk', world)
      pub exact : IsExact config inflight e world
      pub same_evictors : world.budget.evictors ≡ w.budget.evictors

    -- With fuel for the rounds of `Reserve`, `Put` returns what the storage returns and leaves the
    -- storage as that left it; the budget's count is exact afterwards, on success and on errors.
    pub put_object-Wrote :
        (fuel inflight e : ℕ) (key : Str) (value : Bytes) (etag : Str) (now : ℕ) (disk : D)
        (w : World)
        → IsExact config inflight e w
        → HasFuel config fuel w
        → Wrote inflight e
            (put key value etag disk).1
            (put key value etag disk).0
            w
            (put_object config driver fuel e key value etag now disk w)
    unfolding put_object
    put_object-Wrote fuel inflight e key value etag now disk w x enough =
        elim (Result-cases (put key value etag disk).0) [
          | inl (o, q) ↦
              let r = admit_some-Returned config fuel inflight e key o now w x enough in
              rw (q, put_object, r.returns)
                (record {
                  world = r.world;
                  returns = refl;
                  exact = r.exact;
                  same_evictors = r.same_evictors;
                })
          | inr (m, q) ↦
              rw (q, put_object)
                (record {
                  world = invalidate e key w;
                  returns = refl;
                  exact = invalidate-IsExact config inflight e key w x;
                  same_evictors = invalidate-evictors config e key w;
                })
        ]
