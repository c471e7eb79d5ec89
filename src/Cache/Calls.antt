-- ===== src/Cache/Calls.antt =====
-- The methods of the `Manager` of pkg/cache/cache.go that move bytes in or out, over the managers
-- of the process and their shared budget. A call runs alone: no other goroutine moves the shards
-- between its critical sections, and no fetch of the same key is in flight, so that a miss leads
-- its own fetch. Each reading of the clock is an argument.
pub mod Accounts
pub mod Admit
pub mod GetPut
pub mod Purge
pub mod Keys
pub mod Tests
use jaydb.Base.{
  ℕ, zero, suc, ◌+◌, ◌-◌, List, [], ◌∷◌, Str, Bytes, Bool, true, false, ◌&&◌, ◌||◌, Option, none,
  some, if◌then◌else◌, ltb, leb, length, set, pos, pos_part, Result, ok, err,
}
use jaydb.Storage.{Object, Error, Driver}
use jaydb.Cache.Budget.{Budget, Run, done, panicked, stuck, reserve, release, unregister}
use jaydb.Cache.Shard.{Shard, find_element, drop_key, touch, store, purge_shard}
use jaydb.Cache.Manager.{Manager, shard_of, shard_at, add_uint64}
use jaydb.Cache.Pool.{Pool, update, evictors}

pub record World : Type 0 where
  pub budget : Budget
  pub pool : Pool

-- One shard of a manager in the place of another.
abbrev pub put_shard : ℕ → Shard → Manager → Manager
put_shard i s m = record m { shards = set m.shards i s }

abbrev pub put_manager : ℕ → Manager → World → World
put_manager e m w = record w { pool = update w.pool e m }

-- `if n > 0 && m.budget != nil { m.budget.Release(n) }`
abbrev pub give_back : Bool → ℕ → Budget → Budget
give_back has_budget n b = if ltb 0 n && has_budget then release b (pos n) else b

-- `shardFor`
abbrev pub shard_for : Str → Manager → Shard
shard_for key m = shard_at m.shards (shard_of key)

unfoldable pub invalidate : ℕ → Str → World → World
invalidate e key w =
    let m = w.pool e in
    let (freed, s) = drop_key key (shard_for key m) in
    record {
      budget = give_back m.has_budget freed w.budget;
      pool = update w.pool e (put_shard (shard_of key) s m);
    }

-- The end of `admit`, after the bytes are reserved.
unfoldable pub store_in : ℕ → Str → Object → ℕ → World → World
store_in e key obj now w =
    let m = w.pool e in
    let (replaced, s) = store key obj (length obj.value) now (shard_for key m) in
    record {
      budget = give_back m.has_budget replaced w.budget;
      pool = update w.pool e (put_shard (shard_of key) s m);
    }

abbrev pub skip_large : Manager → Manager
skip_large m = record m { skipped_large = add_uint64 m.skipped_large 1 }

-- `m.maxObjectSize > 0 && size > m.maxObjectSize`
abbrev pub is_too_large : Manager → ℕ → Bool
is_too_large m size = leb 1 (pos_part m.max_object_size) && ltb (pos_part m.max_object_size) size

-- What follows the call of `Reserve`: the object is stored, or its key dropped.
abbrev pub after_reserve : ℕ → Str → Object → ℕ → Run (Bool × Budget × Pool) → Run World
after_reserve e key obj now stuck = stuck
after_reserve e key obj now panicked = panicked
after_reserve e key obj now (done (got, b, ms)) =
    let w : World = record { budget = b; pool = ms } in
    done (if got then store_in e key obj now w else invalidate e key w)

-- Every registered manager is a pool's, so the rounds of `Reserve` run on the pool.
module _ (config : ℕ → Bool) where
  -- `admit` of an object that is there; a nil object is left alone by the callers below.
  unfoldable pub admit : ℕ → ℕ → Str → Object → ℕ → World → Run World
  admit fuel e key obj now w =
      let m = w.pool e in
      let size = length obj.value in
      if is_too_large m size
      then done (invalidate e key (put_manager e (skip_large m) w))
      else if m.has_budget
      then after_reserve e key obj now (reserve (evictors config) fuel w.budget w.pool (pos size))
      else done (store_in e key obj now w)

  abbrev pub admit_some : ℕ → ℕ → Str → Option Object → ℕ → World → Run World
  admit_some fuel e key none now w = done w
  admit_some fuel e key (some obj) now w = admit fuel e key obj now w

  -- `Close`
  unfoldable pub close : ℕ → ℕ → World → Run World
  close fuel e w =
      if (w.pool e).has_budget
      then elim (unregister (evictors config) fuel w.budget w.pool (some e)) [
        | stuck ↦ stuck
        | panicked ↦ panicked
        | done (b, ms) ↦ done (record { budget = b; pool = ms })
      ]
      else done w

-- `ttl <= 0 || time.Since(item.LastAccessed) < ttl`
abbrev pub is_fresh : Manager → ℕ → ℕ → Bool
is_fresh m last now = leb m.ttl 0 || ltb (now - last) m.ttl

abbrev pub count_hit : Manager → Manager
count_hit m = record m { hits = add_uint64 m.hits 1 }

abbrev pub count_miss : Manager → Manager
count_miss m = record m { misses = add_uint64 m.misses 1 }

abbrev pub answer : {A : Type 0} → A → Run World → Run (A × World)
answer r stuck = stuck
answer r panicked = panicked
answer r (done w) = done (r, w)

module _ (config : ℕ → Bool) {D : Type 0} (driver : Driver D) where
  open driver use {get, put, delete}

  -- The cold path of `Get`, as the leader of the fetch.
  unfoldable pub fetch : ℕ → ℕ → Str → ℕ → D → World → Run (Result Error (Option Object) × World)
  fetch fuel e key now disk w =
      let w' = put_manager e (count_miss (w.pool e)) w in
      elim (get key disk) [
        | err x ↦ done (err x, invalidate e key w')
        | ok o ↦ answer (ok o) (admit_some config fuel e key o now w')
      ]

  -- `Get`, with the time when the lookup asks for the age and the time when the item is stamped.
  unfoldable pub get_object :
      ℕ → ℕ → Str → ℕ → ℕ → D → World → Run (Result Error (Option Object) × World)
  get_object fuel e key asked now disk w =
      let m = w.pool e in
      let s = shard_for key m in
      elim (find_element key s) [
        | none ↦ fetch fuel e key now disk w
        | some (i, x) ↦ elim (is_fresh m x.last_accessed asked) [
          | false ↦ fetch fuel e key now disk w
          | true ↦ done (
            ok (some x.object),
            put_manager e (count_hit (put_shard (shard_of key) (touch i x now s) m)) w,
          )
        ]
      ]

  unfoldable pub put_object :
      ℕ → ℕ → Str → Bytes → Str → ℕ → D → World → Run (Result Error (Option Object) × D × World)
  put_object fuel e key value expected_etag now disk w =
      let (r, disk') = put key value expected_etag disk in
      elim r [
        | err x ↦ done (err x, disk', invalidate e key w)
        | ok o ↦ elim (admit_some config fuel e key o now w) [
          | stuck ↦ stuck
          | panicked ↦ panicked
          | done w' ↦ done (ok o, disk', w')
        ]
      ]

  unfoldable pub delete_object : ℕ → Str → Str → D → World → Option Error × D × World
  delete_object e key expected_etag disk w =
      let (r, disk') = delete key expected_etag disk in (r, disk', invalidate e key w)

-- The loop of `PurgeIf`: the bytes freed, the entries dropped, and the shards after.
unfoldable pub purge_shards : (Str → Bool) → List Shard → ℕ × ℕ × List Shard
purge_shards pred [] = (0, 0, [])
purge_shards pred (s ∷ ss) =
    let (freed, dropped, s') = purge_shard pred s in
    let (freeds, droppeds, ss') = purge_shards pred ss in
    (freed + freeds, dropped + droppeds, s' ∷ ss')

-- `PurgeIf`, with a predicate that is not nil.
unfoldable pub purge_if : ℕ → (Str → Bool) → World → ℕ × World
purge_if e pred w =
    let m = w.pool e in
    let (freed, dropped, ss) = purge_shards pred m.shards in
    (
      dropped,
      record {
        budget = give_back m.has_budget freed w.budget;
        pool = update w.pool e (record m { shards = ss; purged = add_uint64 m.purged dropped });
      },
    )
