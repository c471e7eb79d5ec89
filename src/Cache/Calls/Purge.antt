-- ===== src/Cache/Calls/Purge.antt =====
-- `Delete` and `PurgeIf` keep the shared budget exact, and a purge drops exactly the keys that
-- satisfy the predicate.
use jaydb.Base.{
  ℕ, zero, suc, ◌+◌, ◌≡◌, refl, ap, subst, ◌∙◌, List, [], ◌∷◌, Str, Bool, false, not, ◌&&◌, arith,
  if◌then◌else◌, All, length, ◌==◌,
}
use jaydb.Storage.{Driver}
use jaydb.Cache.Shard.{Shard, purge_shard}
use jaydb.Cache.Shard.Places.{has_key}
use jaydb.Cache.Shard.Invariant.{IsShard}
use jaydb.Cache.Shard.Purging.{purge_shard-IsShard, purge_shard_lem}
use jaydb.Cache.Manager.{Manager, shard_at, manager_bytes, manager_items, add_uint64}
use jaydb.Cache.Pool.{at_update}
use jaydb.Cache.Calls.{World, purge_shards, purge_if, delete_object}
use jaydb.Cache.Calls.Accounts.{IsExact, give_back-IsExact, give_back-evictors, invalidate-IsExact}

-- What the loop of `PurgeIf` over the shards has done.
record PurgedAll (pred : Str → Bool) (ss : List Shard) (freed dropped : ℕ) (ss' : List Shard)
    : Type 0 where
  sound : All IsShard ss'
  same_length : length ss' ≡ length ss
  bytes_left : manager_bytes ss' + freed ≡ manager_bytes ss
  items_left : manager_items ss' + dropped ≡ manager_items ss
  keys_left :
      (i : ℕ) (k : Str)
      → has_key k (shard_at ss' i).lru ≡ (not (pred k) && has_key k (shard_at ss i).lru)

purge_shards-PurgedAll :
    (pred : Str → Bool) (ss : List Shard)
    → All IsShard ss
    → PurgedAll pred ss (purge_shards pred ss).0 (purge_shards pred ss).1 (purge_shards pred ss).2
unfolding purge_shards
purge_shards-PurgedAll pred [] v = record {
  sound = tt;
  same_length = refl;
  bytes_left = refl;
  items_left = refl;
  keys_left = λ i k. ground arith;
}
purge_shards-PurgedAll pred (s ∷ ss) v =
    let rest = purge_shards-PurgedAll pred ss v.1 in
    let (b, n, k) = purge_shard_lem pred s v.0 in
    let w = purge_shard-IsShard pred s v.0 in
    record {
      sound = (w, rest.sound);
      same_length = ap suc rest.same_length;
      bytes_left = omega (arith, rest.bytes_left, b, w.exact, v.0.exact);
      items_left = omega (arith, rest.items_left, n, w.same_length, v.0.same_length);
      keys_left = λ i key. by_place i key rest k;
    }
  where
    by_place :
        (i : ℕ) (key : Str)
        → PurgedAll pred ss
            (purge_shards pred ss).0
            (purge_shards pred ss).1
            (purge_shards pred ss).2
        → ((key : Str)
            → has_key key (purge_shard pred s).2.lru ≡ (not (pred key) && has_key key s.lru))
        → has_key key (shard_at ((purge_shard pred s).2 ∷ (purge_shards pred ss).2) i).lru
          ≡ (not (pred key) && has_key key (shard_at (s ∷ ss) i).lru)
    by_place zero key r h = h key
    by_place (suc i) key r h = r.keys_left i key

module _ (config : ℕ → Bool) where
  -- What `PurgeIf` promises of the manager `e`.
  pub record Purged (inflight e : ℕ) (pred : Str → Bool) (w : World) (dropped : ℕ) (w' : World)
      : Type 0 where
    pub exact : IsExact config inflight e w'
    pub same_evictors : w'.budget.evictors ≡ w.budget.evictors
    pub counted : manager_items (w'.pool e).shards + dropped ≡ manager_items (w.pool e).shards
    pub keys_left :
        (i : ℕ) (k : Str)
        → has_key k (shard_at (w'.pool e).shards i).lru
          ≡ (not (pred k) && has_key k (shard_at (w.pool e).shards i).lru)
    pub others : (d : ℕ) → (d == e) ≡ false → w'.pool d ≡ w.pool d

  -- `PurgeIf` leaves in each shard of the manager exactly the keys that do not satisfy the
  -- predicate, returns how many entries are gone, touches no other manager, and keeps the budget's
  -- count exact.
  pub purge_if-Purged :
      (inflight e : ℕ) (pred : Str → Bool) (w : World)
      → IsExact config inflight e w
      → Purged inflight e pred w (purge_if e pred w).0 (purge_if e pred w).1
  unfolding purge_if
  purge_if-Purged inflight e pred w x =
      let (v, c) = x.accounted.good e in
      let m = w.pool e in
      let r = purge_shards-PurgedAll pred m.shards v.sound in
      let n = (purge_shards pred m.shards).1 in
      let m' : Manager = record m {
        shards = (purge_shards pred m.shards).2;
        purged = add_uint64 m.purged n;
      } in
      let at = at_update config w.pool e m' in
      record {
        exact =
            give_back-IsExact config (if config e then inflight + 0 else inflight) inflight e 0
              (purge_shards pred m.shards).0 w m'
              (subst (λ k. IsExact config k e w) (ground arith) x)
              (record { sound = r.sound; complete = r.same_length ∙ v.complete }) c refl
              (omega (arith, r.bytes_left));
        same_evictors = give_back-evictors config m.has_budget _ w.budget;
        counted = ap (λ (k : Manager). manager_items k.shards + n) at ∙ r.items_left;
        keys_left =
            λ i k. ap (λ (t : Manager). has_key k (shard_at t.shards i).lru) at ∙ r.keys_left i k;
        others = λ d q. rw q refl;
      }

  -- `Delete` answers what the storage answers, leaves the storage as that left it, and keeps the
  -- budget's count exact, on success and on errors.
  pub delete_object-IsExact :
      {D : Type 0} (driver : Driver D) (inflight e : ℕ) (key etag : Str) (disk : D) (w : World)
      → IsExact config inflight e w
      → ((delete_object config driver e key etag disk w).0 ≡ (driver.delete key etag disk).0)
        × ((delete_object config driver e key etag disk w).1 ≡ (driver.delete key etag disk).1)
        × IsExact config inflight e (delete_object config driver e key etag disk w).2
  unfolding delete_object
  delete_object-IsExact driver inflight e key etag disk w x =
      (refl, refl, invalidate-IsExact config inflight e key w x)
