-- ===== src/Cache/Calls/Tests.antt =====
-- Tests and witnesses for the calls of a manager: manager 0 has a budget of four bytes.
use jaydb.Base.{
  All, ◌⊎◌, str_eq, ℕ, ◌≡◌, refl, [], ◌∷◌, Str, Bytes, Bool, Option, none, some, arith, ◌==◌,
  if◌then◌else◌, lookup, insert, erase, pos, codes, Result, ok, err,
}
use jaydb.Storage.{Object, Error, Driver, not_found}
use jaydb.Sharding.Partition.{hash_string}
use jaydb.Cache.Budget.{Run, done, panicked, stuck, reserve, reserve_loop, release}
use jaydb.Cache.Shard.Invariant.{empty_shard-IsShard, store-IsShard}
use jaydb.Cache.Manager.Evict.{Evicted, evict_oldest_lem}
use jaydb.Cache.Shard.{
  Shard, empty_shard, store, touch, drop_key, remove_elem, find_element, find_pos, purge_shard,
  purge_list,
}
use jaydb.Cache.Manager.{Manager, new_manager, shard_of, evict_oldest, evict_attempts, scan, better}
use jaydb.Cache.Manager.Shards.{set-IsManager, new_manager-IsManager}
use jaydb.Cache.Calls.{
  World, put_shard, get_object, fetch, admit, store_in, invalidate, purge_shards, put_object,
  purge_if,
}
use jaydb.Cache.Calls.Accounts.{IsExact}
use jaydb.Cache.Calls.Admit.{HasFuel}
use jaydb.Cache.Calls.GetPut.{Got, Wrote, get_object-Got, put_object-Wrote}
use jaydb.Cache.Calls.Purge.{Purged, purge_if-Purged}

abbrev pub config : ℕ → Bool
config e = e == 0

abbrev pub key_a : Str
key_a = codes "a"

abbrev pub object_of : Str → Bytes → Object
object_of key value = record {
  key = key;
  value = value;
  etag = codes "e";
  mod_time = 7;
  metadata = [];
}

-- A storage that holds one object at most.
abbrev pub Slot : Type 0
Slot = Option Object

abbrev slot_get : Str → Slot → Result Error (Option Object)
slot_get key none = err not_found
slot_get key (some o) = if str_eq o.key key then ok (some o) else err not_found

abbrev pub slot : Driver Slot
slot = record {
  get = slot_get;
  put = λ key value etag disk. (ok (some (object_of key value)), some (object_of key value));
  delete = λ key etag disk. (none, none);
}

abbrev pub start : World
start = record {
  budget = record { limit = pos 4; used = 0; evictors = 0 ∷ []; cursor = 0 };
  pool = λ e. new_manager (pos 0) (pos 0) (config e);
}

abbrev one_item : Shard
one_item = (store key_a (object_of key_a (1 ∷ 2 ∷ [])) 2 9 empty_shard).1

unfoldable pub program : Unit {0}
unfolding new_manager put_object get_object fetch admit store_in invalidate purge_if purge_shards
    shard_of hash_string reserve reserve_loop release store touch drop_key remove_elem find_element
    find_pos purge_shard purge_list evict_oldest evict_attempts scan better lookup insert erase
program = tt

evict_oldest_lem_example :
    ((evict_oldest (put_shard 5 one_item (start.pool 0)) ≡ none)
      × All (λ (s : Shard). s.lru ≡ []) (put_shard 5 one_item (start.pool 0)).shards)
    ⊎ ((freed : ℕ) × (m' : Manager) × (evict_oldest (put_shard 5 one_item (start.pool 0))
          ≡ some (freed, m'))
        × Evicted (put_shard 5 one_item (start.pool 0)) freed m')
evict_oldest_lem_example = evict_oldest_lem (put_shard 5 one_item (start.pool 0)) (
    set-IsManager (start.pool 0) 5 one_item (new_manager-IsManager (pos 0) (pos 0) (config 0))
      (store-IsShard key_a (object_of key_a (1 ∷ 2 ∷ [])) 2 9 empty_shard empty_shard-IsShard))

pub start-IsExact : IsExact config 0 0 start
unfolding program
start-IsExact = record {
  accounted = record {
    good = λ e. (new_manager-IsManager (pos 0) (pos 0) (config e), refl);
    exact = refl;
    distinct = (refl, tt);
    in_range = λ h. omega arith;
  };
  registered = refl;
}

pub start-HasFuel : HasFuel config 2 start
unfolding program
start-HasFuel = omega arith

put_object-Wrote_example :
    Wrote config slot 0 0
      (some (object_of key_a (1 ∷ 2 ∷ 3 ∷ [])))
      (ok (some (object_of key_a (1 ∷ 2 ∷ 3 ∷ []))))
      start
      (put_object config slot 2 0 key_a (1 ∷ 2 ∷ 3 ∷ []) [] 9 none start)
put_object-Wrote_example =
    put_object-Wrote config slot 2 0 0 key_a (1 ∷ 2 ∷ 3 ∷ []) [] 9 none start start-IsExact
      start-HasFuel

get_object-Got_example :
    Got config slot 0 0 key_a 9
      (some (object_of key_a (1 ∷ 2 ∷ [])))
      start
      (get_object config slot 2 0 key_a 9 10 (some (object_of key_a (1 ∷ 2 ∷ []))) start)
get_object-Got_example =
    get_object-Got config slot 2 0 0 key_a 9 10 (some (object_of key_a (1 ∷ 2 ∷ []))) start
      start-IsExact start-HasFuel

-- The world after the object was stored, of three bytes.
abbrev pub full :
    Wrote config slot 0 0
      (some (object_of key_a (1 ∷ 2 ∷ 3 ∷ [])))
      (ok (some (object_of key_a (1 ∷ 2 ∷ 3 ∷ []))))
      start
      (put_object config slot 2 0 key_a (1 ∷ 2 ∷ 3 ∷ []) [] 9 none start)
full =
    put_object-Wrote config slot 2 0 0 key_a (1 ∷ 2 ∷ 3 ∷ []) [] 9 none start start-IsExact
      start-HasFuel

abbrev is_a : Str → Bool
is_a k = str_eq k key_a

purge_if-Purged_example :
    Purged config 0 0 is_a full.world (purge_if 0 is_a full.world).0 (purge_if 0 is_a full.world).1
purge_if-Purged_example = purge_if-Purged config 0 0 is_a full.world full.exact

abbrev hits_of : Run (Result Error (Option Object) × World) → Run (ℕ × ℕ × ℕ)
hits_of (done (r, w)) = done ((w.pool 0).hits, (w.pool 0).misses, w.budget.used)
hits_of panicked = panicked
hits_of stuck = stuck

abbrev again : Run (Result Error (Option Object) × Slot × World) → Run (ℕ × ℕ × ℕ)
again (done (r, disk, w)) = hits_of (get_object config slot 2 0 key_a 9 10 disk w)
again panicked = panicked
again stuck = stuck

-- What was put is a hit.
hit_after_put :
    again (put_object config slot 2 0 key_a (1 ∷ 2 ∷ 3 ∷ []) [] 9 none start) ≡ done (1, 0, 3)
unfolding program str_eq
hit_after_put = refl
