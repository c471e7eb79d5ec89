-- ===== src/Cache/Manager.antt =====
-- The `Manager` of pkg/cache/cache.go over one shared budget. `managers` gives each manager of
-- the process by its number; `held` and `count` are what the budget accounts for. A call runs
-- alone: no other goroutine moves the shards between its critical sections, and no fetch of the
-- same key is in flight, so that a miss leads its own fetch. Each reading of the clock is an
-- argument.
pub mod Shards
pub mod Scan
pub mod Evict
pub mod Keys
use jaydb.Base.{
  is_some, lookup, pos, ℕ, zero, suc, ◌+◌, ◌-◌, ◌%◌, ◌^◌, List, [], ◌∷◌, Str, Bytes, Bool, true,
  false, ◌&&◌, ◌||◌, Option, none, some, if◌then◌else◌, ltb, leb, ◌==◌, get_elem?, replicate, set,
  length, ℤ, pos, pos_part, lookup, Result, ok, err,
}
use jaydb.Storage.{Object, Error}
use jaydb.Sharding.Partition.{hash_string}
use jaydb.Cache.Budget.{Budget, Run, done, panicked, stuck, Evictors, reserve, release}
use jaydb.Cache.Shard.{
  Item, Shard, empty_shard, find_pos, find_element, remove_elem, drop_key, touch, store,
  purge_shard,
}

abbrev pub shard_count : ℕ
shard_count = 64

-- 24 hours, in nanoseconds
abbrev pub default_ttl : ℕ
default_ttl = 86400000000000

-- `has_budget` is `m.budget != nil`.
pub record Manager : Type 0 where
  pub shards : List Shard
  pub ttl : ℕ
  pub max_object_size : ℤ
  pub has_budget : Bool
  pub hits : ℕ
  pub misses : ℕ
  pub evictions : ℕ
  pub skipped_large : ℕ
  pub purged : ℕ

-- `atomic.AddUint64`
abbrev pub add_uint64 : ℕ → ℕ → ℕ
add_uint64 a b = (a + b) % 2 ^ 64

-- The freshness window for a configured duration.
abbrev pub ttl_or_default : ℤ → ℕ
ttl_or_default d = if leb (pos_part d) 0 then default_ttl else pos_part d

unfoldable pub new_manager : ℤ → ℤ → Bool → Manager
new_manager ttl max_size has_budget = record {
  shards = replicate shard_count empty_shard;
  ttl = ttl_or_default ttl;
  max_object_size = max_size;
  has_budget = has_budget;
  hits = 0;
  misses = 0;
  evictions = 0;
  skipped_large = 0;
  purged = 0;
}

unfoldable pub set_ttl : ℤ → Manager → Manager
set_ttl d m = record m { ttl = ttl_or_default d }

-- `h.Sum32()&(shardCount-1)`: the mask of a power of two keeps the remainder.
unfoldable pub shard_of : Str → ℕ
shard_of key = hash_string key % shard_count

abbrev pub shard_at : List Shard → ℕ → Shard
shard_at [] i = empty_shard
shard_at (s ∷ ss) zero = s
shard_at (s ∷ ss) (suc i) = shard_at ss i

-- `bestShard`, `bestElem` and `oldestTime` of `EvictOldest`. No item was used at the zero time, so
-- `oldestTime.IsZero()` says that there is no best element yet.
pub record Victim : Type 0 where
  pub shard : ℕ
  pub place : ℕ
  pub item : Item

abbrev pub older : Option Victim → Item → Bool
older none x = true
older (some b) x = ltb x.last_accessed b.item.last_accessed

-- `shard.lru.Back()`, with its place
abbrev pub back_from : ℕ → List Item → Option (ℕ × Item)
back_from i [] = none
back_from i (x ∷ []) = some (i, x)
back_from i (x ∷ y ∷ ys) = back_from (suc i) (y ∷ ys)

-- One round of the scan, at the shard `i`.
unfoldable pub better : ℕ → Shard → Option Victim → Option Victim
better i s best = elim (back_from 0 s.lru) [
  | none ↦ best
  | some (p, x) ↦ if older best x then some (record { shard = i; place = p; item = x }) else best
]

unfoldable pub scan : ℕ → List Shard → Option Victim → Option Victim
scan i [] best = best
scan i (s ∷ ss) best = scan (suc i) ss (better i s best)

-- `el, found := items[key]; found && el == bestElem`
abbrev pub is_same_element : Option (ℕ × Item) → ℕ → Bool
is_same_element none p = false
is_same_element (some (i, _)) p = i == p

-- The attempts of `EvictOldest` that are left; `none` is `ok == false`.
unfoldable pub evict_attempts : ℕ → Manager → Option (ℕ × Manager)
evict_attempts zero m = none
evict_attempts (suc attempts) m = elim (scan 0 m.shards none) [
  | none ↦ none
  | some v ↦
      let s = shard_at m.shards v.shard in
      elim (is_same_element (find_element v.item.key s) v.place) [
        | true ↦
            let (freed, s') = remove_elem v.place v.item s in
            some (
              freed,
              record m { shards = set m.shards v.shard s'; evictions = add_uint64 m.evictions 1 },
            )
        | false ↦ evict_attempts attempts m
      ]
]

unfoldable pub evict_oldest : Manager → Option (ℕ × Manager)
evict_oldest m = evict_attempts 3 m

-- The bytes and the entries of all shards.
abbrev pub manager_bytes : List Shard → ℕ
manager_bytes [] = 0
manager_bytes (s ∷ ss) = s.bytes + manager_bytes ss

abbrev pub manager_items : List Shard → ℕ
manager_items [] = 0
manager_items (s ∷ ss) = length s.items + manager_items ss

unfoldable pub get_cache_size : Manager → ℕ × ℕ
get_cache_size m = (manager_items m.shards, manager_bytes m.shards)

unfoldable pub contains : Str → Manager → Bool
contains key m = is_some (lookup key (shard_at m.shards (shard_of key)).items)

-- `EvictionStats`
unfoldable pub eviction_stats : Manager → ℕ × ℕ × ℕ
eviction_stats m = (m.evictions, m.skipped_large, m.purged)

-- `NewManager`: no TTL, no cap and no budget is given.
abbrev pub new_default_manager : Manager
new_default_manager = new_manager (pos 0) (pos 0) false
