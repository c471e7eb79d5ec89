-- ===== src/Cache/Manager/Shards.antt =====
-- Lemmas on the array of shards of a manager: its sums, and one shard in the place of another.
use jaydb.Base.{
  replicate, Bool, ℤ, ℕ, zero, suc, ◌+◌, ◌<◌, ◌≡◌, refl, List, [], ◌∷◌, arith, All, set, length,
  length-set, All-set,
}
use jaydb.Cache.Shard.{Shard, empty_shard}
use jaydb.Cache.Shard.Invariant.{IsShard, empty_shard-IsShard}
use jaydb.Cache.Manager.{Manager, new_manager, shard_count, shard_at, manager_bytes, manager_items}

-- Each shard's map, list and count agree, and there are as many shards as the mask reaches.
pub record IsManager (m : Manager) : Type 0 where
  pub sound : All IsShard m.shards
  pub complete : length m.shards ≡ shard_count

pub shard_at-IsShard : (ss : List Shard) (i : ℕ) → All IsShard ss → IsShard (shard_at ss i)
shard_at-IsShard [] i h = empty_shard-IsShard
shard_at-IsShard (s ∷ ss) zero h = h.0
shard_at-IsShard (s ∷ ss) (suc i) h = shard_at-IsShard ss i h.1

pub manager_bytes-set :
    (ss : List Shard) (i : ℕ) (s : Shard)
    → i < length ss
    → manager_bytes (set ss i s) + (shard_at ss i).bytes ≡ manager_bytes ss + s.bytes
manager_bytes-set [] i s h = absurd (omega arith)
manager_bytes-set (t ∷ ss) zero s h = omega arith
manager_bytes-set (t ∷ ss) (suc i) s h = omega (arith, manager_bytes-set ss i s (omega arith))

pub manager_items-set :
    (ss : List Shard) (i : ℕ) (s : Shard)
    → i < length ss
    → manager_items (set ss i s) + length (shard_at ss i).items ≡ manager_items ss + length s.items
manager_items-set [] i s h = absurd (omega arith)
manager_items-set (t ∷ ss) zero s h = omega arith
manager_items-set (t ∷ ss) (suc i) s h = omega (arith, manager_items-set ss i s (omega arith))

pub shard_at-set :
    (ss : List Shard) (i : ℕ) (s : Shard) → i < length ss → shard_at (set ss i s) i ≡ s
shard_at-set [] i s h = absurd (omega arith)
shard_at-set (t ∷ ss) zero s h = refl
shard_at-set (t ∷ ss) (suc i) s h = shard_at-set ss i s (omega arith)

pub set-IsManager :
    (m : Manager) (i : ℕ) (s : Shard)
    → IsManager m
    → IsShard s
    → IsManager (record m { shards = set m.shards i s })
set-IsManager m i s v w = record {
  sound = All-set IsShard m.shards i s v.sound w;
  complete = ground (arith, length-set m.shards i s, v.complete);
}

replicate-IsShard : (n : ℕ) → All IsShard (replicate n empty_shard)
replicate-IsShard zero = tt
replicate-IsShard (suc n) = (empty_shard-IsShard, replicate-IsShard n)

-- A new manager is sound.
pub new_manager-IsManager :
    (ttl max_size : ℤ) (has_budget : Bool) → IsManager (new_manager ttl max_size has_budget)
unfolding new_manager
new_manager-IsManager ttl max_size has_budget = record {
  sound = replicate-IsShard shard_count;
  complete = refl;
}
