-- ===== src/Metrics.antt =====
-- pkg/metrics/metrics.go: the collector that turns the totals of a cache into the counters and gauges
-- of Prometheus, and the records of operations. The metrics of the package are a value of `Series`;
-- a counter of Prometheus is a float64, which is exact up to 2^53. What the collector is wired to
-- are functions of a state `R`, which may be missing.
pub mod Totals
mod Tests
use jaydb.Base.{
  ℕ, zero, ◌+◌, ◌-◌, Bool, true, false, Option, none, some, if◌then◌else◌, ltb, List, [], ◌∷◌, ℤ,
}

-- The totals of `Stats` and of `EvictionStats`
pub record Stats : Type 0 where
  pub hits : ℕ
  pub misses : ℕ
  pub sf_hits : ℕ

pub record EvictionStats : Type 0 where
  pub evictions : ℕ
  pub skipped_large : ℕ
  pub purged : ℕ

-- `Collector`
pub record Collector (R : Type 0) : Type 0 where
  pub get_stats : Option (R → Stats)
  pub get_size : Option (R → ℕ × ℤ)
  pub get_eviction_stats : Option (R → EvictionStats)
  pub get_budget : Option (R → ℤ × ℤ)
  pub running : Bool
  pub last : Stats
  pub last_evictions : EvictionStats

-- The metrics of the cache: six counters and four gauges.
pub record Series : Type 0 where
  pub cache_hits : ℕ
  pub cache_misses : ℕ
  pub cache_singleflight_hits : ℕ
  pub cache_evictions : ℕ
  pub cache_skipped_large : ℕ
  pub cache_purged_ownership : ℕ
  pub cache_items : ℕ
  pub cache_size : ℤ
  pub cache_budget_used : ℤ
  pub cache_budget_limit : ℤ

-- What `delta` returns for the last value and the current one; it keeps the current one.
abbrev pub delta : ℕ → ℕ → ℕ
delta last current = if ltb current last then 0 else current - last

module _ {R : Type 0} where
  abbrev pub new_collector : Option (R → Stats) → Option (R → ℕ × ℤ) → Collector R
  new_collector get_stats get_size = record {
    get_stats = get_stats;
    get_size = get_size;
    get_eviction_stats = none;
    get_budget = none;
    running = false;
    last = record { hits = 0; misses = 0; sf_hits = 0 };
    last_evictions = record { evictions = 0; skipped_large = 0; purged = 0 };
  }

  abbrev pub with_eviction_stats : Option (R → EvictionStats) → Collector R → Collector R
  with_eviction_stats f c = record c { get_eviction_stats = f }

  -- `WithBudget`, of a budget with the functions `Used` and `Limit`
  abbrev pub with_budget : Option (R → ℤ × ℤ) → Collector R → Collector R
  with_budget none c = c
  with_budget (some b) c = record c { get_budget = some b }

  -- `Start`, `Stop`
  abbrev pub start : Collector R → Collector R
  start c = if c.running then c else record c { running = true }

  abbrev pub stop : Collector R → Collector R
  stop c = record c { running = false }

  -- The four parts of `UpdateCacheMetrics`
  unfoldable pub sync_stats : R → Collector R × Series → Collector R × Series
  sync_stats r (c, s) = elim c.get_stats [
    | none ↦ (c, s)
    | some get ↦
        let t = get r in
        (
          record c { last = t },
          record s {
            cache_hits = s.cache_hits + delta c.last.hits t.hits;
            cache_misses = s.cache_misses + delta c.last.misses t.misses;
            cache_singleflight_hits = s.cache_singleflight_hits + delta c.last.sf_hits t.sf_hits;
          },
        )
  ]

  unfoldable pub sync_size : R → Collector R × Series → Collector R × Series
  sync_size r (c, s) = elim c.get_size [
    | none ↦ (c, s)
    | some get ↦
        let (items, bytes) = get r in (c, record s { cache_items = items; cache_size = bytes })
  ]

  unfoldable pub sync_evictions : R → Collector R × Series → Collector R × Series
  sync_evictions r (c, s) = elim c.get_eviction_stats [
    | none ↦ (c, s)
    | some get ↦
        let t = get r in
        (
          record c { last_evictions = t },
          record s {
            cache_evictions = s.cache_evictions + delta c.last_evictions.evictions t.evictions;
            cache_skipped_large =
                s.cache_skipped_large + delta c.last_evictions.skipped_large t.skipped_large;
            cache_purged_ownership =
                s.cache_purged_ownership + delta c.last_evictions.purged t.purged;
          },
        )
  ]

  unfoldable pub sync_budget : R → Collector R × Series → Collector R × Series
  sync_budget r (c, s) = elim c.get_budget [
    | none ↦ (c, s)
    | some get ↦
        let (used, limit) = get r in
        (c, record s { cache_budget_used = used; cache_budget_limit = limit })
  ]

  unfoldable pub update_cache_metrics : R → Collector R × Series → Collector R × Series
  update_cache_metrics r p = sync_budget r (sync_evictions r (sync_size r (sync_stats r p)))

  -- The calls that scrapes make, one after the other under the collector's lock.
  unfoldable pub scrapes : List R → Collector R × Series → Collector R × Series
  scrapes [] p = p
  scrapes (r ∷ rs) p = scrapes rs (update_cache_metrics r p)
