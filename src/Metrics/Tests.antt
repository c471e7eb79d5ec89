-- ===== src/Metrics/Tests.antt =====
-- Witness for the collector: a cache whose totals are those of its age, scraped at 1 and at 3.
use jaydb.Base.{ℕ, ◌*◌, ◌≡◌, refl, [], ◌∷◌, none, some, arith, pos}
use jaydb.Metrics.{
  Stats, EvictionStats, new_collector, with_budget, with_eviction_stats, scrapes,
  update_cache_metrics, sync_stats, sync_size, sync_evictions, sync_budget,
}
use jaydb.Metrics.Totals.{Shows, no_series, scrapes-Shows}

abbrev stats_at : ℕ → Stats
stats_at n = record { hits = n; misses = 2 * n; sf_hits = 0 }

abbrev evicted_at : ℕ → EvictionStats
evicted_at n = record { evictions = n; skipped_large = 1; purged = 0 }

scrapes-Shows_example :
    Shows
      (scrapes (1 ∷ 3 ∷ []) (
        with_budget
            (some (λ (n : ℕ). (pos n, pos 9)))
            (with_eviction_stats (some evicted_at) (new_collector (some stats_at) none)),
        no_series,
      )).1
      (stats_at 3)
      (evicted_at 3)
scrapes-Shows_example =
    scrapes-Shows stats_at evicted_at (1 ∷ 3 ∷ []) none (some (λ (n : ℕ). (pos n, pos 9))) (
      record { hits_grow = omega arith; misses_grow = omega arith; sf_hits_grow = omega arith },
      record {
        evictions_grow = omega arith;
        skipped_grow = omega arith;
        purged_grow = omega arith;
      },
      (
        record { hits_grow = omega arith; misses_grow = omega arith; sf_hits_grow = omega arith },
        record {
          evictions_grow = omega arith;
          skipped_grow = omega arith;
          purged_grow = omega arith;
        },
        tt,
      ),
    )

-- A cache that is replaced by a new one: the totals go back, and the counter stays.
replaced : (scrapes (3 ∷ 1 ∷ []) (new_collector (some stats_at) none, no_series)).1.cache_hits ≡ 3
unfolding scrapes update_cache_metrics sync_stats sync_size sync_evictions sync_budget
replaced = refl
