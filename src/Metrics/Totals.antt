-- ===== src/Metrics/Totals.antt =====
-- The exported counters against the totals of the cache.
use jaydb.Base.{
  ℕ, ◌+◌, ◌≤◌, ◌≡◌, refl, ap, Option, none, some, List, [], ◌∷◌, arith, ℤ, pos, Option-cases, inl,
  inr,
}
use jaydb.Metrics.{
  Stats, EvictionStats, Collector, Series, delta, sync_stats, sync_size, sync_evictions,
  sync_budget, update_cache_metrics, scrapes, new_collector, with_eviction_stats, with_budget,
}

-- Totals that have not gone back.
pub record Grows (a b : Stats) : Type 0 where
  pub hits_grow : a.hits ≤ b.hits
  pub misses_grow : a.misses ≤ b.misses
  pub sf_hits_grow : a.sf_hits ≤ b.sf_hits

pub record GrowsToo (a b : EvictionStats) : Type 0 where
  pub evictions_grow : a.evictions ≤ b.evictions
  pub skipped_grow : a.skipped_large ≤ b.skipped_large
  pub purged_grow : a.purged ≤ b.purged

-- The counters have exactly the totals.
pub record Shows (s : Series) (t : Stats) (u : EvictionStats) : Type 0 where
  pub shows_hits : s.cache_hits ≡ t.hits
  pub shows_misses : s.cache_misses ≡ t.misses
  pub shows_sf_hits : s.cache_singleflight_hits ≡ t.sf_hits
  pub shows_evictions : s.cache_evictions ≡ u.evictions
  pub shows_skipped : s.cache_skipped_large ≡ u.skipped_large
  pub shows_purged : s.cache_purged_ownership ≡ u.purged

added : (x last t current : ℕ) → x ≡ t → last ≡ t → t ≤ current → x + delta last current ≡ current
added x last t current e f l = ground (arith, e, f, l)

-- Nothing has been counted.
abbrev pub no_stats : Stats
no_stats = record { hits = 0; misses = 0; sf_hits = 0 }

abbrev pub no_evictions : EvictionStats
no_evictions = record { evictions = 0; skipped_large = 0; purged = 0 }

abbrev pub no_series : Series
no_series = record {
  cache_hits = 0;
  cache_misses = 0;
  cache_singleflight_hits = 0;
  cache_evictions = 0;
  cache_skipped_large = 0;
  cache_purged_ownership = 0;
  cache_items = 0;
  cache_size = pos 0;
  cache_budget_used = pos 0;
  cache_budget_limit = pos 0;
}

no_series-Shows : Shows no_series no_stats no_evictions
no_series-Shows = record {
  shows_hits = refl;
  shows_misses = refl;
  shows_sf_hits = refl;
  shows_evictions = refl;
  shows_skipped = refl;
  shows_purged = refl;
}

module _ {R : Type 0} (stats : R → Stats) (evicted : R → EvictionStats) where
  -- A collector that is wired to both and saw these totals last, which the counters have.
  pub record IsSynced (t : Stats) (u : EvictionStats) (p : Collector R × Series) : Type 0 where
    pub wired : p.0.get_stats ≡ some stats
    pub wired_too : p.0.get_eviction_stats ≡ some evicted
    pub saw : p.0.last ≡ t
    pub saw_too : p.0.last_evictions ≡ u
    pub shows : Shows p.1 t u

  -- Gauges are of no concern.
  gauged :
      (t : Stats) (u : EvictionStats) (c : Collector R) (s s' : Series)
      → IsSynced t u (c, s)
      → Shows s' t u
      → IsSynced t u (c, s')
  gauged t u c s s' v x = record {
    wired = v.wired;
    wired_too = v.wired_too;
    saw = v.saw;
    saw_too = v.saw_too;
    shows = x;
  }

  new_IsSynced :
      (size : Option (R → ℕ × ℤ)) (budget : Option (R → ℤ × ℤ))
      → IsSynced no_stats no_evictions (
        with_budget budget (with_eviction_stats (some evicted) (new_collector (some stats) size)),
        no_series,
      )
  new_IsSynced size none = record {
    wired = refl;
    wired_too = refl;
    saw = refl;
    saw_too = refl;
    shows = no_series-Shows;
  }
  new_IsSynced size (some b) = record {
    wired = refl;
    wired_too = refl;
    saw = refl;
    saw_too = refl;
    shows = no_series-Shows;
  }

  sync_stats-IsSynced :
      (r : R) (t : Stats) (u : EvictionStats) (p : Collector R × Series)
      → Grows t (stats r)
      → IsSynced t u p
      → IsSynced (stats r) u (sync_stats r p)
  unfolding sync_stats
  sync_stats-IsSynced r t u (c, s) g v =
      let x = v.shows in
      rw (sync_stats, v.wired)
        (record {
          wired = v.wired;
          wired_too = v.wired_too;
          saw = refl;
          saw_too = v.saw_too;
          shows = record {
            shows_hits =
                added s.cache_hits c.last.hits t.hits (stats r).hits x.shows_hits
                  (ap (λ q. q.hits) v.saw) g.hits_grow;
            shows_misses =
                added s.cache_misses c.last.misses t.misses (stats r).misses x.shows_misses
                  (ap (λ q. q.misses) v.saw) g.misses_grow;
            shows_sf_hits =
                added s.cache_singleflight_hits c.last.sf_hits t.sf_hits (stats r).sf_hits
                  x.shows_sf_hits (ap (λ q. q.sf_hits) v.saw) g.sf_hits_grow;
            shows_evictions = x.shows_evictions;
            shows_skipped = x.shows_skipped;
            shows_purged = x.shows_purged;
          };
        })

  sync_size-IsSynced :
      (r : R) (t : Stats) (u : EvictionStats) (p : Collector R × Series)
      → IsSynced t u p
      → IsSynced t u (sync_size r p)
  unfolding sync_size
  sync_size-IsSynced r t u (c, s) v = elim (Option-cases c.get_size) [
    | inl z ↦ rw (sync_size, z) v
    | inr (get, z) ↦
        rw (sync_size, z)
          (gauged t u c s _ v (record {
            shows_hits = v.shows.shows_hits;
            shows_misses = v.shows.shows_misses;
            shows_sf_hits = v.shows.shows_sf_hits;
            shows_evictions = v.shows.shows_evictions;
            shows_skipped = v.shows.shows_skipped;
            shows_purged = v.shows.shows_purged;
          }))
  ]

  sync_evictions-IsSynced :
      (r : R) (t : Stats) (u : EvictionStats) (p : Collector R × Series)
      → GrowsToo u (evicted r)
      → IsSynced t u p
      → IsSynced t (evicted r) (sync_evictions r p)
  unfolding sync_evictions
  sync_evictions-IsSynced r t u (c, s) g v =
      let x = v.shows in
      rw (sync_evictions, v.wired_too)
        (record {
          wired = v.wired;
          wired_too = v.wired_too;
          saw = v.saw;
          saw_too = refl;
          shows = record {
            shows_hits = x.shows_hits;
            shows_misses = x.shows_misses;
            shows_sf_hits = x.shows_sf_hits;
            shows_evictions =
                added s.cache_evictions c.last_evictions.evictions u.evictions (evicted r).evictions
                  x.shows_evictions (ap (λ q. q.evictions) v.saw_too) g.evictions_grow;
            shows_skipped =
                added s.cache_skipped_large c.last_evictions.skipped_large u.skipped_large
                  (evicted r).skipped_large x.shows_skipped (ap (λ q. q.skipped_large) v.saw_too)
                  g.skipped_grow;
            shows_purged =
                added s.cache_purged_ownership c.last_evictions.purged u.purged (evicted r).purged
                  x.shows_purged (ap (λ q. q.purged) v.saw_too) g.purged_grow;
          };
        })

  sync_budget-IsSynced :
      (r : R) (t : Stats) (u : EvictionStats) (p : Collector R × Series)
      → IsSynced t u p
      → IsSynced t u (sync_budget r p)
  unfolding sync_budget
  sync_budget-IsSynced r t u (c, s) v = elim (Option-cases c.get_budget) [
    | inl z ↦ rw (sync_budget, z) v
    | inr (get, z) ↦
        rw (sync_budget, z)
          (gauged t u c s _ v (record {
            shows_hits = v.shows.shows_hits;
            shows_misses = v.shows.shows_misses;
            shows_sf_hits = v.shows.shows_sf_hits;
            shows_evictions = v.shows.shows_evictions;
            shows_skipped = v.shows.shows_skipped;
            shows_purged = v.shows.shows_purged;
          }))
  ]

  update-IsSynced :
      (r : R) (t : Stats) (u : EvictionStats) (p : Collector R × Series)
      → Grows t (stats r)
      → GrowsToo u (evicted r)
      → IsSynced t u p
      → IsSynced (stats r) (evicted r) (update_cache_metrics r p)
  unfolding update_cache_metrics
  update-IsSynced r t u p g h v =
      let a = sync_stats-IsSynced r t u p g v in
      let b = sync_size-IsSynced r (stats r) u (sync_stats r p) a in
      let c = sync_evictions-IsSynced r (stats r) u (sync_size r (sync_stats r p)) h b in
      sync_budget-IsSynced r (stats r) (evicted r) (sync_evictions r (sync_size r (sync_stats r p)))
        c

  -- The totals that scrapes see do not go back.
  abbrev pub Rising : Stats → EvictionStats → List R → Type 0
  Rising t u [] = Unit {0}
  Rising t u (r ∷ rs) = Grows t (stats r) × GrowsToo u (evicted r) × Rising (stats r) (evicted r) rs

  abbrev pub last_stats : Stats → List R → Stats
  last_stats t [] = t
  last_stats t (r ∷ rs) = last_stats (stats r) rs

  abbrev pub last_evicted : EvictionStats → List R → EvictionStats
  last_evicted u [] = u
  last_evicted u (r ∷ rs) = last_evicted (evicted r) rs

  scrapes-IsSynced :
      (rs : List R) (t : Stats) (u : EvictionStats) (p : Collector R × Series)
      → Rising t u rs
      → IsSynced t u p
      → IsSynced (last_stats t rs) (last_evicted u rs) (scrapes rs p)
  unfolding scrapes
  scrapes-IsSynced [] t u p g v = v
  scrapes-IsSynced (r ∷ rs) t u p g v =
      scrapes-IsSynced rs (stats r) (evicted r) (update_cache_metrics r p) g.2
        (update-IsSynced r t u p g.0 g.1 v)

  -- However often the metrics are scraped, the six counters of a collector that is wired to a cache
  -- from the start are the totals that the cache had at the last scrape, as long as the totals do
  -- not go back: nothing is counted twice and nothing is lost. What else it is wired to is of no
  -- concern.
  pub scrapes-Shows :
      (rs : List R) (size : Option (R → ℕ × ℤ)) (budget : Option (R → ℤ × ℤ))
      → Rising no_stats no_evictions rs
      → Shows
          (scrapes rs (
            with_budget budget
                (with_eviction_stats (some evicted) (new_collector (some stats) size)),
            no_series,
          )).1
          (last_stats no_stats rs)
          (last_evicted no_evictions rs)
  scrapes-Shows rs size budget g =
      (scrapes-IsSynced rs no_stats no_evictions _ g (new_IsSynced size budget)).shows
