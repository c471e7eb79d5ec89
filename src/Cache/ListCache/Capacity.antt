-- ===== src/Cache/ListCache/Capacity.antt =====
-- The cap on the pages of the list cache.
use jaydb.Base.{
  ℕ, zero, suc, ◌-◌, ◌≤◌, ◌<◌, ◌≡◌, refl, inl, inr, List, Str, arith, leb, length, get_elem?_of_lt,
  length-remove_at, Result, ok, err, Bool-cases,
}
use jaydb.Storage.{KeyMeta, ListOptions, Error}
use jaydb.Cache.ListCache.{
  ListKey, Page, ListCache, key_string, hit, evict_over, admit_page, lead, list_page, is_fresh,
  remove_page, add_uint64,
}
use jaydb.Cache.ListCache.Keys.{find_entry_lem}

module _ (show_int : ℕ → Str) where
  -- No more pages than the cap, which is not zero.
  pub record IsCapped (c : ListCache) : Type 0 where
    pub positive : 0 < c.max
    pub capped : length c.lru ≤ c.max

  evict_over_lem :
      (fuel : ℕ) (c : ListCache)
      → 0 < c.max
      → length c.lru < fuel
      → (length (evict_over show_int fuel c).lru < c.max)
        × ((evict_over show_int fuel c).max ≡ c.max)
  unfolding evict_over
  evict_over_lem zero c p h = absurd (omega arith)
  evict_over_lem (suc fuel) c p h = elim (Bool-cases (leb c.max (length c.lru))) [
    | inr e ↦ rw e (ground arith, refl)
    | inl e ↦
        let (x, g) = get_elem?_of_lt c.lru (length c.lru - 1) (ground arith) in
        let l = length-remove_at (length c.lru - 1) c.lru (ground arith) in
        rw (e, g) (evict_over_lem fuel _ p (omega (arith, l)))
  ]

  hit-IsCapped :
      (i : ℕ) (p : Page) (now : ℕ) (c : ListCache)
      → IsCapped c
      → i < length c.lru
      → IsCapped (hit show_int i p now c)
  unfolding hit
  hit-IsCapped i p now c v l = record {
    positive = v.positive;
    capped = omega (arith, v.capped, length-remove_at i c.lru l);
  }

  admit_page-IsCapped :
      (k : ListKey) (metas : List KeyMeta) (next : Str) (now : ℕ) (c : ListCache)
      → IsCapped c
      → IsCapped (admit_page show_int k metas next now c)
  unfolding admit_page
  admit_page-IsCapped k metas next now c v =
      elim (find_entry_lem show_int (key_string show_int k) c) [
        | inl e ↦
            let (l, m) = evict_over_lem (suc (length c.lru)) c v.positive (omega arith) in
            rw (e, admit_page)
              (record { positive = omega (arith, m, v.positive); capped = omega (arith, l, m) })
        | inr (i, p, e, _, _, l) ↦
            rw (e, admit_page)
              (record {
                positive = v.positive;
                capped = omega (arith, v.capped, length-remove_at i c.lru l);
              })
      ]

  fetched-IsCapped :
      (k : ListKey) (now : ℕ) (c : ListCache) (r : Result Error (List KeyMeta × Str))
      → IsCapped c
      → IsCapped
          (elim r as (λ r. Result Error (List KeyMeta × Str) × ListCache) [
            | err e ↦ (err e, c)
            | ok (metas, next) ↦ (ok (metas, next), admit_page show_int k metas next now c)
          ]).1
  fetched-IsCapped k now c (err e) v = v
  fetched-IsCapped k now c (ok (metas, next)) v = admit_page-IsCapped k metas next now c v

  lead-IsCapped :
      (fetch : ListOptions → Result Error (List KeyMeta × Str)) (k : ListKey) (opts : ListOptions)
      (checked now : ℕ) (c : ListCache)
      → IsCapped c
      → IsCapped (lead show_int fetch k opts checked now c).1
  unfolding lead
  lead-IsCapped fetch k opts checked now c v =
      let c' = record c { misses = add_uint64 c.misses 1 } in
      let v' : IsCapped c' = record { positive = v.positive; capped = v.capped } in
      elim (find_entry_lem show_int (key_string show_int k) c') [
        | inl e ↦ rw (e, lead) (fetched-IsCapped k now c' (fetch opts) v')
        | inr (i, p, e, _, _, l) ↦ elim (Bool-cases (is_fresh c' checked p)) [
          | inl f ↦ rw (e, lead, f) (hit-IsCapped i p checked c' v' l)
          | inr f ↦ rw (e, lead, f) (fetched-IsCapped k now c' (fetch opts) v')
        ]
      ]

  -- `ListPage` keeps the number of pages within the cap, whatever it finds and whatever the storage
  -- answers; its eviction loop ends with room for one page.
  pub list_page-IsCapped :
      (fetch : ListOptions → Result Error (List KeyMeta × Str)) (prefix : Str) (opts : ListOptions)
      (asked checked now : ℕ) (c : ListCache)
      → IsCapped c
      → IsCapped (list_page show_int fetch prefix opts asked checked now c).1
  unfolding list_page
  list_page-IsCapped fetch prefix opts asked checked now c v =
      let k : ListKey = record { prefix = prefix; cursor = opts.cursor; limit = opts.limit } in
      elim (find_entry_lem show_int (key_string show_int k) c) [
        | inl e ↦ rw (e, list_page) (lead-IsCapped fetch k opts checked now c v)
        | inr (i, p, e, _, _, l) ↦ elim (Bool-cases (is_fresh c asked p)) [
          | inl f ↦ rw (e, list_page, f) (hit-IsCapped i p asked c v l)
          | inr f ↦
              rw (e, list_page, f)
                (lead-IsCapped fetch k opts checked now (remove_page (key_string show_int k) i c)
                  (record {
                    positive = v.positive;
                    capped = omega (arith, v.capped, length-remove_at i c.lru l);
                  }))
        ]
      ]
