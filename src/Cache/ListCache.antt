-- ===== src/Cache/ListCache.antt =====
-- pkg/cache/list_cache.go: the cache of listed pages. As in the object cache, a map says which keys
-- have an element of the LRU list, the most recent first. `show_int` stands for the `%d` of
-- fmt.Sprintf. A call runs alone, so that a miss leads its own fetch; each reading of the clock is
-- an argument. A copy of a page is the page.
pub mod Capacity
pub mod Invalidation
pub mod Keys
pub mod Tests
use jaydb.Base.{
  ℕ, zero, suc, ◌+◌, ◌-◌, ◌%◌, ◌^◌, List, [], ◌∷◌, ◌++◌, Str, StrMap, Bool, true, false, ◌||◌, not,
  Option, none, some, if◌then◌else◌, ltb, leb, ◌==◌, length, take, get_elem?, remove_at, keep_if,
  lookup, insert, erase, str_eq, has_prefix, codes, ℤ, pos_part, Result, ok, err,
}
use jaydb.Storage.{KeyMeta, ListOptions, Error}

-- 24 hours, in nanoseconds
abbrev default_list_ttl : ℕ
default_list_ttl = 86400000000000

abbrev default_list_max_pages : ℕ
default_list_max_pages = 500

pub record ListKey : Type 0 where
  pub prefix : Str
  pub cursor : Str
  pub limit : ℕ

pub record Page : Type 0 where
  pub key : ListKey
  pub metas : List KeyMeta
  pub next_cursor : Str
  pub fetched_at : ℕ
  pub last_accessed : ℕ

pub record ListCache : Type 0 where
  pub ttl : ℕ
  pub max : ℕ
  pub items : StrMap (Unit {0})
  pub lru : List Page
  pub hits : ℕ
  pub misses : ℕ
  pub evictions : ℕ
  pub invalidations : ℕ

abbrev pub add_uint64 : ℕ → ℕ → ℕ
add_uint64 a b = (a + b) % 2 ^ 64

abbrev pub or_default : ℕ → ℤ → ℕ
or_default d n = if leb (pos_part n) 0 then d else pos_part n

unfoldable pub new_list_cache : ℤ → ℤ → ListCache
new_list_cache ttl max_pages = record {
  ttl = or_default default_list_ttl ttl;
  max = or_default default_list_max_pages max_pages;
  items = [];
  lru = [];
  hits = 0;
  misses = 0;
  evictions = 0;
  invalidations = 0;
}

-- `delete(c.items, oldEntry.key.String()); c.lru.Remove(oldest)`, of the element at the place `i`
abbrev pub remove_page : Str → ℕ → ListCache → ListCache
remove_page s i c = record c { items = erase s c.items; lru = remove_at i c.lru }

abbrev pub is_fresh : ListCache → ℕ → Page → Bool
is_fresh c now p = leb c.ttl 0 || ltb (now - p.last_accessed) c.ttl

module _ (show_int : ℕ → Str) where
  -- `ListCacheKey.String`
  unfoldable pub key_string : ListKey → Str
  key_string k = k.prefix ++ codes "|" ++ k.cursor ++ codes "|" ++ show_int k.limit

  unfoldable pub find_page : Str → List Page → Option ℕ
  find_page s [] = none
  find_page s (p ∷ ps) =
      if str_eq (key_string p.key) s
      then some 0
      else elim (find_page s ps) [ none ↦ none | some i ↦ some (suc i) ]

  -- `el, found := c.items[mapKey]`, with the entry of the element.
  unfoldable pub find_entry : Str → ListCache → Option (ℕ × Page)
  find_entry s c = elim (lookup s c.items) [
    | none ↦ none
    | some _ ↦ elim (find_page s c.lru) [
      | none ↦ none
      | some i ↦ elim (get_elem? c.lru i) [ none ↦ none | some p ↦ some (i, p) ]
    ]
  ]

  -- A hit: the entry is stamped and moved to the front.
  unfoldable pub hit : ℕ → Page → ℕ → ListCache → ListCache
  hit i p now c = record c {
    lru = record p { last_accessed = now } ∷ remove_at i c.lru;
    hits = add_uint64 c.hits 1;
  }

  -- The eviction loop of `ListPage`. A round takes the last element, so one round more than there
  -- are elements is enough fuel.
  unfoldable pub evict_over : ℕ → ListCache → ListCache
  evict_over zero c = c
  evict_over (suc fuel) c =
      if leb c.max (length c.lru)
      then elim (get_elem? c.lru (length c.lru - 1)) [
        | none ↦ c
        | some p ↦ evict_over fuel (record (remove_page (key_string p.key) (length c.lru - 1) c) {
          evictions = add_uint64 c.evictions 1;
        })
      ]
      else c

  -- The admission of a page that was fetched.
  unfoldable pub admit_page : ListKey → List KeyMeta → Str → ℕ → ListCache → ListCache
  admit_page k metas next now c =
      let page : Page = record {
        key = k;
        metas = metas;
        next_cursor = next;
        fetched_at = now;
        last_accessed = now;
      } in
      elim (find_entry (key_string k) c) [
        | some (i, p) ↦ record c { lru = record page { key = p.key } ∷ remove_at i c.lru }
        | none ↦
            let c' = evict_over (suc (length c.lru)) c in
            record c' { items = insert (key_string k) tt c'.items; lru = page ∷ c'.lru }
      ]

  -- `ListPage` behind the first lookup: the entry is looked up again, then the storage is asked. The
  -- two readings of the clock at the second lookup are taken to be one.
  unfoldable pub lead :
      (ListOptions → Result Error (List KeyMeta × Str))
      → ListKey
      → ListOptions
      → ℕ
      → ℕ
      → ListCache
      → Result Error (List KeyMeta × Str) × ListCache
  lead fetch k opts checked now c =
      let c' = record c { misses = add_uint64 c.misses 1 } in
      elim (find_entry (key_string k) c') [
        | some (i, p) ↦ elim (is_fresh c' checked p) [
          | true ↦ (ok (p.metas, p.next_cursor), hit i p checked c')
          | false ↦ elim (fetch opts) [
            | err e ↦ (err e, c')
            | ok (metas, next) ↦ (ok (metas, next), admit_page k metas next now c')
          ]
        ]
        | none ↦ elim (fetch opts) [
          | err e ↦ (err e, c')
          | ok (metas, next) ↦ (ok (metas, next), admit_page k metas next now c')
        ]
      ]

  -- `ListPage`. `fetch` is the driver's `List` of the prefix.
  unfoldable pub list_page :
      (ListOptions → Result Error (List KeyMeta × Str))
      → Str
      → ListOptions
      → ℕ
      → ℕ
      → ℕ
      → ListCache
      → Result Error (List KeyMeta × Str) × ListCache
  list_page fetch prefix opts asked checked now c =
      let k : ListKey = record { prefix = prefix; cursor = opts.cursor; limit = opts.limit } in
      elim (find_entry (key_string k) c) [
        | some (i, p) ↦ elim (is_fresh c asked p) [
          | true ↦ (ok (p.metas, p.next_cursor), hit i p asked c)
          | false ↦ lead fetch k opts checked now (remove_page (key_string k) i c)
        ]
        | none ↦ lead fetch k opts checked now c
      ]

  -- The removal loop of both invalidations. The elements that the code finds through the map are
  -- those of the list; the order in which they go is of no account.
  unfoldable pub drop_pages : (Page → Bool) → List Page → ListCache → ListCache
  drop_pages hit [] c = record c { lru = [] }
  drop_pages hit (p ∷ ps) c =
      let c' = drop_pages hit ps (
        if hit p
        then record c {
          items = erase (key_string p.key) c.items;
          invalidations = add_uint64 c.invalidations 1;
        }
        else c) in
      if hit p then c' else record c' { lru = p ∷ c'.lru }

  abbrev pub touches_key : Str → Page → Bool
  touches_key key p = str_eq p.key.prefix [] || has_prefix key p.key.prefix

  unfoldable pub invalidate_key : Str → ListCache → ListCache
  invalidate_key key c = drop_pages (touches_key key) c.lru c

  abbrev pub overlaps : Str → Page → Bool
  overlaps prefix p =
      str_eq prefix []
      || (str_eq p.key.prefix []
          || (has_prefix p.key.prefix prefix || has_prefix prefix p.key.prefix))

  unfoldable pub invalidate_prefix : Str → ListCache → ListCache
  invalidate_prefix prefix c = drop_pages (overlaps prefix) c.lru c

unfoldable pub purge : ListCache → ListCache
purge c = record c { items = []; lru = [] }

unfoldable pub size : ListCache → ℕ
size c = length c.items
