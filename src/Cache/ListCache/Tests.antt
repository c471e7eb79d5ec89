-- ===== src/Cache/ListCache/Tests.antt =====
-- Tests and witnesses for the list cache, where a limit is written as one byte.
use jaydb.Base.{
  ℕ, ◌≡◌, refl, [], ◌∷◌, Str, arith, pos, codes, lookup, insert, erase, str_eq, Result, ok, List,
}
use jaydb.Storage.{KeyMeta, ListOptions, Error}
use jaydb.Cache.ListCache.Invalidation.{MayHave, MayShare, IsCleared, Fate, invalidate-Fate}
use jaydb.Cache.ListCache.{
  invalidate_key, invalidate_prefix, drop_pages, Page, ListCache, new_list_cache, list_page, lead,
  admit_page, evict_over, find_entry, find_page, key_string, hit,
}
use jaydb.Cache.ListCache.Keys.{list_page-again}

abbrev show_int : ℕ → Str
show_int n = n ∷ []

abbrev opts : ListOptions
opts = record { limit = 2; cursor = []; delimiter = [] }

abbrev meta : Str → KeyMeta
meta key = record { key = key; size = 1; etag = []; mod_time = 5 }

abbrev flat : ListOptions → Result Error (List KeyMeta × Str)
flat o = ok (meta (codes "a/x") ∷ meta (codes "a/y") ∷ [], codes "a/y")

abbrev dirs : ListOptions → Result Error (List KeyMeta × Str)
dirs o = ok (meta (codes "a/") ∷ [], [])

program : Unit {0}
unfolding new_list_cache list_page lead admit_page evict_over find_entry find_page key_string hit
    lookup insert erase str_eq
program = tt

abbrev fresh : ListCache
fresh = new_list_cache (pos 100) (pos 2)

-- The page of another delimiter is served.
list_page-again_example :
    (list_page show_int dirs []
      (record opts { delimiter = codes "/" })
      20
      21
      22
      (list_page show_int flat [] opts 10 11 12 fresh).1).0
    ≡ ok (meta (codes "a/x") ∷ meta (codes "a/y") ∷ [], codes "a/y")
unfolding program
list_page-again_example =
    list_page-again show_int flat dirs [] (codes "/") opts 10 11 12 20 21 22 fresh
      (list_page show_int flat [] opts 10 11 12 fresh).1
      (meta (codes "a/x") ∷ meta (codes "a/y") ∷ [], codes "a/y") refl (omega arith) (omega arith)
      (omega arith)

-- Two keys with one string: the prefix `a|b` and no cursor, the prefix `a` and the cursor `b|`.
one_string :
    key_string show_int (record { prefix = codes "a|b"; cursor = []; limit = 1 })
    ≡ key_string show_int (record { prefix = codes "a"; cursor = codes "b|"; limit = 1 })
unfolding program
one_string = refl

-- The page of the root's keys, which a write of any key drops.
abbrev listed : ListCache
listed = (list_page show_int flat [] opts 10 11 12 fresh).1

-- The page that it holds.
abbrev front : List Page → Page
front [] = record {
  key = record { prefix = []; cursor = []; limit = 0 };
  metas = [];
  next_cursor = [];
  fetched_at = 0;
  last_accessed = 0;
}
front (p ∷ ps) = p

invalidate-Fate_example :
    (IsCleared show_int
        (MayHave (codes "a/x"))
        listed
        (invalidate_key show_int (codes "a/x") listed)
      × Fate show_int
          (MayHave (codes "a/x"))
          listed
          (invalidate_key show_int (codes "a/x") listed)
          (front listed.lru))
    × (IsCleared show_int
          (MayShare (codes "a/x"))
          listed
          (invalidate_prefix show_int (codes "a/x") listed)
        × Fate show_int
            (MayShare (codes "a/x"))
            listed
            (invalidate_prefix show_int (codes "a/x") listed)
            (front listed.lru))
unfolding program
invalidate-Fate_example = invalidate-Fate show_int (codes "a/x") listed 0 (front listed.lru) refl

dropped : (invalidate_key show_int (codes "a/x") listed).lru ≡ []
unfolding program invalidate_key drop_pages
dropped = refl

-- A leader has listed the keys before a write, whose invalidation finds no page yet; then the leader
-- admits its page, and the next call gets that instead of the page of the storage.
stale_page :
    (list_page show_int dirs [] opts 13 14 15 (
      admit_page show_int
        (record { prefix = []; cursor = []; limit = 2 })
        (meta (codes "a/x") ∷ [])
        []
        12
        (invalidate_key show_int (codes "a/z") fresh))).0
    ≡ ok (meta (codes "a/x") ∷ [], [])
unfolding program invalidate_key drop_pages
stale_page = refl
