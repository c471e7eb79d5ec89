-- ===== src/Db/Listing/Tests.antt =====
-- Tests and witnesses for the listings.
use jaydb.Base.{
  ◌≡◌, refl, [], ◌∷◌, map, some, ok, codes, lookup, str_eq, str_ltb, str_leb, has_prefix, sort,
  insert_sorted, pos, pos_part, arith,
}
use jaydb.Storage.Memory as M
use jaydb.Db.Listing.{list, list_from, list_page}
use jaydb.Db.Listing.Complete.{memory_pages, item_at, first_of, list-memory}

abbrev three_keys : M.Data
three_keys =
    (codes "b/2", record { value = 2 ∷ []; etag = codes "u"; mod_time = 4 })
    ∷ (codes "a", record { value = []; etag = codes "s"; mod_time = 1 })
    ∷ (codes "b/1", record { value = 1 ∷ []; etag = codes "t"; mod_time = 3 })
    ∷ []

program : Unit {0}
unfolding M.listed_keys M.list M.list_loop list list_from list_page lookup str_eq str_ltb str_leb
    has_prefix sort insert_sorted
program = tt

list-memory_example :
    list (memory_pages three_keys) 4 (codes "b/") (pos 1) tt
    ≡ some (
      ok (
          first_of
            (pos_part (pos 1))
            (map (item_at three_keys) (M.listed_keys (codes "b/") [] three_keys))),
      tt,
    )
unfolding program
list-memory_example =
    list-memory three_keys 4 (codes "b/") (pos 1) (refl, (refl, (refl, tt))) refl (omega arith)

-- The first key with the prefix, in order.
one_key :
    list (memory_pages three_keys) 4 (codes "b/") (pos 1) tt
    ≡ some (ok (item_at three_keys (codes "b/1") ∷ []), tt)
unfolding program
one_key = refl
