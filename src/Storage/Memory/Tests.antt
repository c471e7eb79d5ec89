-- ===== src/Storage/Memory/Tests.antt =====
-- Tests and witnesses for the memory driver, with the time's digits left out of the ETag.
use jaydb.Base.{
  ℕ, ◌≡◌, refl, [], ◌∷◌, Str, Bytes, true, ◌&&◌, if◌then◌else◌, codes, lookup, insert, erase,
  str_eq, str_ltb, str_leb, has_prefix, sort, insert_sorted, ok, err,
}
use jaydb.Storage.{version_mismatch}
use jaydb.Storage.Memory.{
  Data, get, put, delete, object_at, new_entry, list, list_loop, listed_keys, index_of,
}
use jaydb.Storage.Memory.Pages.{flat}
use jaydb.Storage.Memory.Sorted.{IsPage, list-IsPage}
use jaydb.Storage.Memory.Writes.{allows_put, is_ok, put_lem}

abbrev etag_of : Bytes → ℕ → Str
etag_of value now = now ∷ value

abbrev two_keys : Data
two_keys =
    (codes "a/x", record { value = 1 ∷ []; etag = codes "t"; mod_time = 3 })
    ∷ (codes "a/y", record { value = 2 ∷ []; etag = codes "u"; mod_time = 4 })
    ∷ []

program : Unit {0}
unfolding get put delete list list_loop listed_keys index_of lookup insert erase str_eq str_ltb
    str_leb has_prefix sort insert_sorted
program = tt

stale_put : (put etag_of (codes "a/x") (9 ∷ []) (codes "u") 5 two_keys).0 ≡ err version_mismatch
unfolding program
stale_put = refl

-- With a delimiter and a limit the page after a directory begins with the same directory.
directory_again :
    (list (codes "") (record { limit = 1; cursor = []; delimiter = codes "/" }) two_keys
      ≡ (record { key = codes "a/"; size = 0; etag = []; mod_time = 0 } ∷ [], codes "a/x"))
    × (list (codes "") (record { limit = 1; cursor = codes "a/x"; delimiter = codes "/" }) two_keys
        ≡ (record { key = codes "a/"; size = 0; etag = []; mod_time = 0 } ∷ [], codes "a/y"))
unfolding program
directory_again = (refl, refl)

put_lem_example :
    (is_ok (put etag_of (codes "a/x") (9 ∷ []) (codes "t") 5 two_keys).0
      ≡ allows_put (codes "t") (get (codes "a/x") two_keys))
    × ((k : Str)
        → get k (put etag_of (codes "a/x") (9 ∷ []) (codes "t") 5 two_keys).1 ≡ (
            if str_eq (codes "a/x") k && allows_put (codes "t") (get (codes "a/x") two_keys)
            then ok (object_at (codes "a/x") (new_entry etag_of (9 ∷ []) 5))
            else get k two_keys))
    × (allows_put (codes "t") (get (codes "a/x") two_keys) ≡ true
        → (put etag_of (codes "a/x") (9 ∷ []) (codes "t") 5 two_keys).0
          ≡ ok (object_at (codes "a/x") (new_entry etag_of (9 ∷ []) 5)))
put_lem_example = put_lem etag_of (codes "a/x") (9 ∷ []) (codes "t") 5 two_keys

list-IsPage_example : IsPage (codes "a/") [] 1 two_keys (list (codes "a/") (flat 1 []) two_keys)
unfolding program
list-IsPage_example = list-IsPage (codes "a/") [] 1 two_keys (refl, (refl, tt))
