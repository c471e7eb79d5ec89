-- ===== src/Db/Listing.antt =====
-- `ListPage` and `List`. `S` is the state of what answers a page: the list cache, or a driver alone.
-- No driver returns a nil entry.
pub mod Complete
mod Tests
use jaydb.Base.{
  ℕ, zero, suc, ◌+◌, ◌-◌, List, [], ◌∷◌, ◌++◌, map, Str, Bool, true, false, ◌&&◌, ◌||◌, Option,
  none, some, if◌then◌else◌, ltb, leb, ◌==◌, length, take, str_eq, ℤ, pos, pos_part, Result, ok,
  err,
}
use jaydb.Storage.{KeyMeta, ListOptions, Error}
use jaydb.Cache.ListCache as C
use jaydb.Db.{Item, item_of}

abbrev pub list_page_size : ℕ
list_page_size = 1000

pub record ListPageOptions : Type 0 where
  pub limit : ℤ
  pub cursor : Str

-- What answers a page: the driver, for `none`, or the list cache with its state. The numbers are the
-- readings of the clock.
module _ (show_int : ℕ → Str)
    (driver_list : Str → ListOptions → Result Error (List KeyMeta × Str)) where
  unfoldable pub fetch_page :
      ℕ
      → ℕ
      → ℕ
      → Str
      → ListOptions
      → Option C.ListCache
      → Result Error (List KeyMeta × Str) × Option C.ListCache
  fetch_page asked checked now prefix opts none = (driver_list prefix opts, none)
  fetch_page asked checked now prefix opts (some c) =
      let (r, c') = C.list_page show_int (driver_list prefix) prefix opts asked checked now c in
      (r, some c')

abbrev pub items_of : Result Error (List KeyMeta × Str) → Result Error (List Item × Str)
items_of (err e) = err e
items_of (ok (metas, next)) = ok (map item_of metas, next)

-- `pageLimit`, with `have` items so far
abbrev pub page_limit : ℕ → ℕ → ℕ
page_limit limit have =
    if ltb 0 limit && ltb (limit - have) list_page_size then limit - have else list_page_size

module _ {S : Type 0} (fetch : Str → ListOptions → S → Result Error (List KeyMeta × Str) × S) where
  -- `ListPage`
  unfoldable pub list_page : Str → ListPageOptions → S → Result Error (List Item × Str) × S
  list_page prefix opts s =
      let limit = if leb (pos_part opts.limit) 0 then list_page_size else pos_part opts.limit in
      let (r, s') =
        fetch prefix (record { limit = limit; cursor = opts.cursor; delimiter = [] }) s in
      (items_of r, s')

  -- The loop of `List`; `none` is no fuel left. A limit that is not positive is 0.
  unfoldable pub list_from :
      ℕ → Str → ℕ → List Item → Str → S → Option (Result Error (List Item) × S)
  list_from zero prefix limit items cursor s = none
  list_from (suc fuel) prefix limit items cursor s =
      let (r, s') =
        list_page prefix (record { limit = pos (page_limit limit (length items)); cursor = cursor })
          s in
      elim r [
        | err e ↦ some (err e, s')
        | ok (page, next) ↦ elim (ltb 0 limit && leb limit (length (items ++ page))) [
          | true ↦ some (ok (take limit (items ++ page)), s')
          | false ↦ elim (str_eq next [] || (length page == 0)) [
            | true ↦ some (ok (items ++ page), s')
            | false ↦ list_from fuel prefix limit (items ++ page) next s'
          ]
        ]
      ]

  -- `List`
  unfoldable pub list : ℕ → Str → ℤ → S → Option (Result Error (List Item) × S)
  list fuel prefix limit s = list_from fuel prefix (pos_part limit) [] [] s
