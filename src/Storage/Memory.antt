-- ===== src/Storage/Memory.antt =====
-- pkg/storage/memory/memory.go: the driver that keeps all objects in a map. A method holds the lock
-- and is one function on the map. `generate_etag` stands for the hash of the value and the time,
-- which the standard library computes; the reading of the clock is an argument of `Put`.
pub mod Writes
pub mod Pages
pub mod Paging
pub mod Sorted
pub mod Tests
use jaydb.Base.{
  ℕ, zero, suc, ◌+◌, List, [], ◌∷◌, ◌++◌, Str, Bytes, StrMap, Bool, true, false, ◌&&◌, not, Option,
  none, some, if◌then◌else◌, ltb, leb, ◌==◌, length, take, drop, lookup, insert, erase, is_some,
  str_eq, str_leb, has_prefix, sort, keep_if, Result, ok, err,
}
use jaydb.Storage.{
  Object, KeyMeta, ListOptions, Error, not_found, version_mismatch, already_exists, match_any_etag,
}

pub record Entry : Type 0 where
  pub value : Bytes
  pub etag : Str
  pub mod_time : ℕ

abbrev pub Data : Type 0
Data = StrMap Entry

abbrev pub object_at : Str → Entry → Object
object_at key e = record {
  key = key;
  value = e.value;
  etag = e.etag;
  mod_time = e.mod_time;
  metadata = [];
}

-- `Get`, behind the lookup in the map
abbrev pub read_at : Str → Option Entry → Result Error Object
read_at key none = err not_found
read_at key (some e) = ok (object_at key e)

unfoldable pub get : Str → Data → Result Error Object
get key entries = read_at key (lookup key entries)

-- The checks of `Put` against the entry that is there.
abbrev pub check_put : Str → Option Entry → Option Error
check_put expected_etag existing =
    if str_eq expected_etag []
    then none
    else if str_eq expected_etag match_any_etag
    then if is_some existing then some already_exists else none
    else elim existing [
      | none ↦ some not_found
      | some e ↦ if str_eq e.etag expected_etag then none else some version_mismatch
    ]

module _ (generate_etag : Bytes → ℕ → Str) where
  abbrev pub new_entry : Bytes → ℕ → Entry
  new_entry value now = record { value = value; etag = generate_etag value now; mod_time = now }

  unfoldable pub put : Str → Bytes → Str → ℕ → Data → Result Error Object × Data
  put key value expected_etag now entries = elim (check_put expected_etag (lookup key entries)) [
    | some e ↦ (err e, entries)
    | none ↦ (ok (object_at key (new_entry value now)), insert key (new_entry value now) entries)
  ]

unfoldable pub delete : Str → Str → Data → Option Error × Data
delete key expected_etag entries = elim (lookup key entries) [
  | none ↦ (some not_found, entries)
  | some e ↦
      if not (str_eq expected_etag [])
        && (not (str_eq expected_etag match_any_etag) && not (str_eq e.etag expected_etag))
      then (some version_mismatch, entries)
      else (none, erase key entries)
]

abbrev keys_of : Data → List Str
keys_of [] = []
keys_of ((k, _) ∷ rest) = k ∷ keys_of rest

-- The keys that `List` looks at, in order.
unfoldable pub listed_keys : Str → Str → Data → List Str
listed_keys prefix cursor entries = sort (
    keep_if (λ (k : Str). has_prefix k prefix && not (not (str_eq cursor []) && str_leb k cursor))
      (keys_of entries))

-- `strings.Index`
unfoldable pub index_of : Str → Str → Option ℕ
index_of [] sub = if has_prefix [] sub then some 0 else none
index_of (c ∷ s) sub =
    if has_prefix (c ∷ s) sub
    then some 0
    else elim (index_of s sub) [ none ↦ none | some i ↦ some (suc i) ]

-- `len(results) > 0 && results[len(results)-1].Key == dirKey`
abbrev pub is_last : Str → List KeyMeta → Bool
is_last dir [] = false
is_last dir (m ∷ []) = str_eq m.key dir
is_last dir (m ∷ n ∷ ms) = is_last dir (n ∷ ms)

abbrev pub dir_meta : Str → KeyMeta
dir_meta dir = record { key = dir; size = 0; etag = []; mod_time = 0 }

abbrev pub key_meta : Str → Option Entry → KeyMeta
key_meta k none = dir_meta k
key_meta k (some e) = record {
  key = k;
  size = length e.value;
  etag = e.etag;
  mod_time = e.mod_time;
}

-- The directory that stands for a key, where the rest of the key has the delimiter.
abbrev pub dir_of : Str → Str → Str → Option Str
dir_of prefix delimiter k =
    let rel = drop (length prefix) k in
    if str_eq delimiter [] then none else elim (index_of rel delimiter) [
      | none ↦ none
      | some idx ↦ some (prefix ++ take (idx + length delimiter) rel)
    ]

-- The loop of `List`: the results and the cursor, from those so far.
unfoldable pub list_loop :
    Str → ListOptions → Data → List Str → List KeyMeta → Str → List KeyMeta × Str
list_loop prefix opts entries [] results next = (results, next)
list_loop prefix opts entries (k ∷ ks) results next =
    if ltb 0 opts.limit && leb opts.limit (length results)
    then (results, next)
    else elim (dir_of prefix opts.delimiter k) [
      | some dir ↦ elim (is_last dir results) [
        | true ↦ list_loop prefix opts entries ks results next
        | false ↦ list_loop prefix opts entries ks (results ++ (dir_meta dir ∷ [])) k
      ]
      | none ↦ list_loop prefix opts entries ks (results ++ (key_meta k (lookup k entries) ∷ [])) k
    ]

unfoldable pub list : Str → ListOptions → Data → List KeyMeta × Str
list prefix opts entries =
    let (results, next) =
      list_loop prefix opts entries (listed_keys prefix opts.cursor entries) [] [] in
    (results, if leb opts.limit 0 then [] else if ltb (length results) opts.limit then [] else next)
