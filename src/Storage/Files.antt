-- ===== src/Storage/Files.antt =====
-- pkg/storage/fs/fs.go: the driver that keeps each object in a file. The operating system's calls are
-- the interface `Os` over a state `D`, and may fail. filepath's Clean, Join and Dir are modelled as
-- they are on Unix. `generate_etag` stands for the hash of the value and the time, and the clock's
-- reading, which names the temporary file, is an argument. A method holds the lock.
pub mod Paths
pub mod Atomic
pub mod Compared
mod Tests
use jaydb.Base.{
  ℕ, List, [], ◌∷◌, ◌++◌, Str, Bytes, Bool, true, false, ◌&&◌, not, Option, none, some,
  if◌then◌else◌, ltb, length, take, drop, codes, str_eq, str_leb, str_ltb, has_prefix, Result, ok,
  err,
}
use jaydb.Storage.{
  Object, KeyMeta, ListOptions, Error, not_found, version_mismatch, already_exists, other,
  match_any_etag,
}
use jaydb.Storage.Files.Paths.{clean, join_path, dir, rel, has_suffix, trim_suffix}

-- An error of the operating system, with its text: `os.IsNotExist` tells the first.
pub data OsError : Type 0 where
  not_exist : Str → OsError
  io : Str → OsError

-- What `filepath.Walk` visits.
pub record Visit : Type 0 where
  pub path : Str
  pub is_dir : Bool
  pub size : ℕ
  pub mod_time : ℕ

-- `os.ReadFile`, `os.Stat` with the time of the last change, `os.MkdirAll`, `os.WriteFile`,
-- `os.Rename`, `os.Remove`, and what `filepath.Walk` visits without an error.
pub record Os (D : Type 0) : Type 0 where
  pub read_file : Str → D → Result OsError Bytes
  pub stat : Str → D → Result OsError ℕ
  pub mkdir_all : Str → D → Option OsError × D
  pub write_file : Str → Bytes → D → Option OsError × D
  pub rename : Str → Str → D → Option OsError × D
  pub remove : Str → D → Option OsError × D
  pub walk : Str → D → List Visit

abbrev pub os_text : OsError → Str
os_text (not_exist t) = t
os_text (io t) = t

-- `fmt.Errorf("…: %w", err)`
abbrev pub wrapped : Str → OsError → Error
wrapped what e = other (what ++ (codes ": " ++ os_text e))

abbrev pub data_suffix : Str
data_suffix = codes ".data"

-- `keyToPath`
unfoldable pub key_to_path : Str → Str → Str
key_to_path root key = join_path root (clean key ++ data_suffix)

-- `sort.Slice` by the keys, of which no two are the same
unfoldable pub insert_meta : KeyMeta → List KeyMeta → List KeyMeta
insert_meta m [] = m ∷ []
insert_meta m (x ∷ xs) =
    let rest = insert_meta m xs in if str_ltb m.key x.key then m ∷ x ∷ xs else x ∷ rest

unfoldable pub sort_metas : List KeyMeta → List KeyMeta
sort_metas [] = []
sort_metas (m ∷ ms) = insert_meta m (sort_metas ms)

unfoldable pub last_key : List KeyMeta → Str
last_key [] = []
last_key (m ∷ []) = m.key
last_key (m ∷ n ∷ ms) = last_key (n ∷ ms)

module _ (show_int : ℕ → Str) where
  abbrev pub tmp_path : Str → ℕ → Str
  tmp_path path now = path ++ (codes ".tmp." ++ show_int now)

module _ (generate_etag : Bytes → ℕ → Str) where
  abbrev pub object_of : Str → Bytes → ℕ → Object
  object_of key value t = record {
    key = key;
    value = value;
    etag = generate_etag value t;
    mod_time = t;
    metadata = [];
  }

  module _ (show_int : ℕ → Str) {D : Type 0} (os : Os D) (root : Str) where
    open os use {read_file, stat, mkdir_all, write_file, rename, remove, walk}

    -- `NewDriver`: its error, or none
    abbrev pub new_driver : D → Option Error × D
    new_driver d =
        let (r, d') = mkdir_all root d in
        (
          elim r [
            | none ↦ none
            | some e ↦ some (wrapped (codes "fs storage: failed to create root dir") e)
          ],
          d',
        )

    unfoldable pub get : Str → D → Result Error (Option Object)
    get key d =
        let path = key_to_path root key in
        elim (read_file path d) [
          | err (not_exist t) ↦ err not_found
          | err (io t) ↦ err (wrapped (codes "fs storage read error") (io t))
          | ok value ↦ elim (stat path d) [
            | err e ↦ err (wrapped (codes "fs storage stat error") e)
            | ok t ↦ ok (some (object_of key value t))
          ]
        ]

    -- The comparison of the ETag in `Put`.
    abbrev pub compare_etag : Str → ℕ → Result OsError Bytes → Option Error
    compare_etag expected_etag t (err e) = some (wrapped (codes "fs storage read existing error") e)
    compare_etag expected_etag t (ok value) =
        if str_eq (generate_etag value t) expected_etag then none else some version_mismatch

    -- The checks of `Put`, by what `Stat` of the file returned.
    abbrev pub check_put : Str → Str → D → Result OsError ℕ → Option Error
    check_put expected_etag path d (err e) =
        if str_eq expected_etag []
        then none
        else if str_eq expected_etag match_any_etag
        then none
        else some not_found
    check_put expected_etag path d (ok t) =
        if str_eq expected_etag []
        then none
        else if str_eq expected_etag match_any_etag
        then some already_exists
        else compare_etag expected_etag t (read_file path d)

    -- `Put` behind the renaming
    abbrev pub placed : Str → Bytes → Str → D → Result Error (Option Object) × D
    placed key value path d = elim (stat path d) [
      | err e ↦ (err (wrapped (codes "fs storage stat new file error") e), d)
      | ok t ↦ (ok (some (object_of key value t)), d)
    ]

    -- `Put` behind the writing of the temporary file
    abbrev pub rename_into : Str → Bytes → Str → Str → D → Result Error (Option Object) × D
    rename_into key value path tmp d =
        let (r, d') = rename tmp path d in
        elim r [
          | some e ↦ (err (wrapped (codes "fs storage atomic rename error") e), (remove tmp d').1)
          | none ↦ placed key value path d'
        ]

    -- `Put` behind the directory
    abbrev pub write_into : Str → Bytes → Str → Str → D → Result Error (Option Object) × D
    write_into key value path tmp d =
        let (r, d') = write_file tmp value d in
        elim r [
          | some e ↦ (err (wrapped (codes "fs storage write temp file error") e), d')
          | none ↦ rename_into key value path tmp d'
        ]

    -- `Put` behind its checks
    abbrev pub put_file : Str → Bytes → ℕ → D → Result Error (Option Object) × D
    put_file key value now d =
        let path = key_to_path root key in
        let (r, d') = mkdir_all (dir path) d in
        elim r [
          | some e ↦ (err (wrapped (codes "fs storage mkdir error") e), d')
          | none ↦ write_into key value path (tmp_path show_int path now) d'
        ]

    unfoldable pub put : Str → Bytes → Str → ℕ → D → Result Error (Option Object) × D
    put key value expected_etag now d =
        let path = key_to_path root key in
        elim (check_put expected_etag path d (stat path d)) [
          | some e ↦ (err e, d)
          | none ↦ put_file key value now d
        ]

    -- The comparison of the ETag in `Delete`.
    abbrev pub check_delete : Str → ℕ → Result OsError Bytes → Option Error
    check_delete expected_etag t value =
        if not (str_eq expected_etag []) && not (str_eq expected_etag match_any_etag)
        then elim value [
          | err e ↦ some (wrapped (codes "fs storage read delete error") e)
          | ok b ↦ if str_eq (generate_etag b t) expected_etag then none else some version_mismatch
        ]
        else none

    abbrev pub removed : Option OsError × D → Option Error × D
    removed (none, d) = (none, d)
    removed (some (not_exist t), d) = (none, d)
    removed (some (io t), d) = (some (wrapped (codes "fs storage remove file error") (io t)), d)

    unfoldable pub delete : Str → Str → D → Option Error × D
    delete key expected_etag d =
        let path = key_to_path root key in
        elim (stat path d) [
          | err (not_exist t) ↦ (some not_found, d)
          | err (io t) ↦ (some (wrapped (codes "fs storage stat delete error") (io t)), d)
          | ok t ↦ elim (check_delete expected_etag t (read_file path d)) [
            | some e ↦ (some e, d)
            | none ↦ removed (remove path d)
          ]
        ]

    -- The key of a visited file, if `List` wants it.
    abbrev pub listed_key : Str → Str → Visit → Option Str
    listed_key prefix cursor v =
        let key = trim_suffix (rel root v.path) data_suffix in
        if v.is_dir
        then none
        else if not (has_suffix v.path data_suffix)
        then none
        else if not (has_prefix key prefix)
        then none
        else if not (str_eq cursor []) && str_leb key cursor
        then none
        else some key

    -- The callback of `Walk`: what one visit adds to the results.
    unfoldable pub visit : Str → Str → D → Visit → List KeyMeta → List KeyMeta
    visit prefix cursor d v results = elim (listed_key prefix cursor v) [
      | none ↦ results
      | some key ↦ elim (read_file v.path d) [
        | err e ↦ results
        | ok value ↦
            results
            ++ (record {
              key = key;
              size = v.size;
              etag = generate_etag value v.mod_time;
              mod_time = v.mod_time;
            }
                ∷ [])
      ]
    ]

    unfoldable pub visit_all : Str → Str → D → List Visit → List KeyMeta → List KeyMeta
    visit_all prefix cursor d [] results = results
    visit_all prefix cursor d (v ∷ vs) results =
        visit_all prefix cursor d vs (visit prefix cursor d v results)

    -- `List`; the delimiter of the options is not read, and the callback returns no error.
    unfoldable pub list : Str → ListOptions → D → List KeyMeta × Str
    list prefix opts d =
        let results = sort_metas (visit_all prefix opts.cursor d (walk root d) []) in
        if ltb 0 opts.limit && ltb opts.limit (length results)
        then (take opts.limit results, last_key (take opts.limit results))
        else (results, [])
