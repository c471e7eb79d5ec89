-- ===== src/Storage/Memory/Writes.antt =====
-- What the writes of the memory driver do to what is read, on every branch of their checks.
use jaydb.Base.{
  ℕ, ◌≡◌, refl, ◌∙◌, sym, ap, inl, inr, Str, Bytes, [], Bool, true, false, ◌&&◌, ◌||◌, not, Option,
  none, some, arith, if◌then◌else◌, lookup, insert, erase, lookup-insert, lookup-erase, is_some,
  eq_of_str_eq, ◌⊎◌, str_eq, Result, ok, err, Option-cases, Bool-cases,
}
use jaydb.Storage.{Object, Error, not_found, version_mismatch, already_exists, match_any_etag}
use jaydb.Storage.Memory.{Entry, Data, get, put, delete, check_put, object_at, read_at, new_entry}

-- Whether a write with this ETag may replace what is there: always with none, only what is not
-- there with `*`, and else only the object with this ETag.
abbrev pub allows_put : Str → Result Error Object → Bool
allows_put expected_etag (ok o) =
    str_eq expected_etag []
    || (not (str_eq expected_etag match_any_etag) && str_eq o.etag expected_etag)
allows_put expected_etag (err e) = str_eq expected_etag [] || str_eq expected_etag match_any_etag

abbrev pub allows_delete : Str → Result Error Object → Bool
allows_delete expected_etag (ok o) =
    str_eq expected_etag [] || (str_eq expected_etag match_any_etag || str_eq o.etag expected_etag)
allows_delete expected_etag (err e) = false

abbrev pub is_ok : {A : Type 0} → Result Error A → Bool
is_ok (ok a) = true
is_ok (err e) = false

-- How `Get` reads the map after a write.
read_lem : (k : Str) (m : Data) (o : Option Entry) → lookup k m ≡ o → get k m ≡ read_at k o
unfolding get
read_lem k m o h = ap (read_at k) h

get-same : (k : Str) (m m' : Data) → lookup k m' ≡ lookup k m → get k m' ≡ get k m
unfolding get
get-same k m m' h = ap (read_at k) h

pub get-insert :
    (key k : Str) (e : Entry) (m : Data)
    → get k (insert key e m) ≡ (if str_eq key k then ok (object_at key e) else get k m)
get-insert key k e m = elim (Bool-cases (str_eq key k)) [
  | inl q ↦
      let same = eq_of_str_eq key k q in
      rw q (
        read_lem k (insert key e m) (some e) (lookup-insert key k e m ∙ rw q refl)
        ∙ ap (λ (j : Str). ok (object_at j e)) (sym same))
  | inr q ↦ rw q (get-same k m (insert key e m) (lookup-insert key k e m ∙ rw q refl))
]

pub get-erase :
    (key k : Str) (m : Data)
    → get k (erase key m) ≡ (if str_eq key k then err not_found else get k m)
get-erase key k m = elim (Bool-cases (str_eq key k)) [
  | inl q ↦ rw q (read_lem k (erase key m) none (lookup-erase key k m ∙ rw q refl))
  | inr q ↦ rw q (get-same k m (erase key m) (lookup-erase key k m ∙ rw q refl))
]

-- The checks pass exactly if the write is allowed.
check_put_lem :
    (etag key : Str) (m : Data)
    → ((check_put etag (lookup key m) ≡ none) × (allows_put etag (get key m) ≡ true))
      ⊎ ((e : Error) × (check_put etag (lookup key m) ≡ some e)
          × (allows_put etag (get key m) ≡ false))
unfolding get
check_put_lem etag key m = by_tests (lookup key m)
  where
    by_tests :
        (o : Option Entry)
        → ((check_put etag o ≡ none) × (allows_put etag (read_at key o) ≡ true))
          ⊎ ((e : Error) × (check_put etag o ≡ some e) × (allows_put etag (read_at key o) ≡ false))
    by_tests none = elim (Bool-cases (str_eq etag [])) [
      | inl a ↦ inl (rw a refl, rw a refl)
      | inr a ↦ elim (Bool-cases (str_eq etag match_any_etag)) [
        | inl b ↦ inl (rw (a, b) refl, rw (a, b) refl)
        | inr b ↦ inr (not_found, rw (a, b) refl, rw (a, b) refl)
      ]
    ]
    by_tests (some e) = elim (Bool-cases (str_eq etag [])) [
      | inl a ↦ inl (rw a refl, rw a refl)
      | inr a ↦ elim (Bool-cases (str_eq etag match_any_etag)) [
        | inl b ↦ inr (already_exists, rw (a, b) refl, rw (a, b) refl)
        | inr b ↦ elim (Bool-cases (str_eq e.etag etag)) [
          | inl c ↦ inl (rw (a, b, c) refl, rw (a, b, c) refl)
          | inr c ↦ inr (version_mismatch, rw (a, b, c) refl, rw (a, b, c) refl)
        ]
      ]
    ]

module _ (generate_etag : Bytes → ℕ → Str) where
  -- `Put` succeeds exactly if its ETag allows that against what `Get` would return. Then `Get` of
  -- the key returns the object that `Put` returned, with the new value, and every other key reads
  -- as before; a `Put` that fails changes nothing.
  pub put_lem :
      (key : Str) (value : Bytes) (expected_etag : Str) (now : ℕ) (entries : Data)
      → (is_ok (put generate_etag key value expected_etag now entries).0
          ≡ allows_put expected_etag (get key entries))
        × ((k : Str)
            → get k (put generate_etag key value expected_etag now entries).1 ≡ (
                if str_eq key k && allows_put expected_etag (get key entries)
                then ok (object_at key (new_entry generate_etag value now))
                else get k entries))
        × (allows_put expected_etag (get key entries) ≡ true
            → (put generate_etag key value expected_etag now entries).0
              ≡ ok (object_at key (new_entry generate_etag value now)))
  unfolding put
  put_lem key value expected_etag now entries = elim (check_put_lem expected_etag key entries) [
    | inl (c, a) ↦
        rw (c, put, a)
          (
            refl,
            (λ k. get-insert key k (new_entry generate_etag value now) entries ∙ ground arith),
            λ h. refl,
          )
    | inr (e, c, a) ↦ rw (c, put, a) (refl, (λ k. ground arith), λ h. cc)
  ]

-- `Delete` succeeds exactly if `Get` finds the key and its ETag is the one given, where one other
-- than `*` is given. Then the key is not found any more, and every other key reads as before; a
-- `Delete` that fails changes nothing.
pub delete_lem :
    (key expected_etag : Str) (entries : Data)
    → (is_some (delete key expected_etag entries).0
        ≡ not (allows_delete expected_etag (get key entries)))
      × ((k : Str)
          → get k (delete key expected_etag entries).1 ≡ (
              if str_eq key k && allows_delete expected_etag (get key entries)
              then err not_found
              else get k entries))
unfolding delete
delete_lem key expected_etag entries = elim (Option-cases (lookup key entries)) [
  | inl q ↦ rw (q, delete, read_lem key entries none q) (refl, λ k. ground arith)
  | inr (e, q) ↦ elim (Bool-cases (allows_delete expected_etag (ok (object_at key e)))) [
    | inl a ↦
        rw (q, delete, refused_iff expected_etag key e, a, read_lem key entries (some e) q, a)
          (refl, λ k. get-erase key k entries ∙ ground arith)
    | inr a ↦
        rw (q, delete, refused_iff expected_etag key e, a, read_lem key entries (some e) q, a)
          (refl, λ k. ground arith)
  ]
]
  where
    refused_iff :
        (etag key : Str) (e : Entry)
        → (not (str_eq etag []) && (not (str_eq etag match_any_etag) && not (str_eq e.etag etag)))
          ≡ not (allows_delete etag (ok (object_at key e)))
    refused_iff etag key e = ground arith
