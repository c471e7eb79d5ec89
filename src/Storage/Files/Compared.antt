-- ===== src/Storage/Files/Compared.antt =====
-- What `Put` of the driver on files returns, against `Get` before it and after it.
use jaydb.Base.{
  ℕ, ◌≡◌, refl, sym, ap, ◌∙◌, inl, inr, [], Str, Bytes, false, Option, some, codes, str_eq,
  eq_of_str_eq, Result, ok, err, Bool-cases, Result-cases,
}
use jaydb.Storage.{Object, Error, not_found, version_mismatch, match_any_etag}
use jaydb.Storage.Files.{
  Os, OsError, not_exist, io, key_to_path, object_of, get, put, check_put, compare_etag, wrapped,
}
use jaydb.Storage.Files.Atomic.{IsFileSystem, put-Placed}

no_object : (e : Error) (o : Option Object) → ¬ (err e ≡ ok o)
no_object e o h = cc

same_file : (x y : Bytes × ℕ) → some x ≡ some y → x ≡ y
same_file x y h = cc

same_object : (a o : Option Object) (r : Result Error (Option Object)) → r ≡ ok o → r ≡ ok a → o ≡ a
same_object a o r h k = cc

module _ (generate_etag : Bytes → ℕ → Str) (show_int : ℕ → Str) {D : Type 0} (os : Os D)
    (root : Str) (content : Str → D → Option (Bytes × ℕ)) (v : IsFileSystem os content)
    (key : Str) where
  get-unread :
      (d : D) (e : OsError)
      → os.read_file (key_to_path root key) d ≡ err e
      → (x : Error) × (get generate_etag show_int os root key d ≡ err x)
  unfolding get
  get-unread d (not_exist t) r = (not_found, rw (get, r) refl)
  get-unread d (io t) r = (wrapped (codes "fs storage read error") (io t), rw (get, r) refl)

  get-unknown :
      (d : D) (b : Bytes) (e : OsError)
      → os.read_file (key_to_path root key) d ≡ ok b
      → os.stat (key_to_path root key) d ≡ err e
      → get generate_etag show_int os root key d ≡ err (wrapped (codes "fs storage stat error") e)
  unfolding get
  get-unknown d b e r s = rw (get, r, s) refl

  get-found :
      (d : D) (b : Bytes) (t : ℕ)
      → os.read_file (key_to_path root key) d ≡ ok b
      → os.stat (key_to_path root key) d ≡ ok t
      → get generate_etag show_int os root key d ≡ ok (some (object_of generate_etag key b t))
  unfolding get
  get-found d b t r s = rw (get, r, s) refl

  -- What `Get` returns is what the key's file has.
  pub get-content :
      (d : D) (o : Option Object)
      → get generate_etag show_int os root key d ≡ ok o
      → (b : Bytes) × (t : ℕ) × (content (key_to_path root key) d ≡ some (b, t))
        × (o ≡ some (object_of generate_etag key b t))
  unfolding get
  get-content d o h = elim (Result-cases (os.read_file (key_to_path root key) d)) [
    | inr (e, r) ↦ let (x, g) = get-unread d e r in absurd (no_object x o (sym g ∙ h))
    | inl (b, r) ↦ elim (Result-cases (os.stat (key_to_path root key) d)) [
      | inr (e, s) ↦ absurd (
          no_object (wrapped (codes "fs storage stat error") e) o (sym (get-unknown d b e r s) ∙ h))
      | inl (t, s) ↦ (
        b,
        t,
        v.read_content (key_to_path root key) d b t r s,
        same_object (some (object_of generate_etag key b t)) o _ h (get-found d b t r s),
      )
    ]
  ]

  put-refused :
      (value : Bytes) (expected_etag : Str) (now : ℕ) (d : D) (e : Error) (o : Option Object)
      → check_put generate_etag show_int os root expected_etag
          (key_to_path root key)
          d
          (os.stat (key_to_path root key) d)
        ≡ some e
      → ¬ ((put generate_etag show_int os root key value expected_etag now d).0 ≡ ok o)
  unfolding put
  put-refused value expected_etag now d e o c = rw (put, c) (no_object e o)

  -- A `Put` that succeeds with an ETag other than `*` found the key, under that ETag.
  pub put-compared :
      (value : Bytes) (expected_etag : Str) (now : ℕ) (d : D) (o : Option Object)
      → str_eq expected_etag [] ≡ false
      → str_eq expected_etag match_any_etag ≡ false
      → (put generate_etag show_int os root key value expected_etag now d).0 ≡ ok o
      → (b : Bytes) × (t : ℕ) × (get generate_etag show_int os root key d
          ≡ ok (some (object_of generate_etag key b t)))
        × (generate_etag b t ≡ expected_etag)
  unfolding put
  put-compared value expected_etag now d o n m h =
      let path = key_to_path root key in
      elim (Result-cases (os.stat path d)) [
        | inr (e, s) ↦
            absurd
              (put-refused value expected_etag now d not_found o (rw (s, check_put, n, m) refl) h)
        | inl (t, s) ↦ elim (Result-cases (os.read_file path d)) [
          | inr (e, r) ↦ absurd (
              put-refused value expected_etag now d
                (wrapped (codes "fs storage read existing error") e) o
                (rw (s, check_put, n, m, r) refl) h)
          | inl (b, r) ↦ elim (Bool-cases (str_eq (generate_etag b t) expected_etag)) [
            | inr q ↦ absurd (
                put-refused value expected_etag now d version_mismatch o
                  (rw (s, check_put, n, m, r, compare_etag, q) refl) h)
            | inl q ↦ (b, t, get-found d b t r s, eq_of_str_eq (generate_etag b t) expected_etag q)
          ]
        ]
      ]

  -- After a `Put` that succeeds, a `Get` of the key that succeeds returns the object that the `Put`
  -- returned, with its value, its ETag and its time.
  pub get-put :
      (value : Bytes) (expected_etag : Str) (now : ℕ) (d : D) (o o' : Option Object)
      → (put generate_etag show_int os root key value expected_etag now d).0 ≡ ok o
      → get generate_etag show_int os root key
          (put generate_etag show_int os root key value expected_etag now d).1
        ≡ ok o'
      → (o' ≡ o) × ((t : ℕ) × (o ≡ some (object_of generate_etag key value t)))
  get-put value expected_etag now d o o' h g =
      let p = put-Placed generate_etag show_int os root content key value expected_etag now d v in
      let (t, c, e) = p.succeeded o h in
      let (b, u, k, e') =
        get-content (put generate_etag show_int os root key value expected_etag now d).1 o' g in
      let whole = same_file (b, u) (value, t) (sym k ∙ c) in
      (e' ∙ ap (λ x. some (object_of generate_etag key x.0 x.1)) whole ∙ sym e, (t, e))
