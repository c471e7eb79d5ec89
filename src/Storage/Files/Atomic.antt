-- ===== src/Storage/Files/Atomic.antt =====
-- A `Put` of the driver on files, whatever the operating system refuses.
use jaydb.Base.{
  ℕ, ◌⊎◌, ◌≡◌, refl, ap, ◌∙◌, inl, inr, ◌++◌, Str, Bytes, false, Option, none, some, length,
  length-append, arith, codes, str_eq, eq_of_str_eq, Result, ok, err, Bool-cases, Option-cases,
  Result-cases,
}
use jaydb.Storage.{Object, Error}
use jaydb.Storage.Files.{
  Os, OsError, key_to_path, tmp_path, object_of, put, check_put, placed, rename_into, write_into,
  put_file,
}
use jaydb.Storage.Files.Paths.{dir}

-- What files the operating system keeps, each with its content and the time of its last change, and
-- what its calls do to them. Each call may fail, and one that fails may have changed the file that it writes; a renaming
-- that fails has changed nothing.
pub record IsFileSystem {D : Type 0} (os : Os D) (content : Str → D → Option (Bytes × ℕ))
    : Type 0 where
  pub read_content :
      (p : Str) (d : D) (b : Bytes) (t : ℕ)
      → os.read_file p d ≡ ok b
      → os.stat p d ≡ ok t
      → content p d ≡ some (b, t)
  pub stat_content :
      (p : Str) (d : D) (b : Bytes) (t u : ℕ)
      → content p d ≡ some (b, t)
      → os.stat p d ≡ ok u
      → u ≡ t
  pub mkdir_all_keeps : (p q : Str) (d : D) → content q (os.mkdir_all p d).1 ≡ content q d
  pub write_file_writes :
      (p : Str) (b : Bytes) (d : D)
      → (os.write_file p b d).0 ≡ none
      → (t : ℕ) × (content p (os.write_file p b d).1 ≡ some (b, t))
  pub write_file_keeps :
      (p : Str) (b : Bytes) (q : Str) (d : D)
      → str_eq p q ≡ false
      → content q (os.write_file p b d).1 ≡ content q d
  pub rename_moves :
      (p q : Str) (d : D) → (os.rename p q d).0 ≡ none → content q (os.rename p q d).1 ≡ content p d
  pub rename_keeps :
      (p q r : Str) (d : D)
      → str_eq p r ≡ false
      → str_eq q r ≡ false
      → content r (os.rename p q d).1 ≡ content r d
  pub rename_fails :
      (p q r : Str) (d : D) (e : OsError)
      → (os.rename p q d).0 ≡ some e
      → content r (os.rename p q d).1 ≡ content r d
  pub remove_keeps :
      (p q : Str) (d : D) → str_eq p q ≡ false → content q (os.remove p d).1 ≡ content q d

-- What a `Put` may do to the files: the key's file is as it was or has the new value at once, and
-- every other file but the temporary one is as it was. One that succeeds returns what the file has.
pub record Placed {D : Type 0} (generate_etag : Bytes → ℕ → Str)
    (content : Str → D → Option (Bytes × ℕ)) (key : Str) (value : Bytes) (path tmp : Str) (d d' : D)
    (r : Result Error (Option Object)) : Type 0 where
  pub others : (q : Str) → str_eq tmp q ≡ false → str_eq path q ≡ false → content q d' ≡ content q d
  pub whole : (content path d' ≡ content path d) ⊎ ((t : ℕ) × (content path d' ≡ some (value, t)))
  pub succeeded :
      (o : Option Object)
      → r ≡ ok o
      → (t : ℕ) × (content path d' ≡ some (value, t))
        × (o ≡ some (object_of generate_etag key value t))

same_object : (a b : Option Object) (r : Result Error (Option Object)) → r ≡ ok a → r ≡ ok b → a ≡ b
same_object a b r h k = cc

module _ (generate_etag : Bytes → ℕ → Str) (show_int : ℕ → Str) {D : Type 0} (os : Os D)
    (root : Str) (content : Str → D → Option (Bytes × ℕ)) (v : IsFileSystem os content) (key : Str)
    (value : Bytes) (path tmp : Str) (apart : str_eq tmp path ≡ false) (d : D) where
  -- Nothing but the temporary file has changed so far.
  abbrev Spared : D → Type 0
  Spared d' = (q : Str) → str_eq tmp q ≡ false → content q d' ≡ content q d

  failed-Placed :
      (d' : D) (e : Error)
      → Spared d'
      → Placed generate_etag content key value path tmp d d' (err e)
  failed-Placed d' e s = record {
    others = λ q t p. s q t;
    whole = inl (s path apart);
    succeeded = λ o x. cc;
  }

  placed-Placed :
      (d' : D) (t : ℕ)
      → content path d' ≡ some (value, t)
      → ((q : Str) → str_eq tmp q ≡ false → str_eq path q ≡ false → content q d' ≡ content q d)
      → Placed generate_etag content key value path tmp d
          (placed generate_etag show_int os root key value path d').1
          (placed generate_etag show_int os root key value path d').0
  placed-Placed d' t c s = elim (Result-cases (os.stat path d')) [
    | inl (u, h) ↦
        rw (placed, h)
          (record {
            others = s;
            whole = inr (t, c);
            succeeded = λ o x. (
              t,
              c,
              same_object o (some (object_of generate_etag key value u)) _ x refl
                  ∙ ap (λ n. some (object_of generate_etag key value n))
                      (v.stat_content path d' value t u c h),
            );
          })
    | inr (e, h) ↦ rw (placed, h) (record { others = s; whole = inr (t, c); succeeded = λ o x. cc })
  ]

  -- A renaming of the written file, which the state `d` has led to.
  rename_into-Placed :
      (d' : D) (t : ℕ)
      → Spared d'
      → content tmp d' ≡ some (value, t)
      → Placed generate_etag content key value path tmp d
          (rename_into generate_etag show_int os root key value path tmp d').1
          (rename_into generate_etag show_int os root key value path tmp d').0
  rename_into-Placed d' t s c = elim (Option-cases (os.rename tmp path d').0) [
    | inl h ↦
        rw (rename_into, h)
          (placed-Placed (os.rename tmp path d').1 t (v.rename_moves tmp path d' h ∙ c)
            (λ q a b. v.rename_keeps tmp path q d' a b ∙ s q a))
    | inr (e, h) ↦
        rw (rename_into, h)
          (failed-Placed (os.remove tmp (os.rename tmp path d').1).1 _ (λ q a.
            v.remove_keeps tmp q (os.rename tmp path d').1 a
            ∙ v.rename_fails tmp path q d' e h
            ∙ s q a))
  ]

  write_into-Placed :
      (d' : D)
      → Spared d'
      → Placed generate_etag content key value path tmp d
          (write_into generate_etag show_int os root key value path tmp d').1
          (write_into generate_etag show_int os root key value path tmp d').0
  write_into-Placed d' s =
      let kept =
        λ (q : Str) (a : str_eq tmp q ≡ false). v.write_file_keeps tmp value q d' a ∙ s q a in
      elim (Option-cases (os.write_file tmp value d').0) [
        | inl h ↦
            let (t, c) = v.write_file_writes tmp value d' h in
            rw (write_into, h) (rename_into-Placed (os.write_file tmp value d').1 t kept c)
        | inr (e, h) ↦ rw (write_into, h) (failed-Placed (os.write_file tmp value d').1 _ kept)
      ]

-- The temporary file has a name that is longer than the key's.
tmp_path-apart :
    (show_int : ℕ → Str) (path : Str) (now : ℕ) → str_eq (tmp_path show_int path now) path ≡ false
tmp_path-apart show_int path now = elim (Bool-cases (str_eq (tmp_path show_int path now) path)) [
  | inr e ↦ e
  | inl e ↦
      let l = ap length (eq_of_str_eq (tmp_path show_int path now) path e) in
      let k = length-append path (codes ".tmp." ++ show_int now) in ground (arith, l, k)
]

module _ (generate_etag : Bytes → ℕ → Str) (show_int : ℕ → Str) {D : Type 0} (os : Os D)
    (root : Str) (content : Str → D → Option (Bytes × ℕ)) where
  -- `Put` behind its checks.
  put_file-Placed :
      (v : IsFileSystem os content) (key : Str) (value : Bytes) (now : ℕ) (d : D)
      → Placed generate_etag content key value
          (key_to_path root key)
          (tmp_path show_int (key_to_path root key) now)
          d
          (put_file generate_etag show_int os root key value now d).1
          (put_file generate_etag show_int os root key value now d).0
  put_file-Placed v key value now d =
      let path = key_to_path root key in
      let tmp = tmp_path show_int path now in
      let a = tmp_path-apart show_int path now in
      let made = (os.mkdir_all (dir path) d).1 in
      let kept = λ (q : Str) (a : str_eq tmp q ≡ false). v.mkdir_all_keeps (dir path) q d in
      elim (Option-cases (os.mkdir_all (dir path) d).0) [
        | inl h ↦
            rw (put_file, h)
              (write_into-Placed generate_etag show_int os root content v key value path tmp a d
                made kept)
        | inr (e, h) ↦
            rw (put_file, h)
              (failed-Placed generate_etag show_int os root content v key value path tmp a d made _
                kept)
      ]

-- A `Put`, whatever the operating system refuses and whatever ETag is expected, leaves the key's file
-- as it was or with the whole new value, never in between, and changes no other file but the
-- temporary one. If it succeeds, the file has the new value, and the object that it returns is that
-- value under the ETag of the file's time.
pub put-Placed :
    (generate_etag : Bytes → ℕ → Str) (show_int : ℕ → Str) {D : Type 0} (os : Os D) (root : Str)
    (content : Str → D → Option (Bytes × ℕ)) (key : Str) (value : Bytes) (expected_etag : Str)
    (now : ℕ) (d : D)
    → IsFileSystem os content
    → Placed generate_etag content key value
        (key_to_path root key)
        (tmp_path show_int (key_to_path root key) now)
        d
        (put generate_etag show_int os root key value expected_etag now d).1
        (put generate_etag show_int os root key value expected_etag now d).0
unfolding put
put-Placed generate_etag show_int os root content key value expected_etag now d v =
    let path = key_to_path root key in
    let tmp = tmp_path show_int path now in
    let a = tmp_path-apart show_int path now in
    elim (Option-cases
      (check_put generate_etag show_int os root expected_etag path d (os.stat path d))) [
        | inr (e, h) ↦
            rw (put, h)
              (failed-Placed generate_etag show_int os root content v key value path tmp a d d e
                (λ q k. refl))
        | inl h ↦
            rw (put, h) (put_file-Placed generate_etag show_int os root content v key value now d)
      ]
