-- ===== src/Storage/S3/Conditional.antt =====
-- A conditional write through the driver on S3, under an ETag that the driver has returned.
use jaydb.Base.{
  ℕ, ◌≡◌, refl, sym, ap, ◌∙◌, inl, inr, ◌⊎◌, ◌==◌, [], ◌∷◌, ◌++◌, Str, Bytes, false, Option, none,
  some, All, codes, str_eq, eq_of_str_eq, Result, ok, err, Bool-cases, Result-cases,
}
use jaydb.Storage.{Object, Error, not_found, version_mismatch, other, match_any_etag}
use jaydb.Storage.S3.{
  Client, ClientError, api, GetOutput, quote, quoted, before_rest, trim_quotes_left,
  trim_quotes_right, normal_etag, etag_of, resolve_key, put_input, got, get, put, is_missing,
  failed, or_now,
}

-- A text without a quote in it.
abbrev pub IsPlain : Str → Type 0
IsPlain x = All (λ (c : ℕ). (c == quote) ≡ false) x

trim_right-quoted : (x : Str) → IsPlain x → trim_quotes_right (x ++ (quote ∷ [])) ≡ x
unfolding trim_quotes_right
trim_right-quoted [] h = refl
trim_right-quoted (c ∷ cs) h = ap (before_rest c) (trim_right-quoted cs h.1) ∙ kept cs
  where
    kept : (ys : Str) → before_rest c ys ≡ c ∷ ys
    kept [] = rw h.0 refl
    kept (y ∷ ys) = refl

trim_left-plain :
    (x : Str) → IsPlain x → trim_quotes_right (trim_quotes_left (x ++ (quote ∷ []))) ≡ x
unfolding trim_quotes_left trim_quotes_right
trim_left-plain [] h = refl
trim_left-plain (c ∷ cs) h = rw h.0 (trim_right-quoted (c ∷ cs) h)

-- An ETag in quotes is left as it is.
normal_etag-quoted : (x : Str) → IsPlain x → normal_etag (quoted x) ≡ quoted x
unfolding trim_quotes_left
normal_etag-quoted x h = ap quoted (trim_left-plain x h)

-- What the store keeps under a key is the ETag of its object, in quotes. `GetObject` gives it, and a
-- `PutObject` with an If-Match that is not the ETag there fails with the precondition.
pub record IsStore {D : Type 0} (client : Client D) (etag_at : Str → D → Option Str) : Type 0 where
  pub get_etag :
      (key : Str) (d : D) (out : GetOutput)
      → client.get_object key d ≡ ok out
      → (x : Str) × (out.etag ≡ some (quoted x)) × (etag_at key d ≡ some (quoted x)) × IsPlain x
  pub put_compares :
      (key : Str) (body : Bytes) (m e : Str) (d : D)
      → etag_at key d ≡ some e
      → str_eq e m ≡ false
      → (t : Str) × ((client.put_object
            (record { key = key; body = body; if_none_match = none; if_match = some m })
            d).0
          ≡ err (api (codes "PreconditionFailed") t))

no_answer : (e : Error) (o : Option Object) → ¬ (err e ≡ ok o)
no_answer e o h = cc

same_answer :
    (a b : Object) (r : Result Error (Option Object)) → r ≡ ok (some a) → r ≡ ok (some b) → a ≡ b
same_answer a b r h k = cc

module _ (quote_text : Str → Str) {D : Type 0} (client : Client D) (prefix : Str)
    (etag_at : Str → D → Option Str) (v : IsStore client etag_at) (key : Str) where
  abbrev object_got : ℕ → GetOutput → Bytes → Object
  object_got now out value = record {
    key = key;
    value = value;
    etag = etag_of out.etag;
    mod_time = or_now now out.last_modified;
    metadata = [];
  }

  got-etag :
      (now : ℕ) (r : Result ClientError GetOutput) (o : Object)
      → got quote_text client prefix key now r ≡ ok (some o)
      → (out : GetOutput) × (r ≡ ok out) × (o.etag ≡ etag_of out.etag)
  got-etag now (err e) o h = elim (Bool-cases (is_missing e)) [
    | inl m ↦ absurd (no_answer not_found (some o) (sym (rw (got, m) refl) ∙ h))
    | inr m ↦
        absurd (no_answer (failed (codes "s3 get failed") e) (some o) (sym (rw (got, m) refl) ∙ h))
  ]
  got-etag now (ok out) o h = elim (Result-cases out.body) [
    | inr (t, b) ↦ absurd (
        no_answer (other (codes "s3 read body failed: " ++ t)) (some o)
          (sym (rw (got, b) refl) ∙ h))
    | inl (value, b) ↦ (
      out,
      refl,
      ap (λ (z : Object). z.etag)
          (same_answer o (object_got now out value) (got quote_text client prefix key now (ok out))
            h (rw (got, b) refl)),
    )
  ]

  -- What `Get` returns has the ETag of the store.
  get-etag_at :
      (now : ℕ) (d : D) (o : Object)
      → get quote_text client prefix key now d ≡ ok (some o)
      → (x : Str) × (o.etag ≡ quoted x)
        × (etag_at (resolve_key prefix key) d ≡ some (quoted x))
        × IsPlain x
  unfolding get
  get-etag_at now d o h =
      let (out, g, e) = got-etag now (client.get_object (resolve_key prefix key) d) o h in
      let (x, p, q, n) = v.get_etag (resolve_key prefix key) d out g in
      (x, e ∙ ap etag_of p ∙ normal_etag-quoted x n, q, n)

  put-rejected :
      (value : Bytes) (expected_etag : Str) (now : ℕ) (d : D) (t : Str)
      → str_eq expected_etag match_any_etag ≡ false
      → (client.put_object (put_input (resolve_key prefix key) value expected_etag) d).0
        ≡ err (api (codes "PreconditionFailed") t)
      → (put quote_text client prefix key value expected_etag now d).0 ≡ err version_mismatch
  unfolding put str_eq
  put-rejected value expected_etag now d t m p = rw (put, p, m) refl

  -- A precondition that fails is a version mismatch.
  put-mismatch :
      (value : Bytes) (now : ℕ) (d : D) (x e : Str)
      → IsPlain x
      → etag_at (resolve_key prefix key) d ≡ some e
      → str_eq e (quoted x) ≡ false
      → (put quote_text client prefix key value (quoted x) now d).0 ≡ err version_mismatch
  unfolding str_eq
  put-mismatch value now d x e n a m =
      let s3_key = resolve_key prefix key in
      let (t, p) = v.put_compares s3_key value (quoted x) e d a m in
      put-rejected value (quoted x) now d t refl (
        ap
          (λ (z : Str).
            (client.put_object
              (record { key = s3_key; body = value; if_none_match = none; if_match = some z }) d).0)
          (normal_etag-quoted x n)
        ∙ p)

  -- No lost update: a `Put` under the ETag that a `Get` returned fails with a version mismatch, unless
  -- the object that the store has by then has the ETag that it had when the `Get` read it.
  pub put-unchanged :
      (value : Bytes) (read written : ℕ) (d d' : D) (o : Object) (e : Str)
      → get quote_text client prefix key read d ≡ ok (some o)
      → etag_at (resolve_key prefix key) d' ≡ some e
      → (etag_at (resolve_key prefix key) d' ≡ etag_at (resolve_key prefix key) d)
        ⊎ ((put quote_text client prefix key value o.etag written d').0 ≡ err version_mismatch)
  put-unchanged value read written d d' o e h a =
      let (x, p, q, n) = get-etag_at read d o h in
      elim (Bool-cases (str_eq e (quoted x))) [
        | inl s ↦ inl (a ∙ ap (λ z. some z) (eq_of_str_eq e (quoted x) s) ∙ sym q)
        | inr s ↦ inr (
            ap (λ z. (put quote_text client prefix key value z written d').0) p
            ∙ put-mismatch value written d' x e n a s)
      ]
