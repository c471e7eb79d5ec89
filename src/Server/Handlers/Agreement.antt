-- ===== src/Server/Handlers/Agreement.antt =====
-- The handlers that forward a request reply as the owner's handlers do.
use jaydb.Base.{
  ◌≡◌, refl, sym, ap, ◌∙◌, inl, inr, [], ◌++◌, Str, Bytes, false, ◌||◌, Option, none, some,
  if◌then◌else◌, str_eq, eq_of_str_eq, Result, ok, err, codes, Bool-cases,
}
use jaydb.Storage.{Object, Error, not_found, already_exists, version_mismatch, other, error_text}
use jaydb.Cluster.Binary.Write.{Resp}
use jaydb.Cluster.Mesh.{answer_object, answer_delete, no_object_text, error_resp}
use jaydb.Cluster.Binary.RoundTrip.Response.{received}
use jaydb.Db.{Meta, meta_of}
use jaydb.Db.Answers.{DbError, storage}
use jaydb.Db.Forwarding.{
  IsApart, IsApartAnswer, IsApartDelete, as_text, delete_text, over_wire, written_as, deleted_as,
  received-error, error_text-some,
}
use jaydb.Server.{Request, Reply, failed, Formats}
use jaydb.Server.Handlers.{
  Answer, cas_text, document_not_found, respond_get, respond_put, respond_delete, forwarded_get,
  forwarded_put, forwarded_delete, option_etag, forwarded_etag,
}

-- What the owner's `Get` into a byte slice returns, where its cache returns `x`.
abbrev pub read_raw : Result Error (Option Object) → Result DbError (Meta × Bytes)
read_raw (err e) = err (storage e)
read_raw (ok none) = err (storage not_found)
read_raw (ok (some o)) = ok (meta_of o, o.value)

pub option_etag-forwarded_etag : (r : Request) → option_etag r ≡ forwarded_etag r
option_etag-forwarded_etag r = elim (Bool-cases (str_eq r.if_none_match (codes "*"))) [
  | inl e ↦ rw e refl
  | inr e ↦ elim (Bool-cases (str_eq r.if_match [])) [
    | inl m ↦ rw (e, m) (sym (eq_of_str_eq r.if_match [] m))
    | inr m ↦ rw (e, m) refl
  ]
]

module _ (f : Formats) where
  get_error :
      (t : Str)
      → str_eq t [] ≡ false
      → (forwarded_get f (ok (error_resp t))).0
        ≡ (if str_eq t (error_text not_found) then document_not_found else failed 500 t)
  unfolding forwarded_get
  get_error t h = rw (forwarded_get, h) refl

  put_error :
      (body : Bytes) (t : Str)
      → str_eq t [] ≡ false
      → (forwarded_put f body (ok (error_resp t))).0 ≡ (
          if str_eq t (error_text version_mismatch) || str_eq t (error_text already_exists)
          then failed 412 (cas_text ++ t)
          else failed 500 t)
  unfolding forwarded_put
  put_error body t h = rw (forwarded_put, h) refl

  delete_error :
      (t : Str)
      → str_eq t [] ≡ false
      → (forwarded_delete f (ok (error_resp t))).0 ≡ (
          if str_eq t (error_text not_found)
          then document_not_found
          else if str_eq t (error_text version_mismatch)
          then failed 412 (codes "CAS precondition failed")
          else failed 500 t)
  unfolding forwarded_delete
  delete_error t h = rw (forwarded_delete, h) refl

  -- An error's text over the wire, as a handler treats it.
  carried :
      (answer : Resp → Answer) (e : Error) (reply : Reply)
      → IsApart e
      → (answer (error_resp (error_text e))).0 ≡ reply
      → (answer (received none (error_text e))).0 ≡ reply
  carried answer e reply a h =
      ap (λ (r : Resp). (answer r).0) (received-error (error_text e) (error_text-some e a)) ∙ h

  forwarded_get-text :
      (e : Error)
      → IsApart e
      → (forwarded_get f (ok (error_resp (error_text e)))).0 ≡ (respond_get f (err (storage e))).0
  unfolding str_eq
  forwarded_get-text not_found a = get_error (error_text not_found) refl
  forwarded_get-text version_mismatch a = get_error (error_text version_mismatch) refl
  forwarded_get-text already_exists a = get_error (error_text already_exists) refl
  forwarded_get-text (other s) a = get_error s a.3 ∙ rw a.0 refl

  -- A forwarded `GET` replies as the owner's own.
  pub forwarded_get-respond_get :
      (x : Result Error (Option Object))
      → IsApartAnswer x
      → (forwarded_get f (over_wire (answer_object (error_text not_found) (as_text x)))).0
        ≡ (respond_get f (read_raw x)).0
  unfolding forwarded_get str_eq
  forwarded_get-respond_get (err e) a =
      carried (λ r. forwarded_get f (ok r)) e (respond_get f (err (storage e))).0 a
        (forwarded_get-text e a)
  forwarded_get-respond_get (ok none) a = refl
  forwarded_get-respond_get (ok (some o)) a = refl

  forwarded_put-text :
      (body : Bytes) (e : Error)
      → IsApart e
      → (forwarded_put f body (ok (error_resp (error_text e)))).0
        ≡ (respond_put f body (err (storage e))).0
  unfolding str_eq
  forwarded_put-text body not_found a = put_error body (error_text not_found) refl
  forwarded_put-text body version_mismatch a = put_error body (error_text version_mismatch) refl
  forwarded_put-text body already_exists a = put_error body (error_text already_exists) refl
  forwarded_put-text body (other s) a = put_error body s a.3 ∙ rw (a.1, a.2) refl

  -- A forwarded `PUT` replies as the owner's own.
  pub forwarded_put-respond_put :
      (body : Bytes) (x : Result Error (Option Object))
      → IsApartAnswer x
      → (forwarded_put f body (over_wire (answer_object no_object_text (as_text x)))).0
        ≡ (respond_put f body (written_as x)).0
  unfolding forwarded_put str_eq
  forwarded_put-respond_put body (err e) a =
      carried (λ r. forwarded_put f body (ok r)) e (respond_put f body (err (storage e))).0 a
        (forwarded_put-text body e a)
  forwarded_put-respond_put body (ok none) a = refl
  forwarded_put-respond_put body (ok (some o)) a = refl

  forwarded_delete-text :
      (e : Error)
      → IsApart e
      → (forwarded_delete f (ok (error_resp (error_text e)))).0
        ≡ (respond_delete f (some (storage e))).0
  unfolding str_eq
  forwarded_delete-text not_found a = delete_error (error_text not_found) refl
  forwarded_delete-text version_mismatch a = delete_error (error_text version_mismatch) refl
  forwarded_delete-text already_exists a = delete_error (error_text already_exists) refl
  forwarded_delete-text (other s) a = delete_error s a.3 ∙ rw (a.0, a.2) refl

  -- A forwarded `DELETE` replies as the owner's own.
  pub forwarded_delete-respond_delete :
      (x : Option Error)
      → IsApartDelete x
      → (forwarded_delete f (over_wire (answer_delete (delete_text x)))).0
        ≡ (respond_delete f (deleted_as x)).0
  unfolding forwarded_delete str_eq
  forwarded_delete-respond_delete (some e) a =
      carried (λ r. forwarded_delete f (ok r)) e (respond_delete f (some (storage e))).0 a
        (forwarded_delete-text e a)
  forwarded_delete-respond_delete none a = refl
