-- ===== src/Db/Forwarding.antt =====
-- A call that is forwarded to the owner ends as the owner's own call does.
pub mod Routed
mod Tests
use jaydb.Base.{
  ℕ, ◌≡◌, refl, ◌∙◌, ap, [], ◌∷◌, Str, Bytes, Bool, true, false, Option, none, some, if◌then◌else◌,
  str_eq, Result, ok, err, arith,
}
use jaydb.Storage.{Object, Error, not_found, already_exists, version_mismatch, other, error_text}
use jaydb.Encoding.{Doc, Kind, Codec}
use jaydb.Cluster.Binary.Write.{Req, Resp}
use jaydb.Cluster.Binary.RoundTrip.Response.{received, without_metadata}
use jaydb.Cluster.Mesh.{error_resp, MeshError, answer_object, answer_delete, no_object_text}
use jaydb.Db.{Meta, meta_of}
use jaydb.Db.Answers.{
  DbError, storage, incomplete_response, map_error_string, decoded, forwarded_get, forwarded_put,
  forwarded_delete,
}

-- An error that is no sentinel has a text, and none of theirs.
abbrev pub IsApart : Error → Type 0
IsApart not_found = Unit {0}
IsApart version_mismatch = Unit {0}
IsApart already_exists = Unit {0}
IsApart (other s) =
    (str_eq s (error_text not_found) ≡ false)
    × (str_eq s (error_text already_exists) ≡ false)
    × (str_eq s (error_text version_mismatch) ≡ false)
    × (str_eq s [] ≡ false)

abbrev pub IsApartAnswer : Result Error (Option Object) → Type 0
IsApartAnswer (ok o) = Unit {0}
IsApartAnswer (err e) = IsApart e

abbrev pub IsApartDelete : Option Error → Type 0
IsApartDelete none = Unit {0}
IsApartDelete (some e) = IsApart e

-- What the handler returns for an error, its text.
abbrev pub as_text : Result Error (Option Object) → Result Str (Option Object)
as_text (ok o) = ok o
as_text (err e) = err (error_text e)

abbrev pub delete_text : Option Error → Option Str
delete_text none = none
delete_text (some e) = some (error_text e)

-- The sentinel errors of the storage survive the way over the wire as texts, and so does an error
-- with a text of its own.
pub map_error_string-error_text : (e : Error) → IsApart e → map_error_string (error_text e) ≡ e
unfolding map_error_string str_eq
map_error_string-error_text not_found h = refl
map_error_string-error_text version_mismatch h = refl
map_error_string-error_text already_exists h = refl
map_error_string-error_text (other s) h = rw (h.0, h.1, h.2) refl

pub error_text-some : (e : Error) → IsApart e → str_eq (error_text e) [] ≡ false
unfolding str_eq
error_text-some not_found h = refl
error_text-some version_mismatch h = refl
error_text-some already_exists h = refl
error_text-some (other s) h = h.3

-- What the sender reads of an answer.
abbrev pub over_wire : Resp → Result MeshError Resp
over_wire resp = ok (received resp.object resp.error)

pub received-error : (t : Str) → str_eq t [] ≡ false → received none t ≡ error_resp t
unfolding str_eq
received-error [] h = ground (arith)
received-error (c ∷ cs) h = refl

-- An answer that treats an error's text alike gets the error itself.
carried :
    {A : Type 0} (answer : Resp → A) (end : Error → A) (e : Error)
    → IsApart e
    → ((t : Str) → str_eq t [] ≡ false → answer (error_resp t) ≡ end (map_error_string t))
    → answer (received none (error_text e)) ≡ end e
carried answer end e a h =
    ap answer (received-error (error_text e) (error_text-some e a))
    ∙ h (error_text e) (error_text-some e a)
    ∙ ap end (map_error_string-error_text e a)

module _ {V : Type 0} (codec : Codec V) where
  -- What the owner's answer is worth to a reader: a missing object reads as not found.
  abbrev pub read_as :
      Option Kind → Result Error (Option Object) → Result DbError (Meta × Option (Doc V))
  read_as dest (err e) = err (storage e)
  read_as dest (ok none) = err (storage not_found)
  read_as dest (ok (some o)) = decoded codec dest o

  get_error :
      (dest : Option Kind) (t : Str)
      → str_eq t [] ≡ false
      → forwarded_get codec dest (ok (error_resp t)) ≡ some (err (storage (map_error_string t)))
  get_error dest t h = rw h refl

  -- A forwarded read whose owner answers ends as the owner's own read does: with the same metadata
  -- and document, with the same storage error, and as not found where the owner has no object.
  pub forwarded_get-answer_object :
      (dest : Option Kind) (x : Result Error (Option Object))
      → IsApartAnswer x
      → forwarded_get codec dest (over_wire (answer_object (error_text not_found) (as_text x)))
        ≡ some (read_as dest x)
  unfolding map_error_string str_eq
  forwarded_get-answer_object dest (err e) a =
      carried (λ r. forwarded_get codec dest (ok r)) (λ z. some (err (storage z))) e a
        (get_error dest)
  forwarded_get-answer_object dest (ok none) a = refl
  forwarded_get-answer_object none (ok (some o)) a = refl
  forwarded_get-answer_object (some k) (ok (some o)) a = refl

put_error :
    (target t : Str)
    → str_eq t [] ≡ false
    → forwarded_put target (ok (error_resp t)) ≡ err (storage (map_error_string t))
put_error target t h = rw h refl

-- What the owner's answer is worth to a writer.
abbrev pub written_as : Result Error (Option Object) → Result DbError Meta
written_as (err e) = err (storage e)
written_as (ok none) = err (storage (other no_object_text))
written_as (ok (some o)) = ok (meta_of o)

-- A forwarded write whose owner answers ends as the owner's own write does: with the same metadata or
-- the same storage error, and with an error where the owner has neither.
pub forwarded_put-answer_object :
    (target : Str) (x : Result Error (Option Object))
    → IsApartAnswer x
    → forwarded_put target (over_wire (answer_object no_object_text (as_text x))) ≡ written_as x
unfolding map_error_string str_eq
forwarded_put-answer_object target (err e) a =
    carried (λ r. forwarded_put target (ok r)) (λ z. err (storage z)) e a (put_error target)
forwarded_put-answer_object target (ok none) a = refl
forwarded_put-answer_object target (ok (some o)) a = refl

delete_error :
    (t : Str)
    → str_eq t [] ≡ false
    → forwarded_delete (ok (error_resp t)) ≡ some (storage (map_error_string t))
delete_error t h = rw h refl

abbrev pub deleted_as : Option Error → Option DbError
deleted_as none = none
deleted_as (some e) = some (storage e)

-- A forwarded delete whose owner answers ends as the owner's own delete does.
pub forwarded_delete-answer_delete :
    (x : Option Error)
    → IsApartDelete x
    → forwarded_delete (over_wire (answer_delete (delete_text x))) ≡ deleted_as x
unfolding str_eq
forwarded_delete-answer_delete none a = refl
forwarded_delete-answer_delete (some e) a =
    carried (λ r. forwarded_delete (ok r)) (λ z. some (storage z)) e a delete_error
