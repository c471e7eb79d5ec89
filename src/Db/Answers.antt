-- ===== src/Db/Answers.antt =====
-- How a call of the database ends: its errors, and what it makes of a local result and of the owner's
-- answer.
use jaydb.Base.{[], Str, Option, none, some, if◌then◌else◌, str_eq, Result, ok, err}
use jaydb.Storage.{Object, Error, not_found, already_exists, version_mismatch, other, error_text}
use jaydb.Encoding.{Doc, Kind, Codec, CodecError}
use jaydb.Cluster.Binary.Write.{Resp}
use jaydb.Cluster.Mesh.{MeshError}
use jaydb.Cache.Budget.{Run, done, panicked, stuck}
use jaydb.Db.{Meta, meta_of}
use jaydb.Db.Ownership.{Database}

pub data DbError : Type 0 where
  storage : Error → DbError
  decode encode : CodecError → DbError
  inter_query : MeshError → DbError
  incomplete_response context : Str → DbError

-- `mapErrorString`
unfoldable pub map_error_string : Str → Error
map_error_string s =
    if str_eq s (error_text not_found)
    then not_found
    else if str_eq s (error_text already_exists)
    then already_exists
    else if str_eq s (error_text version_mismatch)
    then version_mismatch
    else other s

module _ {V : Type 0} (codec : Codec V) where
  -- The metadata, and the value where there is a destination for it.
  abbrev pub decoded : Option Kind → Object → Result DbError (Meta × Option (Doc V))
  decoded none o = ok (meta_of o, none)
  decoded (some k) o = elim (codec.unmarshal o.value k) [
    | ok v ↦ ok (meta_of o, some v)
    | err e ↦ err (decode e)
  ]

  -- The end of `Get`; a nil object is dereferenced.
  abbrev pub finish_get :
      Option Kind
      → Run (Result Error (Option Object) × Database)
      → Run (Result DbError (Meta × Option (Doc V)) × Database)
  finish_get dest stuck = stuck
  finish_get dest panicked = panicked
  finish_get dest (done (err e, d)) = done (err (storage e), d)
  finish_get dest (done (ok none, d)) = panicked
  finish_get dest (done (ok (some o), d)) = done (decoded dest o, d)

  -- What `Get` makes of the owner's answer; `none` is the fall back to a local read.
  abbrev pub forwarded_get :
      Option Kind → Result MeshError Resp → Option (Result DbError (Meta × Option (Doc V)))
  forwarded_get dest (err x) = none
  forwarded_get dest (ok resp) =
      if str_eq resp.error []
      then elim resp.object [ none ↦ none | some o ↦ some (decoded dest o) ]
      else some (err (storage (map_error_string resp.error)))

abbrev pub finish_put :
    {D : Type 0}
    → Run (Result Error (Option Object) × D × Database)
    → Run (Result DbError Meta × D × Database)
finish_put stuck = stuck
finish_put panicked = panicked
finish_put (done (err e, disk, d)) = done (err (storage e), disk, d)
finish_put (done (ok none, disk, d)) = panicked
finish_put (done (ok (some o), disk, d)) = done (ok (meta_of o), disk, d)

abbrev pub forwarded_put : Str → Result MeshError Resp → Result DbError Meta
forwarded_put target (err x) = err (inter_query x)
forwarded_put target (ok resp) =
    if str_eq resp.error []
    then elim resp.object [ none ↦ err (incomplete_response target) | some o ↦ ok (meta_of o) ]
    else err (storage (map_error_string resp.error))

abbrev pub forwarded_delete : Result MeshError Resp → Option DbError
forwarded_delete (err x) = some (inter_query x)
forwarded_delete (ok resp) =
    if str_eq resp.error [] then none else some (storage (map_error_string resp.error))
