-- ===== src/Server/Handlers.antt =====
-- The handlers of documents and listings, local and forwarded to the owner of a key.
pub mod Agreement
use jaydb.Base.{
  ℕ, ◌*◌, ◌^◌, Str, Bytes, List, [], ◌∷◌, ◌++◌, Option, none, some, Bool, true, false, ◌||◌, not,
  Result, ok, err, codes, if◌then◌else◌, ltb, ◌==◌, length, str_eq,
}
use jaydb.Storage.{
  Object, Error, not_found, version_mismatch, already_exists, other, error_text, match_any_etag,
}
use jaydb.Cluster.Binary.Write.{Req, Resp}
use jaydb.Cluster.Mesh.{MeshError, op_get, op_put, op_delete}
use jaydb.Db.{Meta, meta_of, Item}
use jaydb.Db.Answers.{DbError, storage}
use jaydb.Db.Calls.{request}
use jaydb.Server.{
  Db, Request, Reply, failed, json, no_content, Metric, db_operation, object_size, cas_conflict,
  Outcome, Formats, error_message,
}

-- A reply with what was observed.
abbrev pub Answer : Type 0
Answer = Reply × List Metric

abbrev pub get_op : Str
get_op = codes "get"

abbrev pub put_op : Str
put_op = codes "put"

abbrev pub delete_op : Str
delete_op = codes "delete"

abbrev pub list_op : Str
list_op = codes "list"

abbrev pub succeeded : Str → Metric
succeeded op = db_operation op (codes "success")

abbrev pub errored : Str → List Metric
errored op = db_operation op (codes "error") ∷ []

-- 10 MB
abbrev pub max_body_size : ℕ
max_body_size = 10 * 1024 * 1024

abbrev pub max_list_limit : ℕ
max_list_limit = 10000

abbrev pub document_not_found : Reply
document_not_found = failed 404 (codes "document not found")

abbrev pub cas_text : Str
cas_text = codes "CAS precondition failed: "

abbrev pub found : Str → Bytes → Answer
found etag value = (json (some etag) value, succeeded get_op ∷ object_size (length value) ∷ [])

-- The guards on the body of a `PUT`.
abbrev pub refused_body : Bytes → Option Reply
refused_body body =
    if length body == 0
    then some (failed 400 (codes "request body is required"))
    else if ltb max_body_size (length body)
    then some (failed 413 (codes "request body too large (max 10MB)"))
    else none

-- The ETag of the options of `handlePut`.
abbrev pub option_etag : Request → Str
option_etag r =
    if str_eq r.if_none_match (codes "*")
    then match_any_etag
    else if not (str_eq r.if_match [])
    then r.if_match
    else []

-- `expectedETag` of `forwardPutViaMesh`
abbrev pub forwarded_etag : Request → Str
forwarded_etag r = if str_eq r.if_none_match (codes "*") then match_any_etag else r.if_match

abbrev pub outcome : {S : Type 0} → Answer → S → Outcome S
outcome (reply, metrics) s = record { reply = reply; metrics = metrics; state = s }

-- The limit of a listing, from the one of the request.
abbrev pub list_limit : ℕ → ℕ
list_limit limit =
    let l = if limit == 0 then 100 else limit in if ltb max_list_limit l then max_list_limit else l

module _ (f : Formats) where
  -- `handleGet`, behind the call of the database
  abbrev pub respond_get : Result DbError (Meta × Bytes) → Answer
  respond_get (err (storage not_found)) = (document_not_found, errored get_op)
  respond_get (err e) = (failed 500 (error_message f e), errored get_op)
  respond_get (ok (meta, raw)) = found meta.etag raw

  -- `handlePut`, behind the call of the database
  abbrev pub respond_put : Bytes → Result DbError Meta → Answer
  respond_put body (err (storage version_mismatch)) = (
    failed 412 (cas_text ++ error_text version_mismatch),
    cas_conflict put_op ∷ db_operation put_op (codes "cas_conflict") ∷ [],
  )
  respond_put body (err (storage already_exists)) = (
    failed 412 (cas_text ++ error_text already_exists),
    cas_conflict put_op ∷ db_operation put_op (codes "cas_conflict") ∷ [],
  )
  respond_put body (err e) = (failed 500 (error_message f e), errored put_op)
  respond_put body (ok meta) =
      (json (some meta.etag) (f.meta_json meta), succeeded put_op ∷ object_size (length body) ∷ [])

  -- `handleDelete`, behind the call of the database
  abbrev pub respond_delete : Option DbError → Answer
  respond_delete (some (storage not_found)) =
      (document_not_found, db_operation delete_op (codes "not_found") ∷ [])
  respond_delete (some (storage version_mismatch)) = (
    failed 412 (codes "CAS precondition failed"),
    cas_conflict delete_op ∷ db_operation delete_op (codes "cas_conflict") ∷ [],
  )
  respond_delete (some e) = (failed 500 (error_message f e), errored delete_op)
  respond_delete none = (no_content, succeeded delete_op ∷ [])

  -- `handleList`, behind the call of the database
  abbrev pub respond_list : Result DbError (List Item) → Answer
  respond_list (err e) = (failed 500 (error_message f e), errored list_op)
  respond_list (ok items) = (json none (f.items_json items), succeeded list_op ∷ [])

  module _ {S : Type 0} (db : Db S) where
    unfoldable pub handle_get : Str → S → Outcome S
    handle_get key s = let (r, s') = db.get key s in outcome (respond_get r) s'

    unfoldable pub handle_put : Request → Str → S → Outcome S
    handle_put r key s = elim (refused_body r.body) [
      | some reply ↦ outcome (reply, []) s
      | none ↦
          let (x, s') = db.put key r.body (option_etag r) s in outcome (respond_put r.body x) s'
    ]

    unfoldable pub handle_delete : Request → Str → S → Outcome S
    handle_delete r key s =
        let (x, s') = db.delete key r.if_match s in outcome (respond_delete x) s'

    unfoldable pub handle_list : Request → Str → S → Outcome S
    handle_list r prefix s =
        let (x, s') = db.list prefix (list_limit r.limit) s in outcome (respond_list x) s'

  abbrev pub mesh_failed : Str → MeshError → Answer
  mesh_failed op e = (failed 502 (codes "mesh forward error: " ++ f.mesh_text e), errored op)

  -- `forwardGetViaMesh`, behind the query
  unfoldable pub forwarded_get : Result MeshError Resp → Answer
  forwarded_get (err e) = mesh_failed get_op e
  forwarded_get (ok resp) =
      if not (str_eq resp.error [])
      then (
        if str_eq resp.error (error_text not_found)
            then document_not_found
            else failed 500 resp.error,
        errored get_op,
      )
      else elim resp.object [
        | none ↦ (document_not_found, errored get_op)
        | some o ↦ found o.etag o.value
      ]

  -- `forwardPutViaMesh`, behind the query
  unfoldable pub forwarded_put : Bytes → Result MeshError Resp → Answer
  forwarded_put body (err e) = mesh_failed put_op e
  forwarded_put body (ok resp) =
      if not (str_eq resp.error [])
      then (
        if str_eq resp.error (error_text version_mismatch)
              || str_eq resp.error (error_text already_exists)
            then failed 412 (cas_text ++ resp.error)
            else failed 500 resp.error,
        errored put_op,
      )
      else elim resp.object [
        | none ↦ (failed 500 (codes "put returned no object"), errored put_op)
        | some o ↦ (
          json (some o.etag) (f.meta_json (meta_of o)),
          succeeded put_op ∷ object_size (length body) ∷ [],
        )
      ]

  -- `forwardDeleteViaMesh`, behind the query
  unfoldable pub forwarded_delete : Result MeshError Resp → Answer
  forwarded_delete (err e) = mesh_failed delete_op e
  forwarded_delete (ok resp) =
      if not (str_eq resp.error [])
      then (
        if str_eq resp.error (error_text not_found)
            then document_not_found
            else if str_eq resp.error (error_text version_mismatch)
            then failed 412 (codes "CAS precondition failed")
            else failed 500 resp.error,
        errored delete_op,
      )
      else (no_content, succeeded delete_op ∷ [])

  -- The requests have no namespace.
  module _ (ask : Str → Req → Result MeshError Resp) where
    unfoldable pub forward_get_via_mesh : Str → Str → Answer
    forward_get_via_mesh target key = forwarded_get (ask target (request op_get [] key [] []))

    unfoldable pub forward_put_via_mesh : Request → Str → Str → Answer
    forward_put_via_mesh r target key = elim (refused_body r.body) [
      | some reply ↦ (reply, [])
      | none ↦ forwarded_put r.body (ask target (request op_put [] key r.body (forwarded_etag r)))
    ]

    unfoldable pub forward_delete_via_mesh : Request → Str → Str → Answer
    forward_delete_via_mesh r target key =
        forwarded_delete (ask target (request op_delete [] key [] r.if_match))
