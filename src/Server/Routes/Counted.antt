-- ===== src/Server/Routes/Counted.antt =====
-- The counts of the operations on documents, against the replies.
use jaydb.Base.{
  ℕ, ◌+◌, ◌≡◌, refl, inl, inr, [], ◌∷◌, Str, Bytes, List, Bool, true, false, Option, none, some,
  if◌then◌else◌, str_eq, codes, Result, ok, err, arith, Bool-cases, Option-cases,
}
use jaydb.Storage.{not_found, version_mismatch, already_exists, other, error_text}
use jaydb.Cluster.Binary.Write.{Req, Resp}
use jaydb.Cluster.Mesh.{MeshError, op_get, op_put, op_delete}
use jaydb.Db.{Meta}
use jaydb.Db.Answers.{DbError, storage, decode, encode, inter_query, incomplete_response, context}
use jaydb.Db.Calls.{request}
use jaydb.Server.{
  Db, Request, Reply, failed, json, no_content, exposition, Metric, db_operation, object_size,
  cas_conflict, Formats, Server,
}
use jaydb.Server.Handlers.{
  Answer, refused_body, respond_get, respond_put, respond_delete, forwarded_get, forwarded_put,
  forwarded_delete, forwarded_etag, option_etag, forward_get_via_mesh, forward_put_via_mesh,
  forward_delete_via_mesh, handle_get, handle_put, handle_delete,
}
use jaydb.Server.Routes.{
  method_get, method_put, method_delete, refused_key, owner_of, forward_via_mesh, handle_here,
  handle_key,
}

abbrev pub is_failed : Reply → Bool
is_failed (failed status text) = true
is_failed (json etag body) = false
is_failed no_content = false
is_failed exposition = false

-- How many operations were counted with a status.
unfoldable pub counted : Str → List Metric → ℕ
counted status [] = 0
counted status (db_operation op t ∷ ms) = (if str_eq t status then 1 else 0) + counted status ms
counted status (object_size n ∷ ms) = counted status ms
counted status (cas_conflict op ∷ ms) = counted status ms

-- One operation is counted as a success exactly where the reply is none of failure.
abbrev pub IsCounted : Answer → Type 0
IsCounted (reply, metrics) = counted (codes "success") metrics ≡ (if is_failed reply then 0 else 1)

module _ (f : Formats) where
  respond_get-IsCounted : (x : Result DbError (Meta × Bytes)) → IsCounted (respond_get f x)
  unfolding counted str_eq
  respond_get-IsCounted (err (storage not_found)) = refl
  respond_get-IsCounted (err (storage version_mismatch)) = refl
  respond_get-IsCounted (err (storage already_exists)) = refl
  respond_get-IsCounted (err (storage (other t))) = refl
  respond_get-IsCounted (err (decode e)) = refl
  respond_get-IsCounted (err (encode e)) = refl
  respond_get-IsCounted (err (inter_query e)) = refl
  respond_get-IsCounted (err (incomplete_response t)) = refl
  respond_get-IsCounted (err (context c)) = refl
  respond_get-IsCounted (ok (meta, raw)) = refl

  respond_put-IsCounted :
      (body : Bytes) (x : Result DbError Meta) → IsCounted (respond_put f body x)
  unfolding counted str_eq
  respond_put-IsCounted body (err (storage not_found)) = refl
  respond_put-IsCounted body (err (storage version_mismatch)) = refl
  respond_put-IsCounted body (err (storage already_exists)) = refl
  respond_put-IsCounted body (err (storage (other t))) = refl
  respond_put-IsCounted body (err (decode e)) = refl
  respond_put-IsCounted body (err (encode e)) = refl
  respond_put-IsCounted body (err (inter_query e)) = refl
  respond_put-IsCounted body (err (incomplete_response t)) = refl
  respond_put-IsCounted body (err (context c)) = refl
  respond_put-IsCounted body (ok meta) = refl

  respond_delete-IsCounted : (x : Option DbError) → IsCounted (respond_delete f x)
  unfolding counted str_eq
  respond_delete-IsCounted (some (storage not_found)) = refl
  respond_delete-IsCounted (some (storage version_mismatch)) = refl
  respond_delete-IsCounted (some (storage already_exists)) = refl
  respond_delete-IsCounted (some (storage (other t))) = refl
  respond_delete-IsCounted (some (decode e)) = refl
  respond_delete-IsCounted (some (encode e)) = refl
  respond_delete-IsCounted (some (inter_query e)) = refl
  respond_delete-IsCounted (some (incomplete_response t)) = refl
  respond_delete-IsCounted (some (context c)) = refl
  respond_delete-IsCounted none = refl

  forwarded_get-IsCounted : (x : Result MeshError Resp) → IsCounted (forwarded_get f x)
  unfolding forwarded_get counted str_eq
  forwarded_get-IsCounted (err e) = refl
  forwarded_get-IsCounted (ok resp) = elim (Bool-cases (str_eq resp.error [])) [
    | inl e ↦ elim (Option-cases resp.object) [
      | inl n ↦ rw (forwarded_get, e, n) refl
      | inr (o, n) ↦ rw (forwarded_get, e, n) refl
    ]
    | inr e ↦ elim (Bool-cases (str_eq resp.error (error_text not_found))) [
      | inl n ↦ rw (forwarded_get, e, n) refl
      | inr n ↦ rw (forwarded_get, e, n) refl
    ]
  ]

  forwarded_put-IsCounted :
      (body : Bytes) (x : Result MeshError Resp) → IsCounted (forwarded_put f body x)
  unfolding forwarded_put counted str_eq
  forwarded_put-IsCounted body (err e) = refl
  forwarded_put-IsCounted body (ok resp) = elim (Bool-cases (str_eq resp.error [])) [
    | inl e ↦ elim (Option-cases resp.object) [
      | inl n ↦ rw (forwarded_put, e, n) refl
      | inr (o, n) ↦ rw (forwarded_put, e, n) refl
    ]
    | inr e ↦ ground (arith, forwarded_put, e)
  ]

  forwarded_delete-IsCounted : (x : Result MeshError Resp) → IsCounted (forwarded_delete f x)
  unfolding forwarded_delete counted str_eq
  forwarded_delete-IsCounted (err e) = refl
  forwarded_delete-IsCounted (ok resp) = elim (Bool-cases (str_eq resp.error [])) [
    | inl e ↦ rw (forwarded_delete, e) refl
    | inr e ↦ ground (arith, forwarded_delete, e)
  ]

unmetered : (reply : Reply) → is_failed reply ≡ true → IsCounted (reply, [])
unfolding counted
unmetered reply h = rw h refl

pub refused_key-failed :
    (key : Str) (reply : Reply) → refused_key key ≡ some reply → is_failed reply ≡ true
refused_key-failed key reply h = ground (arith, h)

pub refused_body-failed :
    (body : Bytes) (reply : Reply) → refused_body body ≡ some reply → is_failed reply ≡ true
refused_body-failed body reply h = ground (arith, h)

module _ (f : Formats) (ask : Str → Req → Result MeshError Resp) (r : Request) where
  put_via_mesh-IsCounted : (target key : Str) → IsCounted (forward_put_via_mesh f ask r target key)
  unfolding forward_put_via_mesh
  put_via_mesh-IsCounted target key = elim (Option-cases (refused_body r.body)) [
    | inr (reply, e) ↦
        rw (forward_put_via_mesh, e) (unmetered reply (refused_body-failed r.body reply e))
    | inl e ↦
        rw (forward_put_via_mesh, e)
          (forwarded_put-IsCounted f r.body
            (ask target (request op_put [] key r.body (forwarded_etag r))))
  ]

  forward_via_mesh-IsCounted : (target key : Str) → IsCounted (forward_via_mesh f ask r target key)
  unfolding forward_via_mesh forward_get_via_mesh forward_delete_via_mesh
  forward_via_mesh-IsCounted target key = elim (Bool-cases (str_eq r.method method_get)) [
    | inl g ↦
        rw (forward_via_mesh, g)
          (forwarded_get-IsCounted f (ask target (request op_get [] key [] [])))
    | inr g ↦ elim (Bool-cases (str_eq r.method method_put)) [
      | inl p ↦ rw (forward_via_mesh, g, p) (put_via_mesh-IsCounted target key)
      | inr p ↦ elim (Bool-cases (str_eq r.method method_delete)) [
        | inl d ↦
            rw (forward_via_mesh, g, p, d)
              (forwarded_delete-IsCounted f (ask target (request op_delete [] key [] r.if_match)))
        | inr d ↦
            rw (forward_via_mesh, g, p, d)
              (unmetered (failed 405 (codes "method not allowed")) refl)
      ]
    ]
  ]

  handle_put-IsCounted :
      {S : Type 0} (db : Db S) (key : Str) (s : S)
      → IsCounted ((handle_put f db r key s).reply, (handle_put f db r key s).metrics)
  unfolding handle_put
  handle_put-IsCounted db key s = elim (Option-cases (refused_body r.body)) [
    | inr (reply, e) ↦ rw (handle_put, e) (unmetered reply (refused_body-failed r.body reply e))
    | inl e ↦
        rw (handle_put, e) (respond_put-IsCounted f r.body (db.put key r.body (option_etag r) s).0)
  ]

  handle_here-IsCounted :
      {S : Type 0} (db : Db S) (key : Str) (s : S)
      → IsCounted ((handle_here f db r key s).reply, (handle_here f db r key s).metrics)
  unfolding handle_here handle_get handle_delete
  handle_here-IsCounted db key s = elim (Bool-cases (str_eq r.method method_get)) [
    | inl g ↦ rw (handle_here, g) (respond_get-IsCounted f (db.get key s).0)
    | inr g ↦ elim (Bool-cases (str_eq r.method method_put)) [
      | inl p ↦ rw (handle_here, g, p) (handle_put-IsCounted db key s)
      | inr p ↦ elim (Bool-cases (str_eq r.method method_delete)) [
        | inl d ↦
            rw (handle_here, g, p, d) (respond_delete-IsCounted f (db.delete key r.if_match s).0)
        | inr d ↦
            rw (handle_here, g, p, d) (unmetered (failed 405 (codes "method not allowed")) refl)
      ]
    ]
  ]

  -- A request for a key counts one operation as a success if its reply is one of success, and none
  -- if the reply is one of failure, whether the node handles it or forwards it, and on every error.
  pub handle_key-counted :
      {S : Type 0} (server : Server S) (key : Str) (s : S)
      → counted (codes "success") (handle_key f ask server r key s).metrics
        ≡ (if is_failed (handle_key f ask server r key s).reply then 0 else 1)
  unfolding handle_key
  handle_key-counted server key s = elim (Option-cases (refused_key key)) [
    | inr (reply, e) ↦ rw (handle_key, e) (unmetered reply (refused_key-failed key reply e))
    | inl e ↦ elim (Option-cases server.cluster_node) [
      | inl c ↦ rw (handle_key, e, c) (handle_here-IsCounted server.db key s)
      | inr (n, c) ↦ elim (Option-cases (owner_of key n server.ring)) [
        | inl o ↦ rw (handle_key, e, c, o) (handle_here-IsCounted server.db key s)
        | inr (target, o) ↦ rw (handle_key, e, c, o) (forward_via_mesh-IsCounted target key)
      ]
    ]
  ]
