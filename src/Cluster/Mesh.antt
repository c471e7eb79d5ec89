-- ===== src/Cluster/Mesh.antt =====
-- pkg/cluster/mesh.go: how a node signs, sends, checks and serves the requests between the nodes.
-- `S` is the state of the databases that the handlers act on. The hashes, the formats of numbers and
-- of quoted strings are parameters, and so is a connection: it is the function from the bytes that
-- are sent to those that come back. Timeouts are errors of the connection or of the handler.
pub mod Auth
pub mod Forward
pub mod Tests
use jaydb.Base.{
  ℕ, zero, suc, ◌+◌, ◌%◌, ◌^◌, ◌≡◌, List, [], ◌∷◌, ◌++◌, Str, Bytes, StrMap, Bool, true, false,
  ◌&&◌, not, Option, none, some, if◌then◌else◌, ltb, leb, ◌==◌, length, take, lookup, insert, erase,
  str_eq, codes, ℤ, pos, negsuc, pos_part, Result, ok, err,
}
use jaydb.Storage.{Object, error_text, not_found}
use jaydb.Sharding.Ring.{Ring, is_owner}
use jaydb.Cluster.Binary.Buffer.{be_value}
use jaydb.Cluster.Binary.Write.{Req, Resp, WriteError, write_binary_req, write_binary_resp}
use jaydb.Cluster.Binary.Read.{ReadError, read_binary_req, read_binary_resp}

abbrev pub op_get : ℕ
op_get = 1

abbrev pub op_put : ℕ
op_put = 2

abbrev pub op_delete : ℕ
op_delete = 3

abbrev pub default_mesh_port : ℕ
default_mesh_port = 7947

-- `ErrUnauthenticated`, `ErrNoHandler`
abbrev pub unauthenticated_text : Str
unauthenticated_text = codes "jaydb cluster: unauthenticated inter-query request"

abbrev pub no_handler_text : Str
no_handler_text = codes "jaydb cluster: no DB handler registered for namespace"

-- 30 seconds, in nanoseconds
abbrev pub auth_skew : ℕ
auth_skew = 30000000000

-- `Handler`; an error is its text.
pub record Handler (S : Type 0) : Type 0 where
  pub get_raw : Str → S → Result Str (Option Object) × S
  pub put_raw : Str → Bytes → Str → S → Result Str (Option Object) × S
  pub delete_raw : Str → Str → S → Option Str × S

-- The functions of other packages: the hexadecimal HMAC-SHA256 under a secret and SHA-256, `%d` and
-- `%q`.
pub record Formats : Type 0 where
  pub hmac : Str → Bytes → Str
  pub sha256 : Bytes → Str
  pub show_int : ℕ → Str
  pub quote : Str → Str

-- What a node needs to serve: its secret, the handlers by namespace, and the handler of old.
pub record Node (S : Type 0) : Type 0 where
  pub cluster_secret : Str
  pub db_handler : Option (Handler S)
  pub handlers : StrMap (Handler S)

module _ {S : Type 0} where
  unfoldable pub register_handler : Str → Handler S → Node S → Node S
  register_handler namespace h n = record n { handlers = insert namespace h n.handlers }

  unfoldable pub unregister_handler : Str → Node S → Node S
  unregister_handler namespace n = record n { handlers = erase namespace n.handlers }

  unfoldable pub handler_for : Str → Node S → Option (Handler S)
  handler_for namespace n = elim (lookup namespace n.handlers) [
    | some h ↦ some h
    | none ↦ n.db_handler
  ]

-- The default for a duration that is not positive.
abbrev pub timeout_or : ℕ → ℤ → ℕ
timeout_or d t = if ltb 0 (pos_part t) then pos_part t else d

-- `dialTimeout`, `streamOpenTimeout`, `requestTimeout`, in nanoseconds
abbrev pub dial_timeout : ℤ → ℕ
dial_timeout t = timeout_or 3000000000 t

abbrev pub stream_open_timeout : ℤ → ℕ
stream_open_timeout t = timeout_or 100000000 t

abbrev pub request_timeout : ℤ → ℕ
request_timeout t = timeout_or 10000000000 t

-- `getMeshPort`, of a member's metadata
unfoldable pub get_mesh_port : Bytes → ℕ
get_mesh_port meta = if leb 2 (length meta) then be_value 0 (take 2 meta) else default_mesh_port

-- `IsOwner` of a node with no ring, or with one.
unfoldable pub is_key_owner : Option Ring → Str → Str → Option Bool
is_key_owner none self key = some true
is_key_owner (some r) self key = is_owner r key self

-- `skew > authSkew` behind the negation of a negative duration, which the least one survives.
unfoldable pub is_skewed : ℤ → Bool
is_skewed (pos d) = ltb auth_skew d
is_skewed (negsuc k) = if suc k == 2 ^ 63 then false else ltb auth_skew (suc k)

-- The response of an error, and of an object.
abbrev pub error_resp : Str → Resp
error_resp e = record { object = none; error = e }

abbrev pub object_resp : Object → Resp
object_resp o = record { object = some o; error = [] }

abbrev pub answer_object : Str → Result Str (Option Object) → Resp
answer_object absent (err e) = error_resp e
answer_object absent (ok none) = error_resp absent
answer_object absent (ok (some o)) = object_resp o

abbrev pub answer_delete : Option Str → Resp
answer_delete (some e) = error_resp e
answer_delete none = record { object = none; error = [] }

-- `"jaydb cluster: put returned no object"`
abbrev pub no_object_text : Str
no_object_text = codes "jaydb cluster: put returned no object"

abbrev pub colon : Str
colon = codes ":"

module _ (f : Formats) where
  -- The hash of the value and the time, at the end of the string.
  abbrev pub signed_end : Req → Str
  signed_end r = colon ++ (f.sha256 r.value ++ (colon ++ f.show_int r.ts))

  -- The string that `computeAuth` signs.
  unfoldable pub canonical : Req → Str
  canonical r =
      r.namespace
      ++ (colon
          ++ (f.show_int r.op
              ++ (colon ++ (r.key ++ (colon ++ (r.expected_etag ++ signed_end r))))))

  unfoldable pub compute_auth : Str → Req → Str
  compute_auth secret r = f.hmac secret (canonical r)

  -- `authenticate`, with `time.Since` of the request's time: `false` is ErrUnauthenticated.
  unfoldable pub authenticate : Str → (ℕ → ℤ) → Req → Bool
  authenticate secret since r =
      if str_eq secret []
      then true
      else if str_eq r.auth []
      then false
      else if is_skewed (since r.ts)
      then false
      else str_eq (compute_auth secret r) r.auth

  module _ {S : Type 0} where
    -- The switch of `serve`.
    unfoldable pub dispatch : Handler S → Req → S → Resp × S
    dispatch h r s =
        if r.op == op_get
        then (let (x, s') = h.get_raw r.key s in (answer_object (error_text not_found) x, s'))
        else if r.op == op_put
        then (let (x, s') = h.put_raw r.key r.value r.expected_etag s in
            (answer_object no_object_text x, s'))
        else if r.op == op_delete
        then (let (x, s') = h.delete_raw r.key r.expected_etag s in (answer_delete x, s'))
        else (error_resp (codes "jaydb cluster: unknown op " ++ f.show_int r.op), s)

    unfoldable pub serve : Node S → (ℕ → ℤ) → Req → S → Resp × S
    serve n since r s =
        if authenticate n.cluster_secret since r
        then elim (handler_for r.namespace n) [
          | none ↦ (error_resp (no_handler_text ++ (codes " " ++ f.quote r.namespace)), s)
          | some h ↦ dispatch h r s
        ]
        else (error_resp unauthenticated_text, s)

    -- `handleConn`, over the bytes of a stream: the bytes that it writes. Each request takes at least
    -- one byte, so the length of the stream and one more are fuel enough.
    unfoldable pub handle_conn : ℕ → Bytes → Node S → (ℕ → ℤ) → Bytes → S → Bytes × S
    handle_conn zero stale n since stream s = ([], s)
    handle_conn (suc fuel) stale n since stream s = elim (read_binary_req stream) [
      | err e ↦ ([], s)
      | ok (r, rest) ↦
          let (resp, s') = serve n since r s in
          let (more, s'') = handle_conn fuel stale n since rest s' in
          (write_binary_resp stale resp ++ more, s'')
    ]

  -- `ExecuteInterQuery`'s signature on a request.
  unfoldable pub sign : Str → ℕ → Req → Req
  sign secret now r =
      if str_eq secret []
      then r
      else record r { ts = now; auth = compute_auth secret (record r { ts = now }) }

-- What `roundTrip` may fail with: no connection, a request that does not fit, or an answer cut short.
pub data MeshError : Type 0 where
  dial : Str → MeshError
  write : WriteError → MeshError
  read : ReadError → MeshError

-- A connection that the pool gives, or its error.
abbrev pub Link : Type 0
Link = Result Str (Bytes → Bytes)

-- `roundTrip` over the connection that `GetConn` returned.
unfoldable pub round_trip : Bytes → Link → Req → Result MeshError Resp
round_trip stale (err e) r = err (dial e)
round_trip stale (ok conn) r = elim (write_binary_req stale r) [
  | err e ↦ err (write e)
  | ok frame ↦ elim (read_binary_resp (conn frame)) [
    | err e ↦ err (read e)
    | ok (resp, _) ↦ ok resp
  ]
]

-- `ExecuteInterQuery`: one retry on another connection, unless the context is over by then.
unfoldable pub execute_inter_query :
    Formats → Str → ℕ → Bytes → Link → Link → Bool → Req → Result MeshError Resp
execute_inter_query f secret now stale first second expired r =
    let r' = sign f secret now r in
    elim (round_trip stale first r') [
      | ok resp ↦ ok resp
      | err e ↦ if expired then err e else round_trip stale second r'
    ]
