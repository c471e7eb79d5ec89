-- ===== src/Cluster/Binary/Write.antt =====
-- `writeBinaryReq` and `writeBinaryResp`. `stale` is what the pooled buffer of 65536 bytes held.
use jaydb.Base.{
  ℕ, ◌+◌, ◌-◌, ◌%◌, List, [], ◌∷◌, Bytes, Str, Bool, Option, none, some, Result, ok, err, ◌>>=◌,
  ◌>>◌, ltb, leb, length, take, replicate, if◌then◌else◌,
}
use jaydb.Storage.{Object}
use jaydb.Cluster.Binary.Buffer.{put_uint16, put_uint32, put_uint64, put_parts}

-- `InterQueryReq`; `op` is the number of the operation.
pub record Req : Type 0 where
  pub namespace : Str
  pub op : ℕ
  pub key : Str
  pub value : Bytes
  pub expected_etag : Str
  pub ts : ℕ
  pub auth : Str

-- `InterQueryResp`; no error is the empty string.
pub record Resp : Type 0 where
  pub object : Option Object
  pub error : Str

pub data WriteError : Type 0 where
  auth_too_large namespace_too_large key_too_large etag_too_large value_too_large : WriteError
  request_too_large : WriteError

abbrev pub protocol_magic : ℕ
protocol_magic = 0x4A

abbrev pub protocol_ver : ℕ
protocol_ver = 1

abbrev pub max_uint16 : ℕ
max_uint16 = 65535

abbrev pub max_uint32 : ℕ
max_uint32 = 4294967295

-- `math.MaxInt` on a 64-bit platform
abbrev pub max_int : ℕ
max_int = 9223372036854775807

abbrev pub pool_size : ℕ
pool_size = 65536

-- An early return with an error.
abbrev pub fail_if : Bool → WriteError → Result WriteError (Unit {0})
fail_if b e = if b then err e else ok tt

-- `addPart`, over the lengths of the parts.
unfoldable pub add_parts : ℕ → List ℕ → Result WriteError ℕ
add_parts total [] = ok total
add_parts total (n ∷ ns) =
    let rest = add_parts (total + n) ns in
    if ltb (max_int - n) total then err request_too_large else rest

-- The pooled buffer if the frame fits into it, else a new one.
unfoldable pub frame_buffer : Bytes → ℕ → Bytes
frame_buffer stale total = if leb total pool_size then take total stale else replicate total 0

-- The parts of a request's frame, in the order in which the code writes them.
abbrev pub req_parts : Req → List Bytes
req_parts r =
    (protocol_magic ∷ [])
    ∷ (protocol_ver ∷ [])
    ∷ ((r.op % 256) ∷ [])
    ∷ put_uint64 r.ts
    ∷ put_uint16 (length r.auth)
    ∷ r.auth
    ∷ put_uint16 (length r.namespace)
    ∷ r.namespace
    ∷ put_uint16 (length r.key)
    ∷ r.key
    ∷ put_uint16 (length r.expected_etag)
    ∷ r.expected_etag
    ∷ put_uint32 (length r.value)
    ∷ r.value
    ∷ []

unfoldable pub write_binary_req : Bytes → Req → Result WriteError Bytes
write_binary_req stale r = do
  fail_if (ltb max_uint16 (length r.auth)) auth_too_large
  fail_if (ltb max_uint16 (length r.namespace)) namespace_too_large
  fail_if (ltb max_uint16 (length r.key)) key_too_large
  fail_if (ltb max_uint16 (length r.expected_etag)) etag_too_large
  fail_if (ltb max_uint32 (length r.value)) value_too_large
  total ← add_parts 0 (
      1
      ∷ 1
      ∷ 1
      ∷ 8
      ∷ 2
      ∷ length r.auth
      ∷ 2
      ∷ length r.namespace
      ∷ 2
      ∷ length r.key
      ∷ 2
      ∷ length r.expected_etag
      ∷ 4
      ∷ length r.value
      ∷ [])
  ok (put_parts (record { buf = frame_buffer stale total; off = 0 }) (req_parts r)).buf

-- The parts of a frame that carries an object.
abbrev pub object_parts : Object → List Bytes
object_parts o =
    (protocol_magic ∷ [])
    ∷ (protocol_ver ∷ [])
    ∷ (0 ∷ [])
    ∷ (1 ∷ [])
    ∷ put_uint16 (length o.key)
    ∷ o.key
    ∷ put_uint16 (length o.etag)
    ∷ o.etag
    ∷ put_uint64 o.mod_time
    ∷ put_uint32 (length o.value)
    ∷ o.value
    ∷ []

-- The parts of a frame that carries an error.
abbrev pub error_parts : Str → List Bytes
error_parts e =
    (protocol_magic ∷ []) ∷ (protocol_ver ∷ []) ∷ (1 ∷ []) ∷ put_uint16 (length e) ∷ e ∷ []

unfoldable pub write_object : Bytes → Object → Bytes
write_object stale o =
    let total = 3 + 1 + 2 + length o.key + 2 + length o.etag + 8 + 4 + length o.value in
    (put_parts (record { buf = frame_buffer stale total; off = 0 }) (object_parts o)).buf

unfoldable pub write_binary_resp : Bytes → Resp → Bytes
write_binary_resp stale r = elim r.error [
  | e ∷ es ↦
      (put_parts (record { buf = replicate (3 + 2 + length (e ∷ es)) 0; off = 0 })
        (error_parts (e ∷ es))).buf
  | [] ↦ elim r.object [
    | none ↦ protocol_magic ∷ protocol_ver ∷ 0 ∷ 0 ∷ []
    | some o ↦ write_object stale o
  ]
]
