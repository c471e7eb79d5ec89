-- ===== src/Cluster/Binary/RoundTrip/Response.antt =====
-- Responses: the round trip of an object, of an error and of the empty answer.
use jaydb.Base.{
  ℕ, ◌+◌, ◌^◌, ◌≤◌, ◌<◌, ◌≡◌, refl, ◌∙◌, [], ◌∷◌, ◌++◌, Bytes, Str, Option, none, some, ok, arith,
  length, replicate, length-replicate, append_assoc, append-nil,
}
use jaydb.Storage.{Object}
use jaydb.Cluster.Binary.Buffer.{
  concat, put_uint16, put_uint32, put_uint64, put_parts-concat, be_value, be_value-put_uint64,
}
use jaydb.Cluster.Binary.Write.{
  Resp, write_binary_resp, write_object, object_parts, error_parts, max_uint16, max_uint32,
  pool_size, protocol_magic, protocol_ver,
}
use jaydb.Cluster.Binary.Read.{◌>>=◌, read_binary_resp, read_ok, read_object, read_error}
use jaydb.Cluster.Binary.RoundTrip.Steps.{
  read_full-append, read_resp_str-append, read_value-append, length-frame_buffer, length-put_uint16,
  length-put_uint32, length-put_uint64,
}

pub record FitsObject (o : Object) : Type 0 where
  pub key_fits : length o.key ≤ max_uint16
  pub etag_fits : length o.etag ≤ max_uint16
  pub value_fits : length o.value ≤ max_uint32
  pub mod_time_fits : o.mod_time < 2 ^ 64

-- What the frame can hold of a response: nothing of an object stands beside an error.
abbrev pub FitsAnswer : Option Object → Type 0
FitsAnswer none = Unit {0}
FitsAnswer (some o) = FitsObject o

abbrev pub FitsResp : Resp → Type 0
FitsResp r = (length r.error ≤ max_uint16) × FitsAnswer r.object

-- The metadata of an object are not sent.
abbrev pub without_metadata : Object → Object
without_metadata o = record o { metadata = [] }

-- What the receiver gets of a response.
abbrev pub received_object : Option Object → Option Object
received_object none = none
received_object (some o) = some (without_metadata o)

abbrev pub received : Option Object → Str → Resp
received o [] = record { object = received_object o; error = [] }
received o (e ∷ es) = record { object = none; error = e ∷ es }

-- An error's frame is the concatenation of its parts, whatever its length.
pub write_error-concat :
    (stale : Bytes) (r : Resp) (e : ℕ) (es : Str)
    → r.error ≡ e ∷ es
    → write_binary_resp stale r ≡ concat (error_parts (e ∷ es))
unfolding write_binary_resp
write_error-concat stale r e es h =
    rw (h, write_binary_resp)
      (put_parts-concat (replicate (3 + 2 + length (e ∷ es)) 0) (error_parts (e ∷ es)) (
        omega (
          arith,
          length-replicate {A = ℕ} (3 + 2 + length (e ∷ es)) 0,
          length-put_uint16 (length (e ∷ es)),
        )))

write_object-concat :
    (stale : Bytes) (o : Object)
    → length stale ≡ pool_size
    → write_object stale o ≡ concat (object_parts o)
unfolding write_object
write_object-concat stale o p = put_parts-concat _ (object_parts o) (
    omega (
      arith,
      length-frame_buffer stale
          (3 + 1 + 2 + length o.key + 2 + length o.etag + 8 + 4 + length o.value) p,
      length-put_uint16 (length o.key),
      length-put_uint16 (length o.etag),
      length-put_uint64 o.mod_time,
      length-put_uint32 (length o.value),
    ))

abbrev object_fields : Object → Bytes → Bytes
object_fields o rest =
    put_uint16 (length o.key)
    ++ (o.key
        ++ (put_uint16 (length o.etag)
            ++ (o.etag
                ++ (put_uint64 o.mod_time ++ (put_uint32 (length o.value) ++ (o.value ++ rest))))))

read_object-fields :
    (o : Object) (rest : Bytes)
    → FitsObject o
    → read_object (object_fields o rest) ≡ ok (received (some o) [], rest)
unfolding read_object
read_object-fields o rest f =
    let ts : be_value 0 (put_uint64 o.mod_time) ≡ o.mod_time =
      omega (arith, be_value-put_uint64 o.mod_time) in
    rw (
      ◌>>=◌,
      read_resp_str-append o.key _ (omega arith),
      read_resp_str-append o.etag _ (omega arith),
      read_full-append 8 (put_uint64 o.mod_time) _ (length-put_uint64 o.mod_time),
      read_value-append o.value rest (omega arith),
      ts,
    )

abbrev frame_of : ℕ → Bytes → Bytes
frame_of status rest = protocol_magic ∷ protocol_ver ∷ status ∷ rest

-- The header of a frame sends the reader to the branch of its status.
pub read_status_error : (rest : Bytes) → read_binary_resp (frame_of 1 rest) ≡ read_error rest
unfolding read_binary_resp
read_status_error rest =
    rw (◌>>=◌, read_full-append 3 (protocol_magic ∷ protocol_ver ∷ 1 ∷ []) rest refl)

read_status_ok : (rest : Bytes) → read_binary_resp (frame_of 0 rest) ≡ read_ok rest
unfolding read_binary_resp
read_status_ok rest =
    rw (◌>>=◌, read_full-append 3 (protocol_magic ∷ protocol_ver ∷ 0 ∷ []) rest refl)

read_ok-object : (rest : Bytes) → read_ok (1 ∷ rest) ≡ read_object rest
unfolding read_ok
read_ok-object rest = rw (◌>>=◌, read_full-append 1 (1 ∷ []) rest refl)

read_ok-none : (rest : Bytes) → read_ok (0 ∷ rest) ≡ ok (received none [], rest)
unfolding read_ok
read_ok-none rest = rw (◌>>=◌, read_full-append 1 (0 ∷ []) rest refl)

read_object_frame :
    (o : Object) (rest : Bytes)
    → FitsObject o
    → read_binary_resp (concat (object_parts o) ++ rest) ≡ ok (received (some o) [], rest)
read_object_frame o rest f =
    let e : concat (object_parts o) ++ rest ≡ frame_of 0 (1 ∷ object_fields o rest) =
      simp (append_assoc, append-nil) in
    rw (e, read_status_ok (1 ∷ object_fields o rest), read_ok-object (object_fields o rest))
      (read_object-fields o rest f)

read_error_frame :
    (e : ℕ) (es : Str) (o : Option Object) (rest : Bytes)
    → length (e ∷ es) ≤ max_uint16
    → read_binary_resp (concat (error_parts (e ∷ es)) ++ rest) ≡ ok (received o (e ∷ es), rest)
unfolding read_error
read_error_frame e es o rest h =
    let s = put_uint16 (length (e ∷ es)) ++ ((e ∷ es) ++ rest) in
    let q : concat (error_parts (e ∷ es)) ++ rest ≡ frame_of 1 s =
      simp (append_assoc, append-nil) in
    rw (q, read_status_error s, ◌>>=◌, read_resp_str-append (e ∷ es) rest (omega arith))

-- by the error and the object that the response has
read-write_from :
    (stale : Bytes) (o : Option Object) (error : Str) (rest : Bytes)
    → length stale ≡ pool_size
    → FitsResp (record { object = o; error = error })
    → read_binary_resp (write_binary_resp stale (record { object = o; error = error }) ++ rest)
      ≡ ok (received o error, rest)
unfolding write_binary_resp
read-write_from stale none [] rest p f = read_status_ok (0 ∷ rest) ∙ read_ok-none rest
read-write_from stale (some o) [] rest p f =
    rw (write_object-concat stale o p) (read_object_frame o rest f.1)
read-write_from stale o (e ∷ es) rest p f =
    rw (write_error-concat stale (record { object = o; error = e ∷ es }) e es refl)
      (read_error_frame e es o rest f.0)

-- A response whose fields fit is read back as it was sent, less the metadata, and less an object
-- that stands beside an error; the reader leaves exactly what followed the frame.
pub read_binary_resp-write_binary_resp :
    (stale : Bytes) (r : Resp) (rest : Bytes)
    → length stale ≡ pool_size
    → FitsResp r
    → read_binary_resp (write_binary_resp stale r ++ rest) ≡ ok (received r.object r.error, rest)
read_binary_resp-write_binary_resp stale r rest p f =
    read-write_from stale r.object r.error rest p f
