-- ===== src/Cluster/Binary/RoundTrip/Request.antt =====
-- Requests: the frame, its limits, and the round trip.
use jaydb.Base.{
  ◌%◌, ◌^◌, ◌≤◌, ◌<◌, ◌≡◌, [], ◌∷◌, ◌++◌, Bytes, ok, arith, length, append_assoc, append-nil,
}
use jaydb.Cluster.Binary.Buffer.{
  concat, put_uint64, put_uint16, put_uint32, put_parts-concat, be_value, be_value-put_uint64,
  total_length,
}
use jaydb.Cluster.Binary.Write.{
  Req, write_binary_req, frame_buffer, req_parts, add_parts, max_uint16, max_uint32, pool_size,
  protocol_magic, protocol_ver,
}
use jaydb.Cluster.Binary.Read.{read_binary_req, read_req_fields, ◌>>=◌}
use jaydb.Cluster.Binary.RoundTrip.Steps.{
  read_full-append, read_str-append, read_value-append, length-frame_buffer, length-put_uint64,
}

-- What the fields of the frame can hold.
pub record FitsReq (r : Req) : Type 0 where
  pub auth_fits : length r.auth ≤ max_uint16
  pub namespace_fits : length r.namespace ≤ max_uint16
  pub key_fits : length r.key ≤ max_uint16
  pub etag_fits : length r.expected_etag ≤ max_uint16
  pub value_fits : length r.value ≤ max_uint32

-- The sizes that Go's types give: a byte and 64 bits.
pub record IsReq (r : Req) : Type 0 where
  pub op_fits : r.op < 256
  pub ts_fits : r.ts < 2 ^ 64

-- The code's guards are exactly the limits of the frame.
pub write_binary_req-FitsReq :
    (stale : Bytes) (r : Req) {frame : Bytes} → write_binary_req stale r ≡ ok frame → FitsReq r
unfolding write_binary_req
write_binary_req-FitsReq stale r h = record {
  auth_fits = ground arith;
  namespace_fits = ground arith;
  key_fits = ground arith;
  etag_fits = ground arith;
  value_fits = ground arith;
}

-- The lengths of the parts in the order in which the code adds them up.
req_total :
    (r : Req)
    → FitsReq r
    → add_parts 0 (
        1
        ∷ 1
        ∷ 1
        ∷ 8
        ∷ 2
        ∷ length r.auth
        ∷ 2
        ∷ length r.namespace
        ∷ 2
        ∷ length r.key
        ∷ 2
        ∷ length r.expected_etag
        ∷ 4
        ∷ length r.value
        ∷ [])
      ≡ ok (total_length (req_parts r))
unfolding add_parts put_uint16 put_uint32 put_uint64
req_total r f = ground arith

-- A request within the limits is framed as the concatenation of its parts, whatever the pooled
-- buffer held before.
pub write_binary_req-concat :
    (stale : Bytes) (r : Req)
    → length stale ≡ pool_size
    → FitsReq r
    → write_binary_req stale r ≡ ok (concat (req_parts r))
unfolding write_binary_req
write_binary_req-concat stale r p f = ground (
  arith,
  req_total r f,
  put_parts-concat (frame_buffer stale (total_length (req_parts r))) (req_parts r)
      (length-frame_buffer stale (total_length (req_parts r)) p),
)

-- The frame of a request with what follows it in the stream.
abbrev fields : Req → Bytes → Bytes
fields r rest =
    put_uint16 (length r.auth)
    ++ (r.auth
        ++ (put_uint16 (length r.namespace)
            ++ (r.namespace
                ++ (put_uint16 (length r.key)
                    ++ (r.key
                        ++ (put_uint16 (length r.expected_etag)
                            ++ (r.expected_etag
                                ++ (put_uint32 (length r.value) ++ (r.value ++ rest)))))))))

abbrev header : Req → Bytes
header r = protocol_magic ∷ protocol_ver ∷ (r.op % 256) ∷ put_uint64 r.ts

concat-fields : (r : Req) (rest : Bytes) → concat (req_parts r) ++ rest ≡ header r ++ fields r rest
concat-fields r rest = simp (append_assoc, append-nil)

read_req_fields-fields :
    (r : Req) (rest : Bytes)
    → FitsReq r
    → IsReq r
    → read_req_fields (header r) (fields r rest) ≡ ok (r, rest)
unfolding read_req_fields
read_req_fields-fields r rest f i =
    let ts : be_value 0 (put_uint64 r.ts) ≡ r.ts = omega (arith, be_value-put_uint64 r.ts) in
    let op : r.op % 256 ≡ r.op = omega arith in
    rw (
      ◌>>=◌,
      read_str-append r.auth _ (omega arith),
      read_str-append r.namespace _ (omega arith),
      read_str-append r.key _ (omega arith),
      read_str-append r.expected_etag _ (omega arith),
      read_value-append r.value rest (omega arith),
      ts,
      op,
    )

pub read_binary_req-concat :
    (r : Req) (rest : Bytes)
    → FitsReq r
    → IsReq r
    → read_binary_req (concat (req_parts r) ++ rest) ≡ ok (r, rest)
unfolding read_binary_req
read_binary_req-concat r rest f i = rw (concat-fields r rest) (
    rw
      (
        ◌>>=◌,
        read_full-append 11 (header r) (fields r rest) (omega (arith, length-put_uint64 r.ts)),
      )
      (read_req_fields-fields r rest f i))

-- What the writer sent the reader returns, field by field, and it leaves exactly what followed
-- the frame in the stream.
pub read_binary_req-write_binary_req :
    (stale : Bytes) (r : Req) (rest : Bytes) {frame : Bytes}
    → length stale ≡ pool_size
    → IsReq r
    → write_binary_req stale r ≡ ok frame
    → read_binary_req (frame ++ rest) ≡ ok (r, rest)
read_binary_req-write_binary_req stale r rest p i h =
    let f = write_binary_req-FitsReq stale r h in
    ground (arith, write_binary_req-concat stale r p f, read_binary_req-concat r rest f i)
