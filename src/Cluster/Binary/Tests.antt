-- ===== src/Cluster/Binary/Tests.antt =====
-- Tests and witnesses for the framing.
use jaydb.Base.{
  ℕ, ◌*◌, ◌/◌, ◌^◌, ◌≡◌, refl, [], ◌∷◌, ◌++◌, Bytes, none, some, ok, err, arith, length, replicate,
  length-replicate, codes,
}
use jaydb.Cluster.Binary.Buffer.{concat, put_uint16, put_uint32, put_uint64, put_parts, be_value}
use jaydb.Cluster.Binary.Write.{
  Req, Resp, write_binary_req, write_binary_resp, write_object, frame_buffer, add_parts, req_parts,
  pool_size,
}
use jaydb.Cluster.Binary.Read.{
  read_binary_req, read_binary_resp, read_req_fields, read_full, read_sized, read_str, read_value,
  read_resp_str, read_object, read_error, read_ok, invalid_magic, unexpected_eof,
}
use jaydb.Cluster.Binary.RoundTrip.Request.{
  FitsReq, write_binary_req-concat, read_binary_req-write_binary_req,
}
use jaydb.Cluster.Binary.RoundTrip.Response.{received, read_binary_resp-write_binary_resp}
use jaydb.Cluster.Binary.Oversized.{read_binary_resp_oversized, kept, left_over}

program : Unit {0}
unfolding put_uint16 put_uint32 put_uint64 put_parts be_value write_binary_req write_binary_resp
    write_object frame_buffer add_parts read_binary_req read_binary_resp read_req_fields read_full
    read_sized read_str read_value read_resp_str read_object read_error read_ok
program = tt

stale : Bytes
stale = replicate pool_size 7

length-stale : length stale ≡ pool_size
unfolding stale
length-stale = length-replicate {A = ℕ} pool_size 7

abbrev get_req : Req
get_req = record {
  namespace = codes "orders";
  op = 1;
  key = codes "users/1";
  value = [];
  expected_etag = [];
  ts = 1700000000;
  auth = codes "k";
}

abbrev answer : Resp
answer = record {
  object = some (record {
    key = codes "users/1";
    value = 1 ∷ 2 ∷ 3 ∷ [];
    etag = codes "t1";
    mod_time = 99;
    metadata = (codes "a", codes "b") ∷ [];
  });
  error = [];
}

abbrev small : Bytes
small = replicate 100 7

frame_bytes :
    write_binary_req small get_req
    ≡ ok (
        0x4A
        ∷ 1
        ∷ 1
        ∷ 0
        ∷ 0
        ∷ 0
        ∷ 0
        ∷ 101
        ∷ 83
        ∷ 241
        ∷ 0
        ∷ 0
        ∷ 1
        ∷ 107
        ∷ 0
        ∷ 6
        ∷ (codes "orders" ++ (0 ∷ 7 ∷ (codes "users/1" ++ (0 ∷ 0 ∷ 0 ∷ 0 ∷ 0 ∷ 0 ∷ [])))))
unfolding program
frame_bytes = refl

reads_answer :
    read_binary_resp (write_binary_resp small answer ++ (5 ∷ []))
    ≡ ok (received answer.object [], 5 ∷ [])
unfolding program
reads_answer = refl

bad_magic : read_binary_req (replicate 11 0) ≡ err invalid_magic
unfolding program
bad_magic = refl

short_header : read_binary_req (0x4A ∷ 1 ∷ []) ≡ err unexpected_eof
unfolding program
short_header = refl

get_req-FitsReq : FitsReq get_req
get_req-FitsReq = omega arith

abbrev get_frame : Bytes
get_frame = concat (req_parts get_req)

write_get : write_binary_req stale get_req ≡ ok get_frame
write_get = write_binary_req-concat stale get_req length-stale get_req-FitsReq

read_binary_req-write_binary_req_example :
    read_binary_req (get_frame ++ (1 ∷ 2 ∷ [])) ≡ ok (get_req, 1 ∷ 2 ∷ [])
read_binary_req-write_binary_req_example =
    read_binary_req-write_binary_req stale get_req (1 ∷ 2 ∷ []) length-stale (omega arith) write_get

read_binary_resp-write_binary_resp_example :
    read_binary_resp (write_binary_resp stale answer ++ (5 ∷ []))
    ≡ ok (received answer.object answer.error, 5 ∷ [])
read_binary_resp-write_binary_resp_example =
    read_binary_resp-write_binary_resp stale answer (5 ∷ []) length-stale (omega arith)

long_error : Resp
long_error = record { object = none; error = replicate 65541 b'x' }

read_binary_resp_oversized_example :
    (read_binary_resp (write_binary_resp stale long_error ++ [])
      ≡ ok (
        record { object = none; error = kept (b'x' ∷ replicate 65540 b'x') },
        left_over (b'x' ∷ replicate 65540 b'x') ++ [],
      ))
    × (length {A = ℕ} (left_over (b'x' ∷ replicate 65540 b'x'))
        ≡ length {A = ℕ} (b'x' ∷ replicate 65540 b'x') / 2 ^ 16 * 2 ^ 16)
unfolding long_error
read_binary_resp_oversized_example =
    read_binary_resp_oversized stale long_error b'x' (replicate 65540 b'x') [] refl
