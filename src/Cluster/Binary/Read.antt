-- ===== src/Cluster/Binary/Read.antt =====
-- `readBinaryReq` and `readBinaryResp`. A reader takes the bytes that the stream holds before it
-- ends, and returns the value with the bytes that it left.
use jaydb.Base.{
  ℕ, zero, suc, [], ◌∷◌, Bytes, Str, Bool, not, none, some, Result, ok, err, ltb, leb, ◌==◌, length,
  take, drop, if◌then◌else◌,
}
use jaydb.Cluster.Binary.Buffer.{be_value}
use jaydb.Cluster.Binary.Write.{Req, Resp, protocol_magic, protocol_ver}

pub data ReadError : Type 0 where
  eof unexpected_eof invalid_magic invalid_ver : ReadError

abbrev pub Reader : Type 0 → Type 0
Reader A = Bytes → Result ReadError (A × Bytes)

infixl 5 ◌>>=◌ ◌>>◌
abbrev pub ◌>>=◌ : {A B : Type 0} → Reader A → (A → Reader B) → Reader B
◌>>=◌ m f s = elim (m s) [ err e ↦ err e | ok (a, s') ↦ f a s' ]

abbrev pub ◌>>◌ : {B : Type 0} → Reader (Unit {0}) → Reader B → Reader B
m >> k = m >>= λ _. k

abbrev pub pure : {A : Type 0} → A → Reader A
pure a s = ok (a, s)

abbrev pub fail_if : Bool → ReadError → Reader (Unit {0})
fail_if b e s = if b then err e else ok (tt, s)

-- `io.ReadFull`: an error at once, or exactly `n` bytes.
unfoldable pub read_full : ℕ → Reader Bytes
read_full n s =
    if leb n (length s)
    then ok (take n s, drop n s)
    else if length s == 0
    then err eof
    else err unexpected_eof

-- `header[i]`
abbrev pub byte_at : Bytes → ℕ → ℕ
byte_at [] i = 0
byte_at (b ∷ bs) zero = b
byte_at (b ∷ bs) (suc i) = byte_at bs i

-- Bytes of which there are `n`, where a length of 0 skips the read.
unfoldable pub read_sized : ℕ → Reader Bytes
read_sized n = if ltb 0 n then read_full n else pure []

-- The blocks of `readBinaryReq` that read one string: its length, and its bytes unless it is 0.
unfoldable pub read_str : Reader Str
read_str = do len ← read_full 2; read_sized (be_value 0 len)

-- The last block of both readers.
unfoldable pub read_value : Reader Bytes
read_value = do len ← read_full 4; read_sized (be_value 0 len)

-- The blocks of `readBinaryResp` that read one string, also one of length 0.
unfoldable pub read_resp_str : Reader Str
read_resp_str = do len ← read_full 2; read_full (be_value 0 len)

-- What `readBinaryReq` reads behind the header.
unfoldable pub read_req_fields : Bytes → Reader Req
read_req_fields header = do
  auth ← read_str
  namespace ← read_str
  key ← read_str
  etag ← read_str
  value ← read_value
  pure (record {
    namespace = namespace;
    op = byte_at header 2;
    key = key;
    value = value;
    expected_etag = etag;
    ts = be_value 0 (drop 3 header);
    auth = auth;
  })

unfoldable pub read_binary_req : Reader Req
read_binary_req = do
  header ← read_full 11
  fail_if (not (byte_at header 0 == protocol_magic)) invalid_magic
  fail_if (not (byte_at header 1 == protocol_ver)) invalid_ver
  read_req_fields header

unfoldable pub read_object : Reader Resp
read_object = do
  key ← read_resp_str
  etag ← read_resp_str
  nano ← read_full 8
  value ← read_value
  pure (record {
    object = some (record {
      key = key;
      value = value;
      etag = etag;
      mod_time = be_value 0 nano;
      metadata = [];
    });
    error = [];
  })

unfoldable pub read_error : Reader Resp
read_error = do message ← read_resp_str; pure (record { object = none; error = message })

unfoldable pub read_ok : Reader Resp
read_ok = do
  has_obj ← read_full 1
  if byte_at has_obj 0 == 0 then pure (record { object = none; error = [] }) else read_object

unfoldable pub read_binary_resp : Reader Resp
read_binary_resp = do
  header ← read_full 3
  fail_if (not (byte_at header 0 == protocol_magic)) invalid_magic
  fail_if (not (byte_at header 1 == protocol_ver)) invalid_ver
  if byte_at header 2 == 1 then read_error else read_ok
