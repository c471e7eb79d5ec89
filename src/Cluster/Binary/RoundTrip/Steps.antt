-- ===== src/Cluster/Binary/RoundTrip/Steps.antt =====
-- Lemmas on the steps of a reader, and on the buffer of a frame.
use jaydb.Base.{
  ℕ, ◌^◌, ◌<◌, ◌≡◌, refl, [], ◌∷◌, ◌++◌, Bytes, ok, arith, length, length-append, length-take_of_le,
  length-replicate, take-append_length, drop-append_length, le→leb, lt→ltb, inl, inr, leb,
  Bool-cases,
}
use jaydb.Cluster.Binary.Buffer.{
  put_uint16, put_uint32, put_uint64, be_value, be_value-put_uint16, be_value-put_uint32,
}
use jaydb.Cluster.Binary.Write.{frame_buffer, pool_size}
use jaydb.Cluster.Binary.Read.{
  Reader, ◌>>=◌, read_full, read_sized, read_str, read_value, read_resp_str,
}

-- A step that succeeds hands its value and the rest of the stream on.
pub >>=_ok :
    {A B : Type 0} (m : Reader A) (f : A → Reader B) {s s' : Bytes} {a : A}
    → m s ≡ ok (a, s')
    → (m >>= f) s ≡ f a s'
>>=_ok m f h = rw (h, ◌>>=◌)

-- A read of exactly the bytes that stand in front.
pub read_full-append :
    (n : ℕ) (xs rest : Bytes) → length xs ≡ n → read_full n (xs ++ rest) ≡ ok (xs, rest)
unfolding read_full
read_full-append n xs rest h = rw (← h) (
    rw (
      le→leb (length xs) (length (xs ++ rest)) (omega (arith, length-append xs rest)),
      take-append_length xs rest,
      drop-append_length xs rest,
    ))

pub read_sized-append : (xs rest : Bytes) → read_sized (length xs) (xs ++ rest) ≡ ok (xs, rest)
unfolding read_sized
read_sized-append [] rest = refl
read_sized-append (x ∷ xs) rest =
    rw (lt→ltb 0 (length (x ∷ xs)) (omega arith)) (read_full-append _ (x ∷ xs) rest refl)

pub length-put_uint16 : (v : ℕ) → length (put_uint16 v) ≡ 2
unfolding put_uint16
length-put_uint16 v = refl

pub length-put_uint32 : (v : ℕ) → length (put_uint32 v) ≡ 4
unfolding put_uint32
length-put_uint32 v = refl

pub length-put_uint64 : (v : ℕ) → length (put_uint64 v) ≡ 8
unfolding put_uint64
length-put_uint64 v = refl

pub read_str-append :
    (s rest : Bytes)
    → length s < 2 ^ 16
    → read_str (put_uint16 (length s) ++ (s ++ rest)) ≡ ok (s, rest)
unfolding read_str
read_str-append s rest h =
    let e : be_value 0 (put_uint16 (length s)) ≡ length s =
      omega (arith, be_value-put_uint16 (length s)) in
    rw
      (
        read_full-append 2 (put_uint16 (length s)) (s ++ rest) (length-put_uint16 (length s)),
        ◌>>=◌,
        e,
      )
      (read_sized-append s rest)

pub read_resp_str-append :
    (s rest : Bytes)
    → length s < 2 ^ 16
    → read_resp_str (put_uint16 (length s) ++ (s ++ rest)) ≡ ok (s, rest)
unfolding read_resp_str
read_resp_str-append s rest h =
    let e : be_value 0 (put_uint16 (length s)) ≡ length s =
      omega (arith, be_value-put_uint16 (length s)) in
    rw
      (
        read_full-append 2 (put_uint16 (length s)) (s ++ rest) (length-put_uint16 (length s)),
        ◌>>=◌,
        e,
      )
      (read_full-append (length s) s rest refl)

pub read_value-append :
    (s rest : Bytes)
    → length s < 2 ^ 32
    → read_value (put_uint32 (length s) ++ (s ++ rest)) ≡ ok (s, rest)
unfolding read_value
read_value-append s rest h =
    let e : be_value 0 (put_uint32 (length s)) ≡ length s =
      omega (arith, be_value-put_uint32 (length s)) in
    rw
      (
        read_full-append 4 (put_uint32 (length s)) (s ++ rest) (length-put_uint32 (length s)),
        ◌>>=◌,
        e,
      )
      (read_sized-append s rest)

-- The buffer has the length of the frame.
pub length-frame_buffer :
    (stale : Bytes) (total : ℕ)
    → length stale ≡ pool_size
    → length (frame_buffer stale total) ≡ total
unfolding frame_buffer
length-frame_buffer stale total h = elim (Bool-cases (leb total pool_size)) [
  | inl e ↦ rw e (length-take_of_le total stale (ground arith))
  | inr e ↦ rw e (length-replicate total 0)
]
