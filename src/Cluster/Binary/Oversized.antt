-- ===== src/Cluster/Binary/Oversized.antt =====
-- `writeBinaryResp` writes the length of an error in 16 bits and does not check that it fits.
use jaydb.Base.{
  ℕ, ◌%◌, ◌^◌, ◌*◌, ◌/◌, length-drop, ◌≡◌, ◌∷◌, ◌++◌, Bytes, Str, none, ok, arith, length, take,
  drop, append_assoc, append-nil, take-append-drop, length-take_of_le, sym, ◌∙◌, ap,
}
use jaydb.Cluster.Binary.Buffer.{concat, put_uint16, be_value, be_value-put_uint16}
use jaydb.Cluster.Binary.Write.{Resp, write_binary_resp, error_parts, protocol_magic, protocol_ver}
use jaydb.Cluster.Binary.Read.{◌>>=◌, read_binary_resp, read_error, read_resp_str}
use jaydb.Cluster.Binary.RoundTrip.Steps.{read_full-append, length-put_uint16}
use jaydb.Cluster.Binary.RoundTrip.Response.{write_error-concat, read_status_error}

-- The bytes of an error that the receiver counts as the message, and those that it leaves.
abbrev pub kept : Str → Str
kept e = take (length e % 2 ^ 16) e

abbrev pub left_over : Str → Bytes
left_over e = drop (length e % 2 ^ 16) e

read_cut_str :
    (e : Str) (rest : Bytes)
    → read_resp_str (put_uint16 (length e) ++ (e ++ rest)) ≡ ok (kept e, left_over e ++ rest)
unfolding read_resp_str
read_cut_str e rest =
    let n : be_value 0 (put_uint16 (length e)) ≡ length e % 2 ^ 16 =
      be_value-put_uint16 (length e) in
    let split : e ++ rest ≡ kept e ++ (left_over e ++ rest) =
      ap (λ x. x ++ rest) (sym (take-append-drop (length e % 2 ^ 16) e))
      ∙ append_assoc (kept e) (left_over e) rest in
    rw
      (
        read_full-append 2 (put_uint16 (length e)) (e ++ rest) (length-put_uint16 (length e)),
        ◌>>=◌,
        n,
      )
      (rw split (
        read_full-append (length e % 2 ^ 16) (kept e) (left_over e ++ rest)
          (length-take_of_le (length e % 2 ^ 16) e (omega arith))))

-- Whatever the length of a response's error, its receiver takes the first `length % 65536` bytes
-- for the message and leaves the others, a multiple of 65536 that is 0 only if the length fits
-- into 16 bits, in the stream in front of the next frame.
pub read_binary_resp_oversized :
    (stale : Bytes) (r : Resp) (e : ℕ) (es : Str) (rest : Bytes)
    → r.error ≡ e ∷ es
    → (read_binary_resp (write_binary_resp stale r ++ rest)
        ≡ ok (record { object = none; error = kept (e ∷ es) }, left_over (e ∷ es) ++ rest))
      × (length (left_over (e ∷ es)) ≡ length (e ∷ es) / 2 ^ 16 * 2 ^ 16)
unfolding read_error
read_binary_resp_oversized stale r e es rest h =
    let s = put_uint16 (length (e ∷ es)) ++ ((e ∷ es) ++ rest) in
    let q : concat (error_parts (e ∷ es)) ++ rest ≡ protocol_magic ∷ protocol_ver ∷ 1 ∷ s =
      simp (append_assoc, append-nil) in
    (
      rw (
        write_error-concat stale r e es h,
        q,
        read_status_error s,
        ◌>>=◌,
        read_cut_str (e ∷ es) rest,
      ),
      omega (arith, length-drop (length (e ∷ es) % 2 ^ 16) (e ∷ es)),
    )
