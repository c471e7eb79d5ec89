-- ===== src/Cluster/Binary/Buffer.antt =====
-- The big-endian integers of encoding/binary, and a buffer that is filled part by part: every
-- byte of the frame is written, so what a pooled buffer held before does not show.
use jaydb.Base.{
  ℕ, ◌+◌, ◌*◌, ◌/◌, ◌%◌, ◌^◌, ◌≤◌, ◌≡◌, refl, ap, List, [], ◌∷◌, ◌++◌, Bytes, arith, length, take,
  drop, length-append, take-append_length, drop-append_length, length-drop, append_assoc, ◌∙◌,
}

-- `binary.BigEndian.PutUint16`, `PutUint32` and `PutUint64` of a value that is cut to the width.
unfoldable pub put_uint16 : ℕ → Bytes
put_uint16 v = (v / 2 ^ 8 % 256) ∷ (v % 256) ∷ []

unfoldable pub put_uint32 : ℕ → Bytes
put_uint32 v = (v / 2 ^ 24 % 256) ∷ (v / 2 ^ 16 % 256) ∷ (v / 2 ^ 8 % 256) ∷ (v % 256) ∷ []

unfoldable pub put_uint64 : ℕ → Bytes
put_uint64 v =
    (v / 2 ^ 56 % 256)
    ∷ (v / 2 ^ 48 % 256)
    ∷ (v / 2 ^ 40 % 256)
    ∷ (v / 2 ^ 32 % 256)
    ∷ (v / 2 ^ 24 % 256)
    ∷ (v / 2 ^ 16 % 256)
    ∷ (v / 2 ^ 8 % 256)
    ∷ (v % 256)
    ∷ []

-- `binary.BigEndian.Uint16` and the others: the value of a list of bytes.
unfoldable pub be_value : ℕ → Bytes → ℕ
be_value acc [] = acc
be_value acc (b ∷ bs) = be_value (acc * 256 + b) bs

pub be_value-put_uint16 : (v : ℕ) → be_value 0 (put_uint16 v) ≡ v % 2 ^ 16
unfolding be_value put_uint16
be_value-put_uint16 v = omega arith

pub be_value-put_uint32 : (v : ℕ) → be_value 0 (put_uint32 v) ≡ v % 2 ^ 32
unfolding be_value put_uint32
be_value-put_uint32 v = omega arith

pub be_value-put_uint64 : (v : ℕ) → be_value 0 (put_uint64 v) ≡ v % 2 ^ 64
unfolding be_value put_uint64
be_value-put_uint64 v = omega arith

-- `copy(dst, src)`: as many bytes as the shorter has.
unfoldable pub copy : Bytes → Bytes → Bytes
copy [] src = []
copy (d ∷ ds) [] = d ∷ ds
copy (d ∷ ds) (s ∷ src) = s ∷ copy ds src

-- A buffer, and the offset at which the next part goes.
pub record Cursor : Type 0 where
  pub buf : Bytes
  pub off : ℕ

-- `copy(buf[off:], src); off += len(src)`
unfoldable pub put_part : Cursor → Bytes → Cursor
unfolding copy
put_part c src = record {
  buf = take c.off c.buf ++ copy (drop c.off c.buf) src;
  off = c.off + length src;
}

unfoldable pub put_parts : Cursor → List Bytes → Cursor
unfolding put_part
put_parts c [] = c
put_parts c (p ∷ ps) = put_parts (put_part c p) ps

abbrev pub concat : List Bytes → Bytes
concat [] = []
concat (p ∷ ps) = p ++ concat ps

copy_prefix :
    (dst src : Bytes) → length src ≤ length dst → copy dst src ≡ src ++ drop (length src) dst
unfolding copy
copy_prefix [] [] h = refl
copy_prefix [] (s ∷ src) h = absurd (omega arith)
copy_prefix (d ∷ ds) [] h = refl
copy_prefix (d ∷ ds) (s ∷ src) h = ap (◌∷◌ s) (copy_prefix ds src (omega arith))

-- The number of bytes of all parts together.
abbrev pub total_length : List Bytes → ℕ
total_length [] = 0
total_length (p ∷ ps) = length p + total_length ps

put_part_lem :
    (pre tail src : Bytes)
    → length src ≤ length tail
    → put_part (record { buf = pre ++ tail; off = length pre }) src
      ≡ record { buf = (pre ++ src) ++ drop (length src) tail; off = length (pre ++ src) }
unfolding put_part
put_part_lem pre tail src h = rw (
  take-append_length pre tail,
  drop-append_length pre tail,
  copy_prefix tail src h,
  append_assoc pre src (drop (length src) tail),
  length-append pre src,
)

put_parts_from :
    (pre tail : Bytes) (ps : List Bytes)
    → length tail ≡ total_length ps
    → (put_parts (record { buf = pre ++ tail; off = length pre }) ps).buf ≡ pre ++ concat ps
unfolding put_parts
put_parts_from pre [] [] h = refl
put_parts_from pre (t ∷ tail) [] h = absurd (omega arith)
put_parts_from pre tail (p ∷ ps) h =
    ap (λ c. (put_parts c ps).buf) (put_part_lem pre tail p (omega arith))
    ∙ put_parts_from (pre ++ p) (drop (length p) tail) ps
        (omega (arith, length-drop (length p) tail))
    ∙ append_assoc pre p (concat ps)

-- The parts fill a buffer of their total length, whatever it held.
pub put_parts-concat :
    (stale : Bytes) (ps : List Bytes)
    → length stale ≡ total_length ps
    → (put_parts (record { buf = stale; off = 0 }) ps).buf ≡ concat ps
put_parts-concat stale ps h = put_parts_from [] stale ps h
