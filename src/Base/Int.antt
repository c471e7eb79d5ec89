-- ===== src/Base/Int.antt =====
-- Go's `int` where the code tests its sign or returns -1: the integers over the native numbers.
use Prim.Native.Nat.{ℕ}

-- `negsuc n` is -(n + 1).
pub data ℤ : Type 0 where
  pos : ℕ → ℤ
  negsuc : ℕ → ℤ

-- The integer, or 0 if it is negative: `x <= 0` holds exactly if this is 0.
abbrev pub pos_part : ℤ → ℕ
pos_part (pos n) = n
pos_part (negsuc n) = 0
