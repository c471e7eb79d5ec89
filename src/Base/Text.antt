-- ===== src/Base/Text.antt =====
-- Go strings and byte slices: lists of bytes. Equality, the byte order, prefixes.
use Prim.Native.Nat.{ℕ}
use Prim.Native.Char.{code}
use Prim.Native.String.{String}
use mathlib.Core.Path.{◌≡◌, refl}
use mathlib.Core.Logic.{◌↔◌, ◌⊎◌, inl, inr}
use mathlib.Core.List.{List, [], ◌∷◌, ◌++◌}
use mathlib.Core.Bool.{Bool, true, false, ◌&&◌, not}
use native.Mathlib.Omega.{arith}
use jaydb.Base.Tests.{ltb, ◌==◌, if◌then◌else◌, Bool-cases}

abbrev pub Bytes : Type 0
Bytes = List ℕ

abbrev pub Str : Type 0
Str = List ℕ

-- The bytes of an ASCII literal.
abbrev pub codes : String → Str
codes String.[] = []
codes (String.◌∷◌ c s) = code c ∷ codes s

-- `a == b`
unfoldable pub str_eq : Str → Str → Bool
str_eq [] [] = true
str_eq [] (y ∷ ys) = false
str_eq (x ∷ xs) [] = false
str_eq (x ∷ xs) (y ∷ ys) = x == y && str_eq xs ys

-- `a < b`: the order of the bytes.
unfoldable pub str_ltb : Str → Str → Bool
str_ltb [] [] = false
str_ltb [] (y ∷ ys) = true
str_ltb (x ∷ xs) [] = false
str_ltb (x ∷ xs) (y ∷ ys) = if x == y then str_ltb xs ys else ltb x y

-- `a <= b`
unfoldable pub str_leb : Str → Str → Bool
unfolding str_ltb
str_leb a b = not (str_ltb b a)

-- `strings.HasPrefix(s, prefix)`
unfoldable pub has_prefix : Str → Str → Bool
has_prefix s [] = true
has_prefix [] (p ∷ ps) = false
has_prefix (x ∷ xs) (p ∷ ps) = x == p && has_prefix xs ps

pub str_eq_refl : (a : Str) → str_eq a a ≡ true
unfolding str_eq
str_eq_refl [] = refl
str_eq_refl (x ∷ xs) = ground (arith, str_eq_refl xs)

pub eq_of_str_eq : (a b : Str) → str_eq a b ≡ true → a ≡ b
unfolding str_eq
eq_of_str_eq [] [] h = refl
eq_of_str_eq [] (y ∷ ys) h = ground arith
eq_of_str_eq (x ∷ xs) [] h = ground arith
eq_of_str_eq (x ∷ xs) (y ∷ ys) h = ground (arith, eq_of_str_eq xs ys)

pub str_eq_iff : (a b : Str) → (str_eq a b ≡ true) ↔ (a ≡ b)
str_eq_iff a b = (eq_of_str_eq a b, λ e. rw e (str_eq_refl b))

pub str_ltb_irrefl : (a : Str) → str_ltb a a ≡ false
unfolding str_ltb
str_ltb_irrefl [] = refl
str_ltb_irrefl (x ∷ xs) = ground (arith, str_ltb_irrefl xs)

pub str_ltb_trans : (a b c : Str) → str_ltb a b ≡ true → str_ltb b c ≡ true → str_ltb a c ≡ true
unfolding str_ltb
str_ltb_trans [] [] c h k = ground arith
str_ltb_trans [] (y ∷ ys) [] h k = k
str_ltb_trans [] (y ∷ ys) (z ∷ zs) h k = refl
str_ltb_trans (x ∷ xs) [] c h k = ground arith
str_ltb_trans (x ∷ xs) (y ∷ ys) [] h k = k
str_ltb_trans (x ∷ xs) (y ∷ ys) (z ∷ zs) h k = ground (arith, str_ltb_trans xs ys zs)

-- Of two strings one is below the other, or they are equal.
pub str_ltb_total : (a b : Str) → (str_ltb a b ≡ true) ⊎ ((a ≡ b) ⊎ (str_ltb b a ≡ true))
unfolding str_ltb
str_ltb_total [] [] = inr (inl refl)
str_ltb_total [] (y ∷ ys) = inl refl
str_ltb_total (x ∷ xs) [] = inr (inr refl)
str_ltb_total (x ∷ xs) (y ∷ ys) = ground (arith, str_ltb_total xs ys)

pub str_ltb_asym : (a b : Str) → str_ltb a b ≡ true → str_ltb b a ≡ false
str_ltb_asym a b h = elim (Bool-cases (str_ltb b a)) [
  | inl e ↦ ground (arith, str_ltb_irrefl a, str_ltb_trans a b a)
  | inr e ↦ e
]

pub has_prefix-append : (p s : Str) → has_prefix (p ++ s) p ≡ true
unfolding has_prefix
has_prefix-append [] s = refl
has_prefix-append (x ∷ p) s = ground (arith, has_prefix-append p s)
