-- ===== src/Base/Sets.antt =====
-- Membership of strings by a Boolean test, ascending lists, and the sort of `sort.Strings`.
use mathlib.Core.Path.{◌≡◌, refl, ap, ◌∙◌}
use mathlib.Core.Logic.{inl, inr}
use mathlib.Core.List.{List, [], ◌∷◌, ◌++◌}
use mathlib.Core.Bool.{Bool, true, false, ◌||◌, ◌&&◌}
use native.Mathlib.Omega.{arith}
use jaydb.Base.Tests.{if◌then◌else◌, Bool-cases}
use Prim.Native.Nat.{ℕ, zero, suc, ◌<◌}
use mathlib.Core.Option.{some}
use jaydb.Base.Lists.{keep_if, All, get_elem?}
use jaydb.Base.Text.{
  Str, str_eq, str_ltb, str_eq_iff, str_eq_refl, str_ltb_irrefl, str_ltb_trans, str_ltb_total,
}

unfoldable pub contains : List Str → Str → Bool
contains [] k = false
contains (x ∷ xs) k = str_eq x k || contains xs k

-- Strictly ascending, so that no element stands twice.
abbrev pub IsAscending : List Str → Type 0
IsAscending [] = Unit {0}
IsAscending (x ∷ xs) = All (λ y. str_ltb x y ≡ true) xs × IsAscending xs

abbrev pub IsDistinct : List Str → Type 0
IsDistinct [] = Unit {0}
IsDistinct (x ∷ xs) = (contains xs x ≡ false) × IsDistinct xs

-- `sort.Strings`
unfoldable pub insert_sorted : Str → List Str → List Str
insert_sorted x [] = x ∷ []
insert_sorted x (y ∷ ys) = if str_ltb y x then y ∷ insert_sorted x ys else x ∷ y ∷ ys

unfoldable pub sort : List Str → List Str
unfolding insert_sorted
sort [] = []
sort (x ∷ xs) = insert_sorted x (sort xs)

pub All-contains :
    (p : Str → Bool) (xs : List Str) (k : Str)
    → All (λ y. p y ≡ true) xs
    → contains xs k ≡ true
    → p k ≡ true
unfolding contains
All-contains p [] k h m = ground arith
All-contains p (x ∷ xs) k h m = ground (arith, str_eq_iff x k, All-contains p xs k h.1)

-- Nothing that stands behind is at or below the head.
pub contains_of_below :
    (x : Str) (xs : List Str) → All (λ y. str_ltb x y ≡ true) xs → contains xs x ≡ false
contains_of_below x xs h = elim (Bool-cases (contains xs x)) [
  | inl e ↦ ground (arith, All-contains (str_ltb x) xs x h e, str_ltb_irrefl x)
  | inr e ↦ e
]

pub IsDistinct-of_IsAscending : (xs : List Str) → IsAscending xs → IsDistinct xs
IsDistinct-of_IsAscending [] h = tt
IsDistinct-of_IsAscending (x ∷ xs) h =
    (contains_of_below x xs h.0, IsDistinct-of_IsAscending xs h.1)

pub contains-append :
    (xs ys : List Str) (k : Str) → contains (xs ++ ys) k ≡ (contains xs k || contains ys k)
unfolding contains
contains-append [] ys k = refl
contains-append (x ∷ xs) ys k = ground (arith, contains-append xs ys k)

pub contains-keep_if :
    (p : Str → Bool) (xs : List Str) (k : Str) → contains (keep_if p xs) k ≡ (p k && contains xs k)
unfolding contains
contains-keep_if p [] k = ground arith
contains-keep_if p (x ∷ xs) k = ground (arith, str_eq_iff x k, contains-keep_if p xs k)

pub IsDistinct-keep_if :
    (p : Str → Bool) (xs : List Str) → IsDistinct xs → IsDistinct (keep_if p xs)
unfolding contains
IsDistinct-keep_if p [] d = tt
IsDistinct-keep_if p (x ∷ xs) d = elim (Bool-cases (p x)) [
  | inl e ↦ rw e (ground (arith, contains-keep_if p xs x, d.0), IsDistinct-keep_if p xs d.1)
  | inr e ↦ rw e (IsDistinct-keep_if p xs d.1)
]

pub contains-insert_sorted :
    (x : Str) (xs : List Str) (k : Str)
    → contains (insert_sorted x xs) k ≡ (str_eq x k || contains xs k)
unfolding contains insert_sorted
contains-insert_sorted x [] k = refl
contains-insert_sorted x (y ∷ ys) k = ground (arith, contains-insert_sorted x ys k)

pub contains-sort : (xs : List Str) (k : Str) → contains (sort xs) k ≡ contains xs k
unfolding contains sort
contains-sort [] k = refl
contains-sort (x ∷ xs) k =
    contains-insert_sorted x (sort xs) k ∙ ap (λ b. str_eq x k || b) (contains-sort xs k)

All-insert_sorted :
    (z x : Str) (xs : List Str)
    → str_ltb z x ≡ true
    → All (λ y. str_ltb z y ≡ true) xs
    → All (λ y. str_ltb z y ≡ true) (insert_sorted x xs)
unfolding insert_sorted
All-insert_sorted z x [] h a = (h, tt)
All-insert_sorted z x (y ∷ ys) h a = elim (Bool-cases (str_ltb y x)) [
  | inl e ↦ rw e (a.0, All-insert_sorted z x ys h a.1)
  | inr e ↦ rw e (h, a)
]

All-of_lt :
    (x y : Str) (ys : List Str)
    → str_ltb x y ≡ true
    → All (λ z. str_ltb y z ≡ true) ys
    → All (λ z. str_ltb x z ≡ true) ys
All-of_lt x y [] h a = tt
All-of_lt x y (z ∷ ys) h a = (str_ltb_trans x y z h a.0, All-of_lt x y ys h a.1)

pub insert_sorted-IsAscending :
    (x : Str) (xs : List Str)
    → contains xs x ≡ false
    → IsAscending xs
    → IsAscending (insert_sorted x xs)
unfolding contains insert_sorted
insert_sorted-IsAscending x [] m h = (tt, tt)
insert_sorted-IsAscending x (y ∷ ys) m h = elim (Bool-cases (str_ltb y x)) [
  | inl e ↦ rw e (All-insert_sorted y x ys e h.0, insert_sorted-IsAscending x ys (ground arith) h.1)
  | inr e ↦
      let below : str_ltb x y ≡ true = ground (arith, str_ltb_total x y, str_eq_iff y x) in
      rw e ((below, All-of_lt x y ys below h.0), h)
]

-- A list with no element twice is sorted into a strictly ascending one.
pub sort-IsAscending : (xs : List Str) → IsDistinct xs → IsAscending (sort xs)
unfolding sort
sort-IsAscending [] d = tt
sort-IsAscending (x ∷ xs) d =
    insert_sorted-IsAscending x (sort xs) (contains-sort xs x ∙ d.0) (sort-IsAscending xs d.1)

contains_tail :
    (x y : Str) (xs ys : List Str) (k : Str)
    → x ≡ y
    → contains xs x ≡ false
    → contains ys y ≡ false
    → contains (x ∷ xs) k ≡ contains (y ∷ ys) k
    → contains xs k ≡ contains ys k
unfolding contains
contains_tail x y xs ys k q h h' e = ground (arith, str_eq_iff x k, str_eq_iff y k)

below_head :
    (x y : Str) (ys : List Str)
    → IsAscending (y ∷ ys)
    → str_ltb x y ≡ true
    → contains (y ∷ ys) x ≡ false
below_head x y ys h l = contains_of_below x (y ∷ ys) (l, All-of_lt x y ys l h.0)

contains_head : (x : Str) (xs : List Str) → contains (x ∷ xs) x ≡ true
unfolding contains
contains_head x xs = rw (str_eq_refl x)

-- An ascending list is determined by its members.
pub IsAscending-unique :
    (xs ys : List Str)
    → IsAscending xs
    → IsAscending ys
    → ((k : Str) → contains xs k ≡ contains ys k)
    → xs ≡ ys
IsAscending-unique [] [] h k e = refl
IsAscending-unique [] (y ∷ ys) h k e = unfold contains in ground (arith, e y, contains_head y ys)
IsAscending-unique (x ∷ xs) [] h k e = unfold contains in ground (arith, e x, contains_head x xs)
IsAscending-unique (x ∷ xs) (y ∷ ys) h k e = elim (str_ltb_total x y) [
  | inl l ↦ ground (arith, e x, contains_head x xs, below_head x y ys k l)
  | inr (inl q) ↦
      let same = λ (j : Str).
        contains_tail x y xs ys j q (contains_of_below x xs h.0) (contains_of_below y ys k.0)
          (e j) in
      cc (IsAscending-unique xs ys h.1 k.1 same)
  | inr (inr l) ↦ ground (arith, e y, contains_head y ys, below_head y x xs h l)
]

pub contains_of_get_elem? :
    (xs : List Str) (i : ℕ) (a : Str) → get_elem? xs i ≡ some a → contains xs a ≡ true
unfolding contains
contains_of_get_elem? [] i a h = cc
contains_of_get_elem? (x ∷ xs) zero a h = ground (arith, str_eq_iff x a)
contains_of_get_elem? (x ∷ xs) (suc i) a h = ground (arith, contains_of_get_elem? xs i a h)

All-get_elem?? :
    (p : Str → Bool) (xs : List Str) (i : ℕ) (a : Str)
    → All (λ y. p y ≡ true) xs
    → get_elem? xs i ≡ some a
    → p a ≡ true
All-get_elem?? p [] i a h e = cc
All-get_elem?? p (x ∷ xs) zero a h e = ground (arith, h.0)
All-get_elem?? p (x ∷ xs) (suc i) a h e = All-get_elem?? p xs i a h.1 e

-- The order of the indices is the order of the elements.
pub IsAscending-get_elem?? :
    (xs : List Str) (i j : ℕ) (a b : Str)
    → IsAscending xs
    → i < j
    → get_elem? xs i ≡ some a
    → get_elem? xs j ≡ some b
    → str_ltb a b ≡ true
IsAscending-get_elem?? [] i j a b h l e f = cc
IsAscending-get_elem?? (x ∷ xs) i zero a b h l e f = elim l [ ]
IsAscending-get_elem?? (x ∷ xs) zero (suc j) a b h l e f =
    ground (arith, All-get_elem?? (str_ltb x) xs j b h.0 f)
IsAscending-get_elem?? (x ∷ xs) (suc i) (suc j) a b h l e f =
    IsAscending-get_elem?? xs i j a b h.1 (omega arith) e f
