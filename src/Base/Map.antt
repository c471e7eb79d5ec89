-- ===== src/Base/Map.antt =====
-- A Go map with string keys, as an association list. A key is stored once at most.
use mathlib.Core.Path.{subst, ◌≡◌, refl}
use mathlib.Core.List.{List, [], ◌∷◌}
use mathlib.Core.Option.{Option, none, some}
use native.Mathlib.Omega.{arith}
use jaydb.Base.Tests.{if◌then◌else◌}
use Prim.Native.Nat.{ℕ, suc}
use mathlib.Core.Bool.{Bool, true, false}
use mathlib.Core.Logic.{inl, inr}
use jaydb.Base.Lists.{length, get_elem?}
use jaydb.Base.Tests.{Bool-cases}
use jaydb.Base.Text.{eq_of_str_eq, Str, str_eq, str_eq_iff, str_eq_refl}

abbrev pub StrMap {ℓ} : Type ℓ → Type ℓ
StrMap V = List (Str × V)

abbrev pub is_some {ℓ} : {A : Type ℓ} → Option A → Bool
is_some none = false
is_some (some a) = true

module _ {ℓ} {V : Type ℓ} where
  -- `v, ok := m[key]`
  unfoldable pub lookup : Str → StrMap V → Option V
  lookup key [] = none
  lookup key ((k, v) ∷ rest) = if str_eq k key then some v else lookup key rest

  -- `m[key] = v`
  unfoldable pub insert : Str → V → StrMap V → StrMap V
  insert key v [] = (key, v) ∷ []
  insert key v ((k, old) ∷ rest) =
      if str_eq k key then (key, v) ∷ rest else (k, old) ∷ insert key v rest

  -- `delete(m, key)`
  unfoldable pub erase : Str → StrMap V → StrMap V
  erase key [] = []
  erase key ((k, v) ∷ rest) = if str_eq k key then erase key rest else (k, v) ∷ erase key rest

  pub lookup-insert :
      (k key : Str) (v : V) (m : StrMap V)
      → lookup key (insert k v m) ≡ (if str_eq k key then some v else lookup key m)
  unfolding lookup insert
  lookup-insert k key v [] = refl
  lookup-insert k key v ((i, old) ∷ rest) =
      let ih = lookup-insert k key v rest in
      ground (arith, ih, str_eq_iff i key, str_eq_iff i k, str_eq_iff k key)

  pub lookup-erase :
      (k key : Str) (m : StrMap V)
      → lookup key (erase k m) ≡ (if str_eq k key then none else lookup key m)
  unfolding lookup erase
  lookup-erase k key [] = ground arith
  lookup-erase k key ((i, v) ∷ rest) =
      let ih = lookup-erase k key rest in
      ground (arith, ih, str_eq_iff i key, str_eq_iff i k, str_eq_iff k key)

  pub lookup-insert_self : (k : Str) (v : V) (m : StrMap V) → lookup k (insert k v m) ≡ some v
  lookup-insert_self k v m = rw (lookup-insert k k v m, str_eq_refl k)

  pub lookup-erase_self : (k : Str) (m : StrMap V) → lookup k (erase k m) ≡ none
  lookup-erase_self k m = rw (lookup-erase k k m, str_eq_refl k)

  -- Every key is stored once, as in the map that is modelled.
  abbrev pub IsMap : StrMap V → Type 0
  IsMap [] = Unit {0}
  IsMap ((k, _) ∷ rest) = (is_some (lookup k rest) ≡ false) × IsMap rest

  pub insert-IsMap : (k : Str) (v : V) (m : StrMap V) → IsMap m → IsMap (insert k v m)
  unfolding lookup insert
  insert-IsMap k v [] h = (refl, tt)
  insert-IsMap k v ((i, old) ∷ rest) h = elim (Bool-cases (str_eq i k)) [
    | inl e ↦ rw (e, ← eq_of_str_eq i k e) h
    | inr e ↦ rw e (
      ground (arith, lookup-insert k i v rest, str_eq_iff k i, str_eq_iff i k, h.0),
      insert-IsMap k v rest h.1,
    )
  ]

  pub erase_absent : (k : Str) (m : StrMap V) → is_some (lookup k m) ≡ false → erase k m ≡ m
  unfolding lookup erase
  erase_absent k [] h = refl
  erase_absent k ((i, v) ∷ rest) h = ground (arith, erase_absent k rest)

  pub erase-IsMap : (k : Str) (m : StrMap V) → IsMap m → IsMap (erase k m)
  unfolding lookup erase
  erase-IsMap k [] h = tt
  erase-IsMap k ((i, v) ∷ rest) h = elim (Bool-cases (str_eq i k)) [
    | inl e ↦ rw e (erase-IsMap k rest h.1)
    | inr e ↦
        rw e (ground (arith, lookup-erase k i rest, str_eq_iff k i, h.0), erase-IsMap k rest h.1)
  ]

  pub length-insert :
      (k : Str) (v : V) (m : StrMap V)
      → length (insert k v m) ≡ (if is_some (lookup k m) then length m else suc (length m))
  unfolding lookup insert
  length-insert k v [] = refl
  length-insert k v ((i, old) ∷ rest) = ground (arith, length-insert k v rest)

  pub length-erase :
      (k : Str) (m : StrMap V)
      → IsMap m
      → length m ≡ (if is_some (lookup k m) then suc (length (erase k m)) else length (erase k m))
  unfolding lookup erase
  length-erase k [] h = refl
  length-erase k ((i, v) ∷ rest) h = elim (Bool-cases (str_eq i k)) [
    | inl e ↦
        let same : i ≡ k = eq_of_str_eq i k e in
        let out : is_some (lookup k rest) ≡ false = rw same at (h.0) in
        rw (e, erase_absent k rest out)
    | inr e ↦ rw e (ground (arith, length-erase k rest h.1))
  ]

at_place {ℓ} :
    {A : Type ℓ} (xs : List A) (i j : ℕ) (x : A) (g : Option A)
    → get_elem? xs j ≡ g
    → ◌≡◌ {A = Option (ℕ × A)} (elim g [ none ↦ none | some y ↦ some (j, y) ]) (some (i, x))
    → get_elem? xs i ≡ some x
at_place xs i j x none e h = cc
at_place {A = A} xs i j x (some y) e h =
    let q : (j, y) ≡ (i, x) = cc in subst (λ (t : ℕ × A). get_elem? xs t.0 ≡ some t.1) q e

-- What is found through a map and a place on a list stands at that place.
pub found_at_place {ℓ κ} :
    {A : Type ℓ} {B : Type κ} (xs : List A) (i : ℕ) (x : A) (l : Option B) (p : Option ℕ)
    → ◌≡◌ {A = Option (ℕ × A)}
        (elim l [
          | none ↦ none
          | some _ ↦ elim p [
            | none ↦ none
            | some j ↦ elim (get_elem? xs j) [ none ↦ none | some y ↦ some (j, y) ]
          ]
        ])
        (some (i, x))
    → get_elem? xs i ≡ some x
found_at_place xs i x none p h = cc
found_at_place xs i x (some u) none h = cc
found_at_place xs i x (some u) (some j) h = at_place xs i j x (get_elem? xs j) refl h
