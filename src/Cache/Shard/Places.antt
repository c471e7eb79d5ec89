-- ===== src/Cache/Shard/Places.antt =====
-- Lemmas on lists of items with distinct keys, and on the place of a key.
use jaydb.Base.{
  ℕ, zero, suc, ◌+◌, ◌≡◌, refl, ap, inl, inr, List, [], ◌∷◌, Str, Bool, true, false, some, arith,
  if◌then◌else◌, get_elem?, remove_at, str_eq, str_eq_iff, str_eq_refl, Bool-cases,
}
use jaydb.Cache.Shard.{Item, find_pos}

pub same_head : {x y : Item} → some y ≡ some x → y ≡ x
same_head e = cc

abbrev pub has_key : Str → List Item → Bool
has_key key [] = false
has_key key (x ∷ xs) = if str_eq x.key key then true else has_key key xs

abbrev pub IsDistinct : List Item → Type 0
IsDistinct [] = Unit {0}
IsDistinct (x ∷ xs) = (has_key x.key xs ≡ false) × IsDistinct xs

-- The bytes of all items together.
abbrev pub sizes : List Item → ℕ
sizes [] = 0
sizes (x ∷ xs) = x.size + sizes xs

pub find_pos_of_has_key :
    (key : Str) (xs : List Item)
    → has_key key xs ≡ true
    → (i : ℕ) × (x : Item) × (find_pos key xs ≡ some i) × (get_elem? xs i ≡ some x) × (x.key ≡ key)
unfolding find_pos
find_pos_of_has_key key [] h = cc
find_pos_of_has_key key (x ∷ xs) h = elim (Bool-cases (str_eq x.key key)) [
  | inl e ↦ (0, x, rw e, refl, (str_eq_iff x.key key).0 e)
  | inr e ↦
      let (i, y, f, g, k) = find_pos_of_has_key key xs (ground arith) in (suc i, y, rw (e, f), g, k)
]

pub has_key_at :
    (xs : List Item) (i : ℕ) (x : Item) → get_elem? xs i ≡ some x → has_key x.key xs ≡ true
has_key_at [] i x e = cc
has_key_at (y ∷ xs) zero x e =
    ground (arith, ap (λ (z : Item). z.key) (same_head e), str_eq_refl x.key)
has_key_at (y ∷ xs) (suc i) x e = ground (arith, has_key_at xs i x e)

-- The key of the removed element is gone, and no other.
pub has_key-remove_at :
    (i : ℕ) (x : Item) (key : Str) (xs : List Item)
    → IsDistinct xs
    → get_elem? xs i ≡ some x
    → has_key key (remove_at i xs) ≡ (if str_eq x.key key then false else has_key key xs)
has_key-remove_at i x key [] d e = cc
has_key-remove_at zero x key (y ∷ xs) d e =
    ground (arith, d.0, ap (λ (z : Item). z.key) (same_head e), str_eq_iff x.key key)
has_key-remove_at (suc i) x key (y ∷ xs) d e = ground (
  arith,
  has_key-remove_at i x key xs d.1 e,
  d.0,
  has_key_at xs i x e,
  str_eq_iff x.key key,
  str_eq_iff y.key key,
)

pub remove_at-IsDistinct :
    (i : ℕ) (xs : List Item) (x : Item)
    → IsDistinct xs
    → get_elem? xs i ≡ some x
    → IsDistinct (remove_at i xs)
remove_at-IsDistinct i [] x d e = tt
remove_at-IsDistinct zero (y ∷ xs) x d e = d.1
remove_at-IsDistinct (suc i) (y ∷ xs) x d e =
    (ground (arith, has_key-remove_at i x y.key xs d.1 e, d.0), remove_at-IsDistinct i xs x d.1 e)

pub sizes-remove_at :
    (i : ℕ) (xs : List Item) (x : Item)
    → get_elem? xs i ≡ some x
    → sizes (remove_at i xs) + x.size ≡ sizes xs
sizes-remove_at i [] x e = cc
sizes-remove_at zero (y ∷ xs) x e = omega (arith, ap (λ (z : Item). z.size) (same_head e))
sizes-remove_at (suc i) (y ∷ xs) x e = omega (arith, sizes-remove_at i xs x e)
