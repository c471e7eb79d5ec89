-- ===== src/Sharding/Ring/Search.antt =====
-- `NodeIndex`: the binary search finds the place of a member, and of members alone.
use jaydb.Base.{
  ℕ, zero, suc, ◌+◌, ◌/◌, ◌≤◌, ◌<◌, ◌≡◌, refl, ap, inl, inr, List, [], ◌∷◌, Str, true, false,
  Option, none, some, arith, length, get_elem?, ltb, pos, negsuc, str_ltb, str_eq_iff,
  str_ltb_irrefl, str_ltb_trans, Bool-cases, Option-cases, contains_of_get_elem?, IsAscending,
  IsAscending-get_elem??, ltb→lt,
}
use jaydb.Sharding.Ring.{Ring, has_node, node_index, search_strings, is_below}
use jaydb.Sharding.Ring.Invariant.{IsRing}

-- The elements in front of `p` are below `addr`, and no other.
pub record Splits (xs : List Str) (addr : Str) (p : ℕ) : Type 0 where
  pub front : (n : ℕ) → n < p → is_below addr (get_elem? xs n) ≡ true
  pub back : (n : ℕ) → p ≤ n → is_below addr (get_elem? xs n) ≡ false

get_elem?_before :
    (xs : List Str) (h n : ℕ) (b : Str)
    → get_elem? xs h ≡ some b
    → n ≤ h
    → (a : Str) × (get_elem? xs n ≡ some a)
get_elem?_before [] h n b e l = cc
get_elem?_before (x ∷ xs) h zero b e l = (x, refl)
get_elem?_before (x ∷ xs) zero (suc n) b e l = absurd (omega arith)
get_elem?_before (x ∷ xs) (suc h) (suc n) b e l = get_elem?_before xs h n b e (omega arith)

is_below-some :
    (addr : Str) (o : Option Str)
    → is_below addr o ≡ true
    → (b : Str) × (o ≡ some b) × (str_ltb b addr ≡ true)
is_below-some addr none h = cc
is_below-some addr (some b) h = (b, refl, h)

below_before :
    (xs : List Str) (addr : Str) (h n : ℕ)
    → IsAscending xs
    → n ≤ h
    → is_below addr (get_elem? xs h) ≡ true
    → is_below addr (get_elem? xs n) ≡ true
below_before xs addr h n asc l e =
    let (b, at_h, lt) = is_below-some addr (get_elem? xs h) e in
    let (a, at_n) = get_elem?_before xs h n b at_h l in
    elim (Bool-cases (ltb n h)) [
      | inl q ↦ rw at_n (
          str_ltb_trans a b addr (IsAscending-get_elem?? xs n h a b asc (ltb→lt n h q) at_n at_h)
            lt)
      | inr q ↦ let same : n ≡ h = ground arith in rw same e
    ]

not_below_after :
    (xs : List Str) (addr : Str) (h n : ℕ)
    → IsAscending xs
    → h ≤ n
    → is_below addr (get_elem? xs h) ≡ false
    → is_below addr (get_elem? xs n) ≡ false
not_below_after xs addr h n asc l e = elim (Bool-cases (is_below addr (get_elem? xs n))) [
  | inl q ↦ ground (arith, below_before xs addr n h asc l q)
  | inr q ↦ q
]

-- The length of the range is enough fuel.
search_strings-Splits :
    (fuel : ℕ) (xs : List Str) (addr : Str) (i j : ℕ)
    → IsAscending xs
    → i ≤ j
    → j ≤ i + fuel
    → ((n : ℕ) → n < i → is_below addr (get_elem? xs n) ≡ true)
    → ((n : ℕ) → j ≤ n → is_below addr (get_elem? xs n) ≡ false)
    → Splits xs addr (search_strings fuel xs addr i j)
unfolding search_strings
search_strings-Splits zero xs addr i j a l f lo hi = record {
  front = lo;
  back = λ n k. hi n (omega arith);
}
search_strings-Splits (suc fuel) xs addr i j a l f lo hi = elim (Bool-cases (ltb i j)) [
  | inr e ↦ rw e (record { front = lo; back = λ n k. hi n (ground arith) })
  | inl e ↦
      let h = (i + j) / 2 in
      let lt : i < j = ltb→lt i j e in
      elim (Bool-cases (is_below addr (get_elem? xs h))) [
        | inl q ↦
            rw (e, q)
              (search_strings-Splits fuel xs addr (h + 1) j a (omega arith) (omega arith)
                (λ n k. below_before xs addr h n a (omega arith) q) hi)
        | inr q ↦
            rw (e, q)
              (search_strings-Splits fuel xs addr i h a (omega arith) (omega arith) lo
                (λ n k. not_below_after xs addr h n a k q))
      ]
]

get_elem?_past {ℓ} : {A : Type ℓ} (xs : List A) (n : ℕ) → length xs ≤ n → get_elem? xs n ≡ none
get_elem?_past [] n h = refl
get_elem?_past (x ∷ xs) zero h = absurd (omega arith)
get_elem?_past (x ∷ xs) (suc n) h = get_elem?_past xs n (omega arith)

search-Splits :
    (xs : List Str) (addr : Str)
    → IsAscending xs
    → Splits xs addr (search_strings (length xs) xs addr 0 (length xs))
search-Splits xs addr a =
    search_strings-Splits (length xs) xs addr 0 (length xs) a (omega arith) (omega arith)
      (λ n k. absurd (omega arith)) (λ n k. rw (get_elem?_past xs n k))

-- In an ascending list the split stands at a member's own place.
split_at_member :
    (xs : List Str) (addr : Str) (p i : ℕ)
    → IsAscending xs
    → Splits xs addr p
    → get_elem? xs i ≡ some addr
    → p ≡ i
split_at_member xs addr p i a s e =
    let here : is_below addr (get_elem? xs i) ≡ false = rw e (str_ltb_irrefl addr) in
    elim (Bool-cases (ltb i p)) [
      | inl q ↦ ground (arith, s.front i (ltb→lt i p q))
      | inr q ↦ elim (Bool-cases (ltb p i)) [
        | inr r ↦ ground arith
        | inl r ↦
            let (b, at) = get_elem?_before xs i p addr e (ground arith) in
            let back : is_below addr (get_elem? xs p) ≡ false = s.back p (omega arith) in
            ground (arith, IsAscending-get_elem?? xs p i b addr a (ltb→lt p i r) at e)
      ]
    ]

-- `NodeIndex` is the place of a member in the sorted nodes, and -1 for any other address.
pub node_index-place :
    (r : Ring) (addr : Str)
    → IsRing r
    → ((i : ℕ) → get_elem? r.nodes i ≡ some addr → node_index r addr ≡ pos i)
      × (has_node r addr ≡ false → node_index r addr ≡ negsuc 0)
unfolding node_index
node_index-place r addr v =
    let p = search_strings (length r.nodes) r.nodes addr 0 (length r.nodes) in
    let s = search-Splits r.nodes addr v.ascending in
    (
      λ i e. ground (
        arith,
        split_at_member r.nodes addr p i v.ascending s e,
        ap (get_elem? r.nodes) (split_at_member r.nodes addr p i v.ascending s e),
        str_eq_iff addr addr,
      ),
      λ absent. elim (Option-cases (get_elem? r.nodes p)) [
        | inl e ↦ ground arith
        | inr (n, e) ↦
            ground (arith, contains_of_get_elem? r.nodes p n e, v.members n, str_eq_iff n addr)
      ],
    )
