-- ===== src/Db/Listing/Complete.antt =====
-- `List` over the memory driver returns the keys with the prefix, in order, up to the limit.
use jaydb.Base.{
  ℕ, zero, suc, ◌≤◌, ◌<◌, ◌≡◌, refl, sym, ap, ◌∙◌, inl, inr, List, [], ◌∷◌, ◌++◌, map, append_assoc,
  Str, true, false, ◌&&◌, ◌||◌, none, some, arith, if◌then◌else◌, ltb, leb, ◌==◌, length,
  length-append, take, drop, take_all, length-take_of_le, length-drop, take-append-drop, lookup,
  IsMap, str_eq, str_eq_refl, ℤ, pos, pos_part, Result, ok, Bool-cases,
}
use mathlib.Core.List.{map-append}
use jaydb.Storage.{KeyMeta, ListOptions, Error}
use jaydb.Storage.Memory as M
use jaydb.Storage.Memory.Pages.{flat, meta_in, last_of, list-page_of}
use jaydb.Storage.Memory.Paging.{listed_keys-next, last_of-member}
use jaydb.Db.{Item, item_of}
use jaydb.Db.Listing.{list_page, page_limit, list_from, list}

-- The memory driver as what answers a page.
abbrev pub memory_pages :
    M.Data → Str → ListOptions → Unit {0} → Result Error (List KeyMeta × Str) × Unit {0}
memory_pages m prefix opts s = (ok (M.list prefix opts m), s)

abbrev pub item_at : M.Data → Str → Item
item_at m k = item_of (meta_in m k)

-- The first `limit` elements, or all of them where the limit is zero.
abbrev pub first_of {ℓ} : {A : Type ℓ} → ℕ → List A → List A
first_of limit xs = if ltb 0 limit then take limit xs else xs

module _ {ℓ} {A : Type ℓ} where
  take-append_of_le : (n : ℕ) (xs ys : List A) → n ≤ length xs → take n (xs ++ ys) ≡ take n xs
  take-append_of_le zero xs ys h = refl
  take-append_of_le (suc n) [] ys h = absurd (omega arith)
  take-append_of_le (suc n) (x ∷ xs) ys h = ap (◌∷◌ x) (take-append_of_le n xs ys (omega arith))

map-map : (m : M.Data) (ks : List Str) → map item_of (map (meta_in m) ks) ≡ map (item_at m) ks
map-map m [] = refl
map-map m (k ∷ ks) = ap (◌∷◌ (item_at m k)) (map-map m ks)

length-map : (m : M.Data) (xs : List Str) → length (map (item_at m) xs) ≡ length xs
length-map m [] = refl
length-map m (x ∷ xs) = ap suc (length-map m xs)

-- Where the page of `n` keys ends.
abbrev next_of : ℕ → List Str → Str
next_of n ks = if leb n (length ks) then last_of [] (take n ks) else []

full_page : (n : ℕ) (ks : List Str) → leb n (length (take n ks)) ≡ leb n (length ks)
full_page n ks = elim (Bool-cases (leb n (length ks))) [
  | inl e ↦ rw e (ground (arith, length-take_of_le n ks))
  | inr e ↦ ap (λ (l : List Str). leb n (length l)) (take_all ks n (ground arith))
]

list_page_lem :
    (m : M.Data) (prefix cursor : Str) (n : ℕ)
    → 0 < n
    → list_page (memory_pages m) prefix (record { limit = pos n; cursor = cursor }) tt ≡ (
      ok (
        map (item_at m) (take n (M.listed_keys prefix cursor m)),
        next_of n (M.listed_keys prefix cursor m),
      ),
      tt,
    )
unfolding list_page
list_page_lem m prefix cursor n p =
    let ks = M.listed_keys prefix cursor m in
    let some_limit : leb n 0 ≡ false = ground arith in
    let wanted : ltb 0 n ≡ true = ground arith in
    let full = full_page n ks in
    let page : M.list prefix (flat n cursor) m ≡ (map (meta_in m) (take n ks), next_of n ks) =
      list-page_of prefix cursor n m ∙ rw (wanted, full) refl in
    rw (some_limit, page, map-map m (take n ks)) refl

-- One round of `List`, from what a page returned: the limit is reached, the listing ends, or it goes
-- on.
module _ (m : M.Data) (fuel limit : ℕ) (prefix cursor next : Str) (items page : List Item)
    (h : list_page
        (memory_pages m)
        prefix
        (record { limit = pos (page_limit limit (length items)); cursor = cursor })
        tt
      ≡ (ok (page, next), tt)) where
  round_reached :
      (ltb 0 limit && leb limit (length (items ++ page))) ≡ true
      → list_from (memory_pages m) (suc fuel) prefix limit items cursor tt
        ≡ some (ok (take limit (items ++ page)), tt)
  unfolding list_from
  round_reached c = rw (h, list_from, c) refl

  round_ended :
      (ltb 0 limit && leb limit (length (items ++ page))) ≡ false
      → (str_eq next [] || (length page == 0)) ≡ true
      → list_from (memory_pages m) (suc fuel) prefix limit items cursor tt
        ≡ some (ok (items ++ page), tt)
  unfolding list_from
  round_ended c d = rw (h, list_from, c, d) refl

  round_on :
      (ltb 0 limit && leb limit (length (items ++ page))) ≡ false
      → (str_eq next [] || (length page == 0)) ≡ false
      → list_from (memory_pages m) (suc fuel) prefix limit items cursor tt
        ≡ list_from (memory_pages m) fuel prefix limit (items ++ page) next tt
  unfolding list_from
  round_on c d = rw (h, list_from, c, d) refl

first_of_all :
    (limit : ℕ) (xs : List Item)
    → (ltb 0 limit && leb limit (length xs)) ≡ false
    → first_of limit xs ≡ xs
first_of_all limit xs c = elim (Bool-cases (ltb 0 limit)) [
  | inl w ↦ rw w (take_all xs limit (ground arith))
  | inr w ↦ rw w refl
]

first_of_limit :
    (limit : ℕ) (xs : List Item) → ltb 0 limit ≡ true → first_of limit xs ≡ take limit xs
first_of_limit limit xs w = rw w refl

-- A full page: its cursor is a key, and behind it stands what the page leaves.
next_of_full :
    (m : M.Data) (prefix cursor : Str) (n : ℕ)
    → IsMap m
    → lookup [] m ≡ none
    → 0 < n
    → leb n (length (M.listed_keys prefix cursor m)) ≡ true
    → let ks = M.listed_keys prefix cursor m in
      (str_eq (next_of n ks) [] ≡ false) × (M.listed_keys prefix (next_of n ks) m ≡ drop n ks)
next_of_full m prefix cursor zero v e p f = absurd (omega arith)
next_of_full m prefix cursor (suc n) v e p f =
    let enough : n < length (M.listed_keys prefix cursor m) = ground arith in
    rw f (last_of-member prefix cursor m n e enough, listed_keys-next prefix cursor m n v e enough)

-- The rest of a listing, from the items of the pages so far.
list_from_lem :
    (m : M.Data) (fuel limit : ℕ) (prefix cursor : Str) (items : List Item)
    → IsMap m
    → lookup [] m ≡ none
    → length (M.listed_keys prefix cursor m) < fuel
    → (0 < limit → length items < limit)
    → list_from (memory_pages m) fuel prefix limit items cursor tt
      ≡ some (ok (first_of limit (items ++ map (item_at m) (M.listed_keys prefix cursor m))), tt)
list_from_lem m zero limit prefix cursor items v e enough room = absurd (omega arith)
list_from_lem m (suc fuel) limit prefix cursor items v e enough room =
    let ks = M.listed_keys prefix cursor m in
    let n = page_limit limit (length items) in
    let p : 0 < n = ground arith in
    let page = map (item_at m) (take n ks) in
    let rest = map (item_at m) (drop n ks) in
    let cut : items ++ map (item_at m) ks ≡ (items ++ page) ++ rest =
      ap (λ (l : List Str). items ++ map (item_at m) l) (sym (take-append-drop n ks))
      ∙ ap (λ (l : List Item). items ++ l) (map-append (item_at m) (take n ks) (drop n ks))
      ∙ sym (append_assoc items page rest) in
    let h = list_page_lem m prefix cursor n p in
    let long = length-append items page in
    let short = length-map m (take n ks) in
    elim (Bool-cases (ltb 0 limit && leb limit (length (items ++ page)))) [
      | inl c ↦
          let wanted : ltb 0 limit ≡ true = ground arith in
          round_reached m fuel limit prefix cursor (next_of n ks) items page h c
          ∙ ap (λ (l : List Item). some (ok l, tt))
              (sym (
                first_of_limit limit (items ++ map (item_at m) ks) wanted
                ∙ ap (take limit) cut
                ∙ take-append_of_le limit (items ++ page) rest (ground arith)))
      | inr c ↦ elim (Bool-cases (leb n (length ks))) [
        | inr f ↦
            let whole = ap (map (item_at m)) (take_all ks n (ground arith)) in
            let stop : str_eq (next_of n ks) [] ≡ true = rw f (str_eq_refl []) in
            round_ended m fuel limit prefix cursor (next_of n ks) items page h c (rw stop refl)
            ∙ ap (λ (l : List Item). some (ok l, tt))
                (sym (first_of_all limit (items ++ page) c)
                  ∙ ap (λ (l : List Item). first_of limit (items ++ l)) whole)
        | inl f ↦
            let (more, left) = next_of_full m prefix cursor n v e p f in
            let many : length page ≡ n = short ∙ length-take_of_le n ks (ground arith) in
            let le : n ≤ length ks = ground arith in
            let fewer : length (M.listed_keys prefix (next_of n ks) m) < fuel =
              omega (arith, enough, ap (length {A = Str}) left, length-drop n ks, p) in
            round_on m fuel limit prefix cursor (next_of n ks) items page h c (ground arith)
            ∙ list_from_lem m fuel limit prefix (next_of n ks) (items ++ page) v e fewer
                (ground arith)
            ∙ ap
                (λ (l : List Str).
                  some (ok (first_of limit ((items ++ page) ++ map (item_at m) l)), tt))
                left
            ∙ ap (λ (l : List Item). some (ok (first_of limit l), tt)) (sym cut)
      ]
    ]

-- Over the memory driver, with more fuel than there are keys with the prefix and no empty key stored,
-- `List` returns, and what it returns is the stored keys with the prefix in ascending order, the
-- first `limit` of them where the limit is positive and else all, whatever the number of pages.
pub list-memory :
    (m : M.Data) (fuel : ℕ) (prefix : Str) (limit : ℤ)
    → IsMap m
    → lookup [] m ≡ none
    → length (M.listed_keys prefix [] m) < fuel
    → list (memory_pages m) fuel prefix limit tt
      ≡ some (ok (first_of (pos_part limit) (map (item_at m) (M.listed_keys prefix [] m))), tt)
unfolding list
list-memory m fuel prefix limit v e enough =
    list_from_lem m fuel (pos_part limit) prefix [] [] v e enough (λ h. h)
