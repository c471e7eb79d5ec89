-- ===== src/Storage/Memory/Paging.antt =====
-- The pages of the memory driver follow one another without gap or overlap.
use jaydb.Base.{
  ℕ, zero, suc, ◌<◌, ◌≡◌, refl, sym, ap, subst, ◌∙◌, List, [], ◌∷◌, ◌++◌, Str, true, false, not,
  ◌&&◌, none, arith, length, take, drop, lookup, IsMap, is_some, str_eq, str_eq_iff, str_eq_refl,
  str_leb, str_ltb, str_ltb_irrefl, str_ltb_trans, str_ltb_asym, has_prefix, All-contains,
  contains_of_below, contains, IsAscending, IsDistinct, contains-sort, contains-keep_if,
  IsDistinct-keep_if, contains-append, sort-IsAscending, IsAscending-unique,
}
use jaydb.Storage.Memory.{Data, keys_of, listed_keys}
use jaydb.Storage.Memory.Pages.{last_of}

contains-keys_of : (m : Data) (k : Str) → contains (keys_of m) k ≡ is_some (lookup k m)
unfolding contains lookup
contains-keys_of [] k = refl
contains-keys_of ((i, e) ∷ m) k = ground (arith, contains-keys_of m k)

keys_of-IsDistinct : (m : Data) → IsMap m → IsDistinct (keys_of m)
keys_of-IsDistinct [] h = tt
keys_of-IsDistinct ((i, e) ∷ m) h = (contains-keys_of m i ∙ h.0, keys_of-IsDistinct m h.1)

-- What `List` looks at: the stored keys with the prefix behind the cursor, in order.
pub contains-listed_keys :
    (prefix cursor : Str) (m : Data) (k : Str)
    → contains (listed_keys prefix cursor m) k ≡ (
        has_prefix k prefix
        && not (not (str_eq cursor []) && str_leb k cursor)
        && is_some (lookup k m))
unfolding listed_keys
contains-listed_keys prefix cursor m k =
    contains-sort _ k ∙ contains-keep_if _ (keys_of m) k ∙ ground (arith, contains-keys_of m k)

pub listed_keys-IsAscending :
    (prefix cursor : Str) (m : Data) → IsMap m → IsAscending (listed_keys prefix cursor m)
unfolding listed_keys
listed_keys-IsAscending prefix cursor m h =
    sort-IsAscending _ (IsDistinct-keep_if _ (keys_of m) (keys_of-IsDistinct m h))

-- A list cut behind the place `n`.
split_at :
    (n : ℕ) (ks : List Str)
    → n < length ks
    → (before : List Str) × (c : Str) × (ks ≡ before ++ (c ∷ drop (suc n) ks))
      × (take (suc n) ks ≡ before ++ (c ∷ []))
split_at n [] h = absurd (omega arith)
split_at zero (k ∷ ks) h = ([], k, refl, refl)
split_at (suc n) (k ∷ ks) h =
    let (before, c, e, f) = split_at n ks (omega arith) in
    (k ∷ before, c, ap (◌∷◌ k) e, ap (◌∷◌ k) f)

last_of-append : (x c : Str) (before : List Str) → last_of x (before ++ (c ∷ [])) ≡ c
last_of-append x c [] = refl
last_of-append x c (b ∷ before) = last_of-append b c before

member :
    (before : List Str) (c : Str) (after : List Str) → contains (before ++ (c ∷ after)) c ≡ true
member before c after =
    contains-append before (c ∷ after) c ∙ unfold contains in rw (str_eq_refl c) (ground arith)

-- In an ascending list what stands behind a member is what is above it.
contains-after :
    (before : List Str) (c : Str) (after : List Str) (k : Str)
    → IsAscending (before ++ (c ∷ after))
    → contains after k ≡ (str_ltb c k && contains (before ++ (c ∷ after)) k)
unfolding contains
contains-after [] c after k h = ground (
  arith,
  All-contains (str_ltb c) after k h.0,
  contains_of_below c after h.0,
  str_ltb_irrefl c,
  str_eq_iff c k,
)
contains-after (b ∷ before) c after k h =
    let up : str_ltb b c ≡ true =
      All-contains (str_ltb b) (before ++ (c ∷ after)) c h.0 (member before c after) in
    ground (arith, contains-after before c after k h.1, str_ltb_asym b c up, str_eq_iff b k)

tail-IsAscending :
    (before : List Str) (c : Str) (after : List Str)
    → IsAscending (before ++ (c ∷ after))
    → IsAscending after
tail-IsAscending [] c after h = h.1
tail-IsAscending (b ∷ before) c after h = tail-IsAscending before c after h.1

next_members :
    (prefix cursor c k : Str) (m : Data)
    → lookup [] m ≡ none
    → contains (listed_keys prefix cursor m) c ≡ true
    → contains (listed_keys prefix c m) k
      ≡ (str_ltb c k && contains (listed_keys prefix cursor m) k)
unfolding str_leb
next_members prefix cursor c k m e h =
    let stored : is_some (lookup c m) ≡ true =
      ground (arith, contains-listed_keys prefix cursor m c) in
    let filled : str_eq c [] ≡ false =
      ground (arith, str_eq_iff c [], ap (λ (x : Str). is_some (lookup x m)) {x = c} {y = []}) in
    ground (
      arith,
      contains-listed_keys prefix cursor m c,
      contains-listed_keys prefix cursor m k,
      contains-listed_keys prefix c m k,
      str_ltb_trans cursor c k,
    )

-- The listing behind the last key of a page of `suc n` keys is what that page leaves, where the page
-- is full and no key is empty.
pub listed_keys-next :
    (prefix cursor : Str) (m : Data) (n : ℕ)
    → IsMap m
    → lookup [] m ≡ none
    → n < length (listed_keys prefix cursor m)
    → let ks = listed_keys prefix cursor m in
      listed_keys prefix (last_of [] (take (suc n) ks)) m ≡ drop (suc n) ks
listed_keys-next prefix cursor m n v e h =
    let ks = listed_keys prefix cursor m in
    let (before, c, cut, page) = split_at n ks h in
    let up = subst IsAscending cut (listed_keys-IsAscending prefix cursor m v) in
    let after = drop (suc n) ks in
    ap (λ (x : Str). listed_keys prefix x m) (ap (last_of []) page ∙ last_of-append [] c before)
    ∙ IsAscending-unique (listed_keys prefix c m) after (listed_keys-IsAscending prefix c m v)
        (tail-IsAscending before c after up)
        (λ k.
          next_members prefix cursor c k m e
            (ap (λ (l : List Str). contains l c) cut ∙ member before c after)
          ∙ ap (λ (l : List Str). str_ltb c k && contains l k) cut
          ∙ sym (contains-after before c after k up))

-- The cursor behind a page of stored keys is not the empty one.
pub last_of-member :
    (prefix cursor : Str) (m : Data) (n : ℕ)
    → lookup [] m ≡ none
    → n < length (listed_keys prefix cursor m)
    → str_eq (last_of [] (take (suc n) (listed_keys prefix cursor m))) [] ≡ false
last_of-member prefix cursor m n e h =
    let ks = listed_keys prefix cursor m in
    let (before, c, cut, page) = split_at n ks h in
    let last = ap (last_of []) page ∙ last_of-append [] c before in
    let stored : is_some (lookup c m) ≡ true = ground (
      arith,
      contains-listed_keys prefix cursor m c,
      ap (λ (l : List Str). contains l c) cut ∙ member before c (drop (suc n) ks),
    ) in
    ap (λ (x : Str). str_eq x []) last
    ∙ ground (arith, str_eq_iff c [], ap (λ (x : Str). is_some (lookup x m)) {x = c} {y = []})
