-- ===== src/Storage/Memory/Sorted.antt =====
-- A page of the memory driver, described by the stored keys alone.
use jaydb.Base.{
  ℕ, zero, suc, ◌<◌, ◌≡◌, ◌⊎◌, refl, sym, ap, subst, ◌∙◌, inl, inr, List, [], ◌∷◌, ◌++◌, Str, ◌&&◌,
  ◌||◌, Option, none, some, arith, length, take, lookup, IsMap, is_some, str_eq, ltb, leb,
  if◌then◌else◌, str_leb, str_ltb, has_prefix, contains, IsAscending, map, append-nil,
}
use jaydb.Storage.{KeyMeta}
use jaydb.Storage.Memory.{Data, Entry, list, listed_keys, key_meta}
use jaydb.Storage.Memory.Pages.{flat, meta_in, page_of, last_of, list-page_of}
use jaydb.Storage.Memory.Paging.{contains-listed_keys, listed_keys-IsAscending}

-- What a listing says of a key that is stored.
abbrev pub described : Str → Option Entry → KeyMeta
described k none = record { key = k; size = 0; etag = []; mod_time = 0 }
described k (some e) = record {
  key = k;
  size = length e.value;
  etag = e.etag;
  mod_time = e.mod_time;
}

-- The keys of a page and those behind it, in ascending order: together the stored keys with the
-- prefix that are above the cursor, where there is one. The page has all of them if there is no limit
-- or it is not reached, and else as many as the limit says, with its last key for the cursor.
pub record IsPage (prefix cursor : Str) (limit : ℕ) (m : Data) (page : List KeyMeta × Str)
    : Type 0 where
  pub keys : List Str
  pub later : List Str
  pub ascending : IsAscending (keys ++ later)
  pub members :
      (k : Str)
      → contains (keys ++ later) k
        ≡ (has_prefix k prefix && ((str_eq cursor [] || str_ltb cursor k) && is_some (lookup k m)))
  pub shown : page.0 ≡ map (λ k. described k (lookup k m)) keys
  pub end :
      ((later ≡ []) × (page.1 ≡ []) × ((limit ≡ 0) ⊎ (length keys < limit)))
      ⊎ ((0 < limit) × (length keys ≡ limit) × (page.1 ≡ last_of [] keys))

key_meta-described : (k : Str) (o : Option Entry) → key_meta k o ≡ described k o
key_meta-described k none = refl
key_meta-described k (some e) = refl

map-described :
    (m : Data) (ks : List Str) → map (meta_in m) ks ≡ map (λ k. described k (lookup k m)) ks
map-described m [] = refl
map-described m (k ∷ ks) =
    ap (λ x. x ∷ map (meta_in m) ks) (key_meta-described k (lookup k m))
    ∙ ap (λ xs. described k (lookup k m) ∷ xs) (map-described m ks)

-- A list cut behind `n` places.
cut :
    (n : ℕ) (ks : List Str)
    → (later : List Str) × (take n ks ++ later ≡ ks)
      × (((later ≡ []) × (length (take n ks) < n)) ⊎ (length (take n ks) ≡ n))
cut zero ks = (ks, refl, inr refl)
cut (suc n) [] = ([], refl, inl (refl, omega arith))
cut (suc n) (k ∷ ks) =
    let (later, e, c) = cut n ks in
    let c' : ((later ≡ []) × (length (take (suc n) (k ∷ ks)) < suc n))
        ⊎ (length (take (suc n) (k ∷ ks)) ≡ suc n) =
      elim c [ inl h ↦ inl (h.0, omega (arith, h.1)) | inr h ↦ inr (omega (arith, h)) ] in
    (later, ap (◌∷◌ k) e, c')

members_of :
    (prefix cursor : Str) (m : Data) (k : Str)
    → contains (listed_keys prefix cursor m) k
      ≡ (has_prefix k prefix && ((str_eq cursor [] || str_ltb cursor k) && is_some (lookup k m)))
unfolding str_leb
members_of prefix cursor m k = ground (arith, contains-listed_keys prefix cursor m k)

-- The cursor behind a page of the keys that a limit leaves.
abbrev next_after : ℕ → List Str → Str
next_after limit keys = if ltb 0 limit && leb limit (length keys) then last_of [] keys else []

listed-IsPage :
    (prefix cursor : Str) (limit : ℕ) (m : Data) (keys later : List Str)
    → IsMap m
    → keys ++ later ≡ listed_keys prefix cursor m
    → ((later ≡ []) × (next_after limit keys ≡ []) × ((limit ≡ 0) ⊎ (length keys < limit)))
      ⊎ ((0 < limit) × (length keys ≡ limit) × (next_after limit keys ≡ last_of [] keys))
    → IsPage prefix cursor limit m (map (meta_in m) keys, next_after limit keys)
listed-IsPage prefix cursor limit m keys later v e end = record {
  keys = keys;
  later = later;
  ascending = subst IsAscending (sym e) (listed_keys-IsAscending prefix cursor m v);
  members = λ k. ap (λ ks. contains ks k) e ∙ members_of prefix cursor m k;
  shown = map-described m keys;
  end = end;
}

page_of-take : (n : ℕ) (ks : List Str) → page_of (suc n) ks ≡ take (suc n) ks
page_of-take n ks = ground arith

-- A page without a delimiter, over the stored keys: it has the first `limit` of those with the prefix
-- that are above the cursor, in ascending order, or all where the limit is zero or above their number,
-- each with the size, the ETag and the time of its entry. The next cursor is the page's last key where
-- the limit is reached, and else empty.
pub list-IsPage :
    (prefix cursor : Str) (limit : ℕ) (m : Data)
    → IsMap m
    → IsPage prefix cursor limit m (list prefix (flat limit cursor) m)
list-IsPage prefix cursor zero m v =
    let ks = listed_keys prefix cursor m in
    subst (IsPage prefix cursor 0 m) (sym (list-page_of prefix cursor 0 m))
      (listed-IsPage prefix cursor 0 m ks [] v (append-nil ks) (inl (refl, refl, inl refl)))
list-IsPage prefix cursor (suc n) m v =
    let ks = listed_keys prefix cursor m in
    let page = take (suc n) ks in
    let (later, e, c) = cut (suc n) ks in
    let whole =
      list-page_of prefix cursor (suc n) m
      ∙ ap (λ ks. (map (meta_in m) ks, next_after (suc n) ks)) (page_of-take n ks) in
    subst (IsPage prefix cursor (suc n) m) (sym whole) (
      listed-IsPage prefix cursor (suc n) m page later v e (elim c [
        | inl h ↦ inl (h.0, ground (arith, h.1), inr h.1)
        | inr h ↦ inr (omega arith, h, ground (arith, h))
      ]))
