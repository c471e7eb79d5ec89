-- ===== src/Storage/Memory/Pages.antt =====
-- `List` of the memory driver without a delimiter: a page is the first keys of the sorted listing.
use jaydb.Base.{
  ℕ, suc, ◌-◌, ◌≡◌, refl, ap, ◌∙◌, sym, inl, inr, List, [], ◌∷◌, ◌++◌, map, append_assoc,
  append-nil, Str, ◌&&◌, none, arith, if◌then◌else◌, ltb, leb, length, length-append, take,
  take_all, lookup, str_eq_refl, Bool-cases,
}
use jaydb.Storage.{KeyMeta, ListOptions}
use jaydb.Storage.Memory.{Data, list, list_loop, listed_keys, key_meta, dir_of}

-- The options of a page of `limit` keys after `cursor`, with no delimiter.
abbrev pub flat : ℕ → Str → ListOptions
flat limit cursor = record { limit = limit; cursor = cursor; delimiter = [] }

-- How many of `left` keys a page that has `have` results still takes.
abbrev pub room : ℕ → ℕ → ℕ → ℕ
room limit have left = if ltb 0 limit then limit - have else left

-- The last key of a page, if it has one.
abbrev pub last_of : Str → List Str → Str
last_of next [] = next
last_of next (k ∷ ks) = last_of k ks

abbrev pub meta_in : Data → Str → KeyMeta
meta_in entries k = key_meta k (lookup k entries)

no_dir : (prefix k : Str) → dir_of prefix [] k ≡ none
no_dir prefix k = rw (str_eq_refl []) refl

list_loop_lem :
    (prefix cursor : Str) (limit : ℕ) (entries : Data) (ks : List Str) (results : List KeyMeta)
    (next : Str)
    → list_loop prefix (flat limit cursor) entries ks results next ≡ (
      results ++ map (meta_in entries) (take (room limit (length results) (length ks)) ks),
      last_of next (take (room limit (length results) (length ks)) ks),
    )
unfolding list_loop
list_loop_lem prefix cursor limit entries [] results next =
    rw (take_all {A = Str} [] (room limit (length results) 0) (omega arith))
      (ap (λ (r : List KeyMeta). (r, next)) (sym (append-nil results)))
list_loop_lem prefix cursor limit entries (k ∷ ks) results next =
    elim (Bool-cases (ltb 0 limit && leb limit (length results))) [
      | inl h ↦
          let z : room limit (length results) (length (k ∷ ks)) ≡ 0 = ground arith in
          rw (h, z) (ap (λ (r : List KeyMeta). (r, next)) (sym (append-nil results)))
      | inr h ↦
          let s : room limit (length results) (length (k ∷ ks))
              ≡ suc (room limit (length (results ++ (meta_in entries k ∷ []))) (length ks)) =
            ground (arith, length-append results (meta_in entries k ∷ [])) in
          rw
            (
              h,
              s,
              no_dir prefix k,
              list_loop_lem prefix cursor limit entries ks (results ++ (meta_in entries k ∷ [])) k,
            )
            (ap
              (λ (r : List KeyMeta). (
                r,
                last_of k (
                    take (room limit (length (results ++ (meta_in entries k ∷ []))) (length ks))
                      ks),
              ))
              (append_assoc results (meta_in entries k ∷ []) _))
    ]

-- The first `limit` keys, or all of them where the limit is zero.
abbrev pub page_of : ℕ → List Str → List Str
page_of limit ks = if ltb 0 limit then take limit ks else ks

room_page : (limit : ℕ) (ks : List Str) → take (room limit 0 (length ks)) ks ≡ page_of limit ks
room_page limit ks = elim (Bool-cases (ltb 0 limit)) [
  | inl h ↦ rw h (ap (λ (n : ℕ). take n ks) (omega arith))
  | inr h ↦ rw h (take_all ks (length ks) (omega arith))
]

length-map : (f : Str → KeyMeta) (ks : List Str) → length (map f ks) ≡ length ks
length-map f [] = refl
length-map f (k ∷ ks) = omega (arith, length-map f ks)

-- A page without a delimiter is made of the first `limit` keys of the sorted listing behind the
-- cursor, of all of them where the limit is zero, each with the size, the ETag and the time of its
-- entry. The next cursor is the last key of the page where there is a limit and the page reaches
-- it, and else it is empty.
pub list-page_of :
    (prefix cursor : Str) (limit : ℕ) (entries : Data)
    → list prefix (flat limit cursor) entries ≡ (
      map (meta_in entries) (page_of limit (listed_keys prefix cursor entries)),
      (if ltb 0 limit && leb limit (length (page_of limit (listed_keys prefix cursor entries)))
          then last_of [] (page_of limit (listed_keys prefix cursor entries))
          else []),
    )
unfolding list
list-page_of prefix cursor limit entries =
    let ks = listed_keys prefix cursor entries in
    let l =
      list_loop_lem prefix cursor limit entries ks [] []
      ∙ ap (λ (p : List Str). (map (meta_in entries) p, last_of [] p)) (room_page limit ks) in
    rw (l, length-map (meta_in entries) (page_of limit ks))
      (ap (λ (c : Str). (map (meta_in entries) (page_of limit ks), c)) (ground arith))
