-- ===== src/Cache/ListCache/Invalidation.antt =====
-- What the invalidations leave of the cached pages.
use jaydb.Base.{
  ℕ, zero, suc, ◌≡◌, ◌⊎◌, refl, sym, ap, ◌∙◌, subst, inl, inr, List, [], ◌∷◌, ◌++◌, append-nil, Str,
  Bool, true, false, not, ◌||◌, none, some, arith, get_elem?, keep_if, All, lookup, lookup-erase,
  lookup-erase_self, eq_of_str_eq, erase, str_eq, has_prefix, has_prefix-append, Bool-cases,
}
use jaydb.Cache.ListCache.{
  ListCache, Page, key_string, drop_pages, touches_key, overlaps, invalidate_key, invalidate_prefix,
  add_uint64,
}

-- A key is a prefix and something behind it.
abbrev pub IsBegin : Str → Str → Type 0
IsBegin prefix key = (rest : Str) × (key ≡ prefix ++ rest)

-- A listing can have the key on it; and it can have some key with the prefix.
abbrev pub MayHave : Str → Page → Type 0
MayHave key p = IsBegin p.key.prefix key

abbrev pub MayShare : Str → Page → Type 0
MayShare prefix p = (key : Str) × IsBegin prefix key × IsBegin p.key.prefix key

IsBegin-of_has_prefix : (key prefix : Str) → has_prefix key prefix ≡ true → IsBegin prefix key
unfolding has_prefix
IsBegin-of_has_prefix key [] h = (key, refl)
IsBegin-of_has_prefix [] (p ∷ ps) h = cc
IsBegin-of_has_prefix (k ∷ ks) (p ∷ ps) h =
    let (rest, e) = IsBegin-of_has_prefix ks ps (ground arith) in
    let e' : k ≡ p = ground arith in (rest, ap (λ x. x ∷ ks) e' ∙ ap (◌∷◌ p) e)

has_prefix-IsBegin : (key prefix : Str) → IsBegin prefix key → has_prefix key prefix ≡ true
has_prefix-IsBegin key prefix (rest, e) =
    ap (λ k. has_prefix k prefix) e ∙ has_prefix-append prefix rest

-- Of two beginnings of one key one begins the other.
comparable :
    (a b key : Str)
    → has_prefix key a ≡ true
    → has_prefix key b ≡ true
    → (has_prefix a b || has_prefix b a) ≡ true
unfolding has_prefix
comparable [] [] key h k = refl
comparable [] (y ∷ b) key h k = refl
comparable (x ∷ a) [] key h k = refl
comparable (x ∷ a) (y ∷ b) [] h k = cc
comparable (x ∷ a) (y ∷ b) (z ∷ key) h k = ground (arith, comparable a b key)

empty-begins : (s prefix : Str) → str_eq prefix [] ≡ true → has_prefix s prefix ≡ true
unfolding has_prefix str_eq
empty-begins s [] h = refl
empty-begins s (p ∷ ps) h = cc

-- A test of the code that decides what an independent predicate says.
abbrev Tells : (Page → Bool) → (Page → Type 0) → Type 0
Tells test P = (p : Page) → ((test p ≡ true) × P p) ⊎ ((test p ≡ false) × ¬ P p)

kept_at :
    (f : Page → Bool) (xs : List Page) (i : ℕ) (p : Page)
    → get_elem? xs i ≡ some p
    → f p ≡ true
    → (j : ℕ) × (get_elem? (keep_if f xs) j ≡ some p)
kept_at f [] i p g t = cc
kept_at f (x ∷ xs) zero p g t =
    let same : x ≡ p = cc in let t' : f x ≡ true = ap f same ∙ t in (0, rw t' (ap some same))
kept_at f (x ∷ xs) (suc i) p g t =
    let (j, h) = kept_at f xs i p g t in
    elim (Bool-cases (f x)) [ inl e ↦ (suc j, rw e h) | inr e ↦ (j, rw e h) ]

none_left :
    (test : Page → Bool) (P : Page → Type 0) (xs : List Page)
    → Tells test P
    → All (λ p. ¬ P p) (keep_if (λ p. not (test p)) xs)
none_left test P [] d = tt
none_left test P (x ∷ xs) d = elim (d x) [
  | inl (e, h) ↦ rw e (none_left test P xs d)
  | inr (e, h) ↦ rw e (h, none_left test P xs d)
]

module _ (show_int : ℕ → Str) where
  touches_key-Tells : (key : Str) → Tells (touches_key show_int key) (MayHave key)
  touches_key-Tells key p = elim (Bool-cases (touches_key show_int key p)) [
    | inl h ↦ inl (
      h,
      IsBegin-of_has_prefix key p.key.prefix (ground (arith, h, empty-begins key p.key.prefix)),
    )
    | inr h ↦ inr (h, λ b. ground (arith, h, has_prefix-IsBegin key p.key.prefix b))
  ]

  shared :
      (prefix : Str) (p : Page)
      → (has_prefix p.key.prefix prefix || has_prefix prefix p.key.prefix) ≡ true
      → MayShare prefix p
  shared prefix p h = elim (Bool-cases (has_prefix p.key.prefix prefix)) [
    | inl e ↦ (
      p.key.prefix,
      IsBegin-of_has_prefix p.key.prefix prefix e,
      ([], sym (append-nil p.key.prefix)),
    )
    | inr e ↦ (
      prefix,
      ([], sym (append-nil prefix)),
      IsBegin-of_has_prefix prefix p.key.prefix (ground (arith, e, h)),
    )
  ]

  overlaps-Tells : (prefix : Str) → Tells (overlaps show_int prefix) (MayShare prefix)
  overlaps-Tells prefix p = elim (Bool-cases (overlaps show_int prefix p)) [
    | inl h ↦ inl (
      h,
      shared prefix p
          (ground (arith, h, empty-begins p.key.prefix prefix, empty-begins prefix p.key.prefix)),
    )
    | inr h ↦ inr (
      h,
      λ b.
          let a = has_prefix-IsBegin b.0 prefix b.1 in
          let c = has_prefix-IsBegin b.0 p.key.prefix b.2 in
          ground (arith, h, comparable prefix p.key.prefix b.0 a c),
    )
  ]

  drop_pages-lru :
      (test : Page → Bool) (ps : List Page) (c : ListCache)
      → (drop_pages show_int test ps c).lru ≡ keep_if (λ p. not (test p)) ps
  unfolding drop_pages
  drop_pages-lru test [] c = refl
  drop_pages-lru test (p ∷ ps) c = elim (Bool-cases (test p)) [
    | inl e ↦ rw e (drop_pages-lru test ps _)
    | inr e ↦ rw e (ap (λ (xs : List Page). p ∷ xs) (drop_pages-lru test ps c))
  ]

  abbrev with_dropped : Page → ListCache → ListCache
  with_dropped p c = record c {
    items = erase (key_string show_int p.key) c.items;
    invalidations = add_uint64 c.invalidations 1;
  }

  drop_pages-none :
      (test : Page → Bool) (s : Str) (ps : List Page) (c : ListCache)
      → lookup s c.items ≡ none
      → lookup s (drop_pages show_int test ps c).items ≡ none
  unfolding drop_pages
  drop_pages-none test s [] c h = h
  drop_pages-none test s (p ∷ ps) c h = elim (Bool-cases (test p)) [
    | inl e ↦ rw e (
        drop_pages-none test s ps (with_dropped p c)
          (ground (arith, h, lookup-erase (key_string show_int p.key) s c.items)))
    | inr e ↦ rw e (drop_pages-none test s ps c h)
  ]

  drop_pages-dropped :
      (test : Page → Bool) (ps : List Page) (c : ListCache) (i : ℕ) (p : Page)
      → get_elem? ps i ≡ some p
      → test p ≡ true
      → lookup (key_string show_int p.key) (drop_pages show_int test ps c).items ≡ none
  unfolding drop_pages
  drop_pages-dropped test [] c i p g t = cc
  drop_pages-dropped test (q ∷ ps) c zero p g t =
      let same : q ≡ p = cc in
      let t' : test q ≡ true = ap test same ∙ t in
      ap (λ x. lookup (key_string show_int x.key) (drop_pages show_int test (q ∷ ps) c).items)
        (sym same)
      ∙ rw t' (
          drop_pages-none test (key_string show_int q.key) ps (with_dropped q c)
            (lookup-erase_self (key_string show_int q.key) c.items))
  drop_pages-dropped test (q ∷ ps) c (suc i) p g t = elim (Bool-cases (test q)) [
    | inl e ↦ rw e (drop_pages-dropped test ps (with_dropped q c) i p g t)
    | inr e ↦ rw e (drop_pages-dropped test ps c i p g t)
  ]

  -- What the map has under a string stays, unless a page goes that has the string for its key.
  drop_pages-kept :
      (test : Page → Bool) (s : Str) (ps : List Page) (c : ListCache)
      → (lookup s (drop_pages show_int test ps c).items ≡ lookup s c.items)
        ⊎ ((i : ℕ) × (q : Page) × (get_elem? ps i ≡ some q)
            × (test q ≡ true)
            × (key_string show_int q.key ≡ s))
  unfolding drop_pages
  drop_pages-kept test s [] c = inl refl
  drop_pages-kept test s (q ∷ ps) c = elim (Bool-cases (test q)) [
    | inl e ↦ elim (Bool-cases (str_eq (key_string show_int q.key) s)) [
      | inl k ↦ inr (0, q, refl, e, eq_of_str_eq (key_string show_int q.key) s k)
      | inr k ↦ elim (drop_pages-kept test s ps (with_dropped q c)) [
        | inl h ↦
            inl (rw e (h ∙ ground (arith, k, lookup-erase (key_string show_int q.key) s c.items)))
        | inr (i, p, g, t, n) ↦ inr (suc i, p, g, t, n)
      ]
    ]
    | inr e ↦ elim (drop_pages-kept test s ps c) [
      | inl h ↦ inl (rw e h)
      | inr (i, p, g, t, n) ↦ inr (suc i, p, g, t, n)
    ]
  ]

  -- What becomes of a cached page: it is stale, and the map has its key no more; or it is not, is on
  -- the list still, and the map has what it had under its key, unless a stale page has the same one.
  abbrev pub Fate : (Page → Type 0) → ListCache → ListCache → Page → Type 0
  Fate P c c' p =
      (P p × (lookup (key_string show_int p.key) c'.items ≡ none))
      ⊎ ((¬ P p)
          × ((j : ℕ) × (get_elem? c'.lru j ≡ some p))
          × ((lookup (key_string show_int p.key) c'.items
                ≡ lookup (key_string show_int p.key) c.items)
              ⊎ ((i : ℕ) × (q : Page) × (get_elem? c.lru i ≡ some q)
                  × P q
                  × (key_string show_int q.key ≡ key_string show_int p.key))))

  -- The list keeps some of its pages in their order, and no stale one.
  abbrev pub IsCleared : (Page → Type 0) → ListCache → ListCache → Type 0
  IsCleared P c c' = ((f : Page → Bool) × (c'.lru ≡ keep_if f c.lru)) × All (λ q. ¬ P q) c'.lru

  stale_of :
      (test : Page → Bool) (P : Page → Type 0) (p : Page) → Tells test P → test p ≡ true → P p
  stale_of test P p d t = elim (d p) [
    | inl (e, h) ↦ h
    | inr (e, h) ↦ let x : true ≡ false = sym t ∙ e in cc
  ]

  dropped-Fate :
      (test : Page → Bool) (P : Page → Type 0) (c : ListCache) (i : ℕ) (p : Page)
      → Tells test P
      → get_elem? c.lru i ≡ some p
      → IsCleared P c (drop_pages show_int test c.lru c)
        × Fate P c (drop_pages show_int test c.lru c) p
  dropped-Fate test P c i p d g =
      let c' = drop_pages show_int test c.lru c in
      let keep : Page → Bool = λ q. not (test q) in
      let l = drop_pages-lru test c.lru c in
      let cleared : IsCleared P c c' =
        ((keep, l), subst (All (λ q. ¬ P q)) (sym l) (none_left test P c.lru d)) in
      (
        cleared,
        elim (d p) [
          | inl (t, h) ↦ inl (h, drop_pages-dropped test c.lru c i p g t)
          | inr (t, h) ↦
              let (j, k) = kept_at keep c.lru i p g (ap not t) in
              let stays : get_elem? c'.lru j ≡ some p = ap (λ xs. get_elem? xs j) l ∙ k in
              inr (
                h,
                (j, stays),
                elim (drop_pages-kept test (key_string show_int p.key) c.lru c) [
                  | inl m ↦ inl m
                  | inr (n, q, a, u, b) ↦ inr (n, q, a, stale_of test P q d u, b)
                ],
              )
        ],
      )

  -- After a write of a key, no page whose prefix begins the key is on the list, and the map has lost
  -- the key of each such page; every other page is on the list still, in the old order, and the map
  -- has its key as before, unless a page that went has the same one. The invalidation of a prefix does
  -- the same for the pages whose prefix begins some key that the invalidated prefix begins too.
  pub invalidate-Fate :
      (key : Str) (c : ListCache) (i : ℕ) (p : Page)
      → get_elem? c.lru i ≡ some p
      → (IsCleared (MayHave key) c (invalidate_key show_int key c)
          × Fate (MayHave key) c (invalidate_key show_int key c) p)
        × (IsCleared (MayShare key) c (invalidate_prefix show_int key c)
            × Fate (MayShare key) c (invalidate_prefix show_int key c) p)
  unfolding invalidate_key invalidate_prefix
  invalidate-Fate key c i p g = (
    dropped-Fate (touches_key show_int key) (MayHave key) c i p (touches_key-Tells key) g,
    dropped-Fate (overlaps show_int key) (MayShare key) c i p (overlaps-Tells key) g,
  )
