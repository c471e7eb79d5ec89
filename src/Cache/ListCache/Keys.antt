-- ===== src/Cache/ListCache/Keys.antt =====
-- What the key of a cached page leaves out: the delimiter of the listing.
use jaydb.Base.{
  get_elem?-lt, subst, ◌<◌, ℕ, zero, suc, ◌%◌, ◌^◌, ◌+◌, ◌-◌, ◌<◌, ◌⊎◌, ◌≡◌, refl, ap, ◌∙◌, inl,
  inr, List, [], ◌∷◌, Str, true, none, some, arith, leb, length, get_elem?, remove_at, lookup,
  lookup-insert_self, str_eq, eq_of_str_eq, str_eq_refl, Result, ok, err, Bool-cases, Option-cases,
}
use jaydb.Storage.{KeyMeta, ListOptions, Error}
use jaydb.Cache.ListCache.{
  ListKey, Page, ListCache, key_string, find_page, find_entry, hit, evict_over, admit_page, lead,
  list_page, is_fresh, remove_page,
}

same_page : {p q : Page} → some p ≡ some q → p ≡ q
same_page e = cc

module _ (show_int : ℕ → Str) where
  find_page_lem :
      (s : Str) (ps : List Page)
      → (find_page show_int s ps ≡ none)
        ⊎ ((i : ℕ) × (p : Page) × (find_page show_int s ps ≡ some i)
            × (get_elem? ps i ≡ some p)
            × (key_string show_int p.key ≡ s))
  unfolding find_page
  find_page_lem s [] = inl refl
  find_page_lem s (q ∷ ps) = elim (Bool-cases (str_eq (key_string show_int q.key) s)) [
    | inl e ↦ inr (0, q, rw e refl, refl, eq_of_str_eq (key_string show_int q.key) s e)
    | inr e ↦ elim (find_page_lem s ps) [
      | inl n ↦ inl (rw (e, n) refl)
      | inr (i, p, f, g, k) ↦ inr (suc i, p, rw (e, f) refl, g, k)
    ]
  ]

  -- An entry that is found has the key, and the map has it.
  pub find_entry_lem :
      (s : Str) (c : ListCache)
      → (find_entry show_int s c ≡ none)
        ⊎ ((i : ℕ) × (p : Page) × (find_entry show_int s c ≡ some (i, p))
            × (lookup s c.items ≡ some tt)
            × (key_string show_int p.key ≡ s)
            × (i < length c.lru))
  unfolding find_entry
  find_entry_lem s c = elim (Option-cases (lookup s c.items)) [
    | inl n ↦ inl (rw (n, find_entry) refl)
    | inr (t, l) ↦ elim (find_page_lem s c.lru) [
      | inl n ↦ inl (rw (l, find_entry, n) refl)
      | inr (i, p, f, g, k) ↦
          inr (i, p, rw (l, find_entry, f, g) refl, l, k, get_elem?-lt c.lru i p g)
    ]
  ]

  -- The page for the string `s` is the first of the list, last used at `last`.
  pub record IsFront (s : Str) (r : List KeyMeta × Str) (last : ℕ) (c : ListCache) : Type 0 where
    pub known : lookup s c.items ≡ some tt
    pub page : Page
    pub rest : List Page
    pub first : c.lru ≡ page ∷ rest
    pub named : key_string show_int page.key ≡ s
    pub content : (page.metas, page.next_cursor) ≡ r
    pub used : page.last_accessed ≡ last

  head_page :
      (s : Str) (p : Page) (ps : List Page)
      → key_string show_int p.key ≡ s
      → find_page show_int s (p ∷ ps) ≡ some 0
  unfolding find_page
  head_page s p ps k =
      let e : str_eq (key_string show_int p.key) s ≡ true = rw k (str_eq_refl s) in rw e refl

  find_entry-IsFront :
      (s : Str) (r : List KeyMeta × Str) (last : ℕ) (c : ListCache) (f : IsFront s r last c)
      → find_entry show_int s c ≡ some (0, f.page)
  unfolding find_entry
  find_entry-IsFront s r last c f =
      let at : find_page show_int s c.lru ≡ some 0 =
        ap (find_page show_int s) f.first ∙ head_page s f.page f.rest f.named in
      let g : get_elem? c.lru 0 ≡ some f.page = ap (λ ps. get_elem? ps 0) f.first in
      rw (f.known, find_entry, at, g) refl

  hit-IsFront :
      (s : Str) (i : ℕ) (p : Page) (now : ℕ) (c : ListCache)
      → lookup s c.items ≡ some tt
      → key_string show_int p.key ≡ s
      → IsFront s (p.metas, p.next_cursor) now (hit show_int i p now c)
  unfolding hit
  hit-IsFront s i p now c l k = record {
    known = l;
    page = record p { last_accessed = now };
    rest = remove_at i c.lru;
    first = refl;
    named = k;
    content = refl;
    used = refl;
  }

  admit_page-IsFront :
      (k : ListKey) (metas : List KeyMeta) (next : Str) (now : ℕ) (c : ListCache)
      → IsFront (key_string show_int k) (metas, next) now (admit_page show_int k metas next now c)
  unfolding admit_page
  admit_page-IsFront k metas next now c = elim (find_entry_lem (key_string show_int k) c) [
    | inl e ↦
        rw (e, admit_page)
          (record {
            known = lookup-insert_self (key_string show_int k) tt _;
            page = _;
            rest = _;
            first = refl;
            named = refl;
            content = refl;
            used = refl;
          })
    | inr (i, p, e, l, q, _) ↦
        rw (e, admit_page)
          (record {
            known = l;
            page = _;
            rest = _;
            first = refl;
            named = q;
            content = refl;
            used = refl;
          })
  ]

  evict_over-ttl : (fuel : ℕ) (c : ListCache) → (evict_over show_int fuel c).ttl ≡ c.ttl
  unfolding evict_over
  evict_over-ttl zero c = refl
  evict_over-ttl (suc fuel) c = elim (Bool-cases (leb c.max (length c.lru))) [
    | inr e ↦ rw e refl
    | inl e ↦ elim (Option-cases (get_elem? c.lru (length c.lru - 1))) [
      | inl n ↦ rw (e, n) refl
      | inr (p, g) ↦ rw (e, g) (evict_over-ttl fuel _)
    ]
  ]

  admit_page-ttl :
      (k : ListKey) (metas : List KeyMeta) (next : Str) (now : ℕ) (c : ListCache)
      → (admit_page show_int k metas next now c).ttl ≡ c.ttl
  unfolding admit_page
  admit_page-ttl k metas next now c = elim (find_entry_lem (key_string show_int k) c) [
    | inl e ↦ rw (e, admit_page) (evict_over-ttl (suc (length c.lru)) c)
    | inr (i, p, e, _, _, _) ↦ rw (e, admit_page) refl
  ]

  -- After a page was returned, it is the first of the list, if it was not an error.
  abbrev pub Served :
      Str → ListCache → ℕ → ℕ → ℕ → Result Error (List KeyMeta × Str) × ListCache → Type 0
  Served s c a b d (err e, c') = Unit {0}
  Served s c a b d (ok r, c') =
      (last : ℕ) × IsFront s r last c' × (c'.ttl ≡ c.ttl) × ((last ≡ a) ⊎ ((last ≡ b) ⊎ (last ≡ d)))

  fetched-Served :
      (k : ListKey) (a b d : ℕ) (c c' : ListCache) (r : Result Error (List KeyMeta × Str))
      → c'.ttl ≡ c.ttl
      → Served (key_string show_int k) c a b d (elim r [
        | err e ↦ (err e, c')
        | ok (metas, next) ↦ (ok (metas, next), admit_page show_int k metas next d c')
      ])
  fetched-Served k a b d c c' (err e) t = tt
  fetched-Served k a b d c c' (ok (metas, next)) t = (
    d,
    admit_page-IsFront k metas next d c',
    admit_page-ttl k metas next d c' ∙ t,
    inr (inr refl),
  )

  lead-Served :
      (fetch : ListOptions → Result Error (List KeyMeta × Str)) (k : ListKey) (opts : ListOptions)
      (a b d : ℕ) (c₀ c : ListCache)
      → c.ttl ≡ c₀.ttl
      → Served (key_string show_int k) c₀ a b d (lead show_int fetch k opts b d c)
  unfolding lead hit
  lead-Served fetch k opts a b d c₀ c t =
      let c' = record c { misses = (c.misses + 1) % 2 ^ 64 } in
      elim (find_entry_lem (key_string show_int k) c') [
        | inl e ↦ rw (e, lead) (fetched-Served k a b d c₀ c' (fetch opts) t)
        | inr (i, p, e, l, q, _) ↦ elim (Bool-cases (is_fresh c' b p)) [
          | inl f ↦
              rw (e, lead, f)
                (b, hit-IsFront (key_string show_int k) i p b c' l q, t, inr (inl refl))
          | inr f ↦ rw (e, lead, f) (fetched-Served k a b d c₀ c' (fetch opts) t)
        ]
      ]

  list_page-Served :
      (fetch : ListOptions → Result Error (List KeyMeta × Str)) (prefix : Str) (opts : ListOptions)
      (a b d : ℕ) (c : ListCache)
      → Served
          (key_string show_int
            (record { prefix = prefix; cursor = opts.cursor; limit = opts.limit }))
          c
          a
          b
          d
          (list_page show_int fetch prefix opts a b d c)
  unfolding list_page hit
  list_page-Served fetch prefix opts a b d c =
      let k : ListKey = record { prefix = prefix; cursor = opts.cursor; limit = opts.limit } in
      elim (find_entry_lem (key_string show_int k) c) [
        | inl e ↦ rw (e, list_page) (lead-Served fetch k opts a b d c c refl)
        | inr (i, p, e, l, q, _) ↦ elim (Bool-cases (is_fresh c a p)) [
          | inl f ↦
              rw (e, list_page, f)
                (a, hit-IsFront (key_string show_int k) i p a c l q, refl, inl refl)
          | inr f ↦
              rw (e, list_page, f)
                (lead-Served fetch k opts a b d c (remove_page (key_string show_int k) i c) refl)
        ]
      ]

  -- If the next call on the cache behind a `ListPage` that returned a page is a `ListPage` with the
  -- same prefix, cursor and limit, and comes within the freshness window of every reading of the clock
  -- by the first, then it returns that page again, whatever its delimiter is and whatever the storage
  -- would answer.
  pub list_page-again :
      (fetch again : ListOptions → Result Error (List KeyMeta × Str)) (prefix delimiter : Str)
      (opts : ListOptions) (a b d a' b' d' : ℕ) (c c' : ListCache) (r : List KeyMeta × Str)
      → list_page show_int fetch prefix opts a b d c ≡ (ok r, c')
      → a' - a < c.ttl
      → a' - b < c.ttl
      → a' - d < c.ttl
      → (list_page show_int again prefix (record opts { delimiter = delimiter }) a' b' d' c').0
        ≡ ok r
  unfolding list_page
  list_page-again fetch again prefix delimiter opts a b d a' b' d' c c' r h x y z =
      let k : ListKey = record { prefix = prefix; cursor = opts.cursor; limit = opts.limit } in
      let (last, f, t, w) =
        subst (Served (key_string show_int k) c a b d) h
          (list_page-Served fetch prefix opts a b d c) in
      let e = find_entry-IsFront (key_string show_int k) r last c' f in
      let young : a' - last < c'.ttl = elim w [
        | inl q ↦ ground (arith, t, q, x)
        | inr (inl q) ↦ ground (arith, t, q, y)
        | inr (inr q) ↦ ground (arith, t, q, z)
      ] in
      let fresh : is_fresh c' a' f.page ≡ true = ground (arith, f.used, young) in
      rw (e, list_page, fresh) (ap ok f.content)
