-- ===== src/Cache/Manager/Scan.antt =====
-- The scan of `EvictOldest` over the shards.
use jaydb.Base.{
  ℕ, zero, suc, ◌+◌, ◌≤◌, ◌<◌, ◌⊎◌, ◌≡◌, refl, sym, ap, ◌∙◌, inl, inr, List, [], ◌∷◌, Option, none,
  some, arith, if◌then◌else◌, ltb, All, get_elem?, length, str_eq_iff, Bool-cases, Option-cases,
}
use jaydb.Cache.Shard.{Item, Shard, find_pos}
use jaydb.Cache.Shard.Places.{IsDistinct, same_head, has_key_at}
use jaydb.Cache.Manager.{Victim, shard_at, back_from, scan, better, older}

back_from-some :
    (i : ℕ) (xs : List Item) (p : ℕ) (x : Item)
    → back_from i xs ≡ some (p, x)
    → (k : ℕ) × (p ≡ i + k) × (get_elem? xs k ≡ some x)
back_from-some i [] p x e = cc
back_from-some i (y ∷ []) p x e = (0, ground arith, cc)
back_from-some i (y ∷ z ∷ ys) p x e =
    let (k, q, g) = back_from-some (suc i) (z ∷ ys) p x e in (suc k, omega (arith, q), g)

back_from-none : (i : ℕ) (xs : List Item) → back_from i xs ≡ none → xs ≡ []
back_from-none i [] e = refl
back_from-none i (y ∷ []) e = cc
back_from-none i (y ∷ z ∷ ys) e = absurd (go (back_from-none (suc i) (z ∷ ys) e))
  where
    go : z ∷ ys ≡ [] → ⊥
    go h = cc

pub find_pos_at :
    (xs : List Item) (i : ℕ) (x : Item)
    → IsDistinct xs
    → get_elem? xs i ≡ some x
    → find_pos x.key xs ≡ some i
unfolding find_pos
find_pos_at [] i x d e = cc
find_pos_at (y ∷ xs) zero x d e =
    ground (arith, ap (λ (z : Item). z.key) (same_head e), str_eq_iff y.key x.key)
find_pos_at (y ∷ xs) (suc i) x d e =
    ground (arith, find_pos_at xs i x d.1 e, d.0, has_key_at xs i x e, str_eq_iff y.key x.key)

-- The element that the scan has found stands where it says.
pub record IsFound (i : ℕ) (ss : List Shard) (v : Victim) : Type 0 where
  pub offset : ℕ
  pub place_in : v.shard ≡ i + offset
  pub bound : offset < length ss
  pub element : get_elem? (shard_at ss offset).lru v.place ≡ some v.item

-- No element at the back of a shard was used longer ago.
abbrev pub IsOldest : List Shard → Victim → Type 0
IsOldest ss v =
    (j p : ℕ) (x : Item)
    → j < length ss
    → back_from 0 (shard_at ss j).lru ≡ some (p, x)
    → v.item.last_accessed ≤ x.last_accessed

better-none :
    (i : ℕ) (s : Shard) (best : Option Victim) → back_from 0 s.lru ≡ none → better i s best ≡ best
unfolding better
better-none i s best e = rw (e, better) refl

better-some :
    (i : ℕ) (s : Shard) (best : Option Victim) (p : ℕ) (x : Item)
    → back_from 0 s.lru ≡ some (p, x)
    → better i s best
      ≡ (if older best x then some (record { shard = i; place = p; item = x }) else best)
unfolding better
better-some i s best p x e = rw (e, better) refl

same_victim : {u v : Victim} → some u ≡ some v → u ≡ v
same_victim e = cc

better-element :
    (i : ℕ) (s : Shard) (best : Option Victim) (v : Victim)
    → better i s best ≡ some v
    → (best ≡ some v) ⊎ ((v.shard ≡ i) × (get_elem? s.lru v.place ≡ some v.item))
better-element i s best v h = elim (Option-cases (back_from 0 s.lru)) [
  | inl e ↦ inl (sym (better-none i s best e) ∙ h)
  | inr ((p, x), e) ↦
      let q = sym (better-some i s best p x e) ∙ h in
      let (k, o, g) = back_from-some 0 s.lru p x e in
      elim (Bool-cases (older best x)) [
        | inr n ↦ inl (rw n at q)
        | inl y ↦
            let r = sym (same_victim (rw y at q)) in
            inr (ap (λ (w : Victim). w.shard) r, rw r (ap (get_elem? s.lru) (omega (arith, o)) ∙ g))
      ]
]

better-older :
    (i : ℕ) (s : Shard) (best : Option Victim) (p : ℕ) (x : Item)
    → back_from 0 s.lru ≡ some (p, x)
    → (v : Victim) × (better i s best ≡ some v) × (v.item.last_accessed ≤ x.last_accessed)
better-older i s none p x e =
    (record { shard = i; place = p; item = x }, better-some i s none p x e, omega arith)
better-older i s (some b) p x e = elim (Bool-cases (ltb x.last_accessed b.item.last_accessed)) [
  | inl q ↦ (
    record { shard = i; place = p; item = x },
    rw (better-some i s (some b) p x e, q) refl,
    omega arith,
  )
  | inr q ↦ (b, rw (better-some i s (some b) p x e, q) refl, ground arith)
]

better-keeps :
    (i : ℕ) (s : Shard) (b : Victim)
    → (v : Victim) × (better i s (some b) ≡ some v) × (v.item.last_accessed ≤ b.item.last_accessed)
better-keeps i s b = elim (Option-cases (back_from 0 s.lru)) [
  | inl e ↦ (b, better-none i s (some b) e, omega arith)
  | inr ((p, x), e) ↦ elim (Bool-cases (ltb x.last_accessed b.item.last_accessed)) [
    | inl q ↦ (
      record { shard = i; place = p; item = x },
      rw (better-some i s (some b) p x e, q) refl,
      ground arith,
    )
    | inr q ↦ (b, rw (better-some i s (some b) p x e, q) refl, omega arith)
  ]
]

pub scan-IsFound :
    (i : ℕ) (ss : List Shard) (best : Option Victim) (v : Victim)
    → scan i ss best ≡ some v
    → (best ≡ some v) ⊎ IsFound i ss v
unfolding scan
scan-IsFound i [] best v h = inl h
scan-IsFound i (s ∷ ss) best v h = elim (scan-IsFound (suc i) ss (better i s best) v h) [
  | inr f ↦ inr (record {
    offset = suc f.offset;
    place_in = omega (arith, f.place_in);
    bound = omega (arith, f.bound);
    element = f.element;
  })
  | inl e ↦ elim (better-element i s best v e) [
    | inl q ↦ inl q
    | inr (p, g) ↦
        inr (record { offset = 0; place_in = omega (arith, p); bound = omega arith; element = g })
  ]
]

scan-keeps :
    (i : ℕ) (ss : List Shard) (b : Victim)
    → (v : Victim) × (scan i ss (some b) ≡ some v) × (v.item.last_accessed ≤ b.item.last_accessed)
unfolding scan
scan-keeps i [] b = (b, refl, omega arith)
scan-keeps i (s ∷ ss) b =
    let (w, e, l) = better-keeps i s b in
    let (v, f, k) = scan-keeps (suc i) ss w in (v, ap (scan (suc i) ss) e ∙ f, omega (arith, l, k))

pub scan-IsOldest :
    (i : ℕ) (ss : List Shard) (best : Option Victim) (v : Victim)
    → scan i ss best ≡ some v
    → IsOldest ss v
unfolding scan
scan-IsOldest i [] best v h j p x l e = absurd (omega arith)
scan-IsOldest i (s ∷ ss) best v h zero p x l e =
    let (w, f, k) = better-older i s best p x e in
    let (u, g, m) = scan-keeps (suc i) ss w in
    let same : u ≡ v = same_victim (sym g ∙ sym (ap (scan (suc i) ss) f) ∙ h) in
    omega (arith, k, m, ap (λ (z : Victim). z.item.last_accessed) same)
scan-IsOldest i (s ∷ ss) best v h (suc j) p x l e =
    scan-IsOldest (suc i) ss (better i s best) v h j p x (omega arith) e

pub scan_empty :
    (i : ℕ) (ss : List Shard) (best : Option Victim)
    → scan i ss best ≡ none
    → (best ≡ none) × All (λ (s : Shard). s.lru ≡ []) ss
unfolding scan
scan_empty i [] best h = (h, tt)
scan_empty i (s ∷ ss) best h =
    let (e, a) = scan_empty (suc i) ss (better i s best) h in
    elim (Option-cases (back_from 0 s.lru)) [
      | inl q ↦ (sym (better-none i s best q) ∙ e, (back_from-none 0 s.lru q, a))
      | inr ((p, x), q) ↦ let (v, f, _) = better-older i s best p x q in absurd (go (sym e ∙ f))
    ]
  where
    go : {v : Victim} → none ≡ some v → ⊥
    go q = cc
