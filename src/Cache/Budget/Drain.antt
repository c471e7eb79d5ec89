-- ===== src/Cache/Budget/Drain.antt =====
-- Sums over the registered managers, and the loop that drains one of them.
use jaydb.Base.{
  ℕ, zero, suc, ◌+◌, ◌-◌, ◌<◌, ◌≡◌, refl, ap, ◌∙◌, inl, inr, List, [], ◌∷◌, Bool, true, false, none,
  some, arith, ◌==◌, if◌then◌else◌, length, get_elem?, Bool-cases, Option-cases,
}
use jaydb.Cache.Budget.{Evictors, done, drain, index_from}

-- No manager is registered twice.
abbrev pub is_in : ℕ → List ℕ → Bool
is_in e [] = false
is_in e (x ∷ xs) = if x == e then true else is_in e xs

abbrev pub IsDistinct : List ℕ → Type 0
IsDistinct [] = Unit {0}
IsDistinct (x ∷ xs) = (is_in x xs ≡ false) × IsDistinct xs

module _ {S : Type 0} {IsGood : S → Type 0} (E : Evictors S IsGood) where
  open E use {evict_oldest, held, count, evicts, spares, exhausted}

  -- What all of a list of managers hold, in bytes and in entries.
  abbrev pub held_by : List ℕ → S → ℕ
  held_by [] s = 0
  held_by (e ∷ es) s = held e s + held_by es s

  abbrev pub count_by : List ℕ → S → ℕ
  count_by [] s = 0
  count_by (e ∷ es) s = count e s + count_by es s

  -- `s'` differs from `s` in the manager `e` alone.
  pub record Spares (e : ℕ) (s s' : S) : Type 0 where
    pub held_same : (d : ℕ) → (d == e) ≡ false → held d s' ≡ held d s
    pub count_same : (d : ℕ) → (d == e) ≡ false → count d s' ≡ count d s

  Spares-refl : (e : ℕ) (s : S) → Spares e s s
  Spares-refl e s = record { held_same = λ d n. refl; count_same = λ d n. refl }

  Spares-trans : (e : ℕ) (s t u : S) → Spares e s t → Spares e t u → Spares e s u
  Spares-trans e s t u p q = record {
    held_same = λ d n. q.held_same d n ∙ p.held_same d n;
    count_same = λ d n. q.count_same d n ∙ p.count_same d n;
  }

  pub evict-Spares :
      (e : ℕ) (s s' : S) (freed : ℕ) → evict_oldest e s ≡ some (freed, s') → Spares e s s'
  evict-Spares e s s' freed h = record {
    held_same = λ d n. (spares e d s s' freed h n).0;
    count_same = λ d n. (spares e d s s' freed h n).1;
  }

  pub by_others :
      (e : ℕ) (es : List ℕ) (s s' : S)
      → Spares e s s'
      → is_in e es ≡ false
      → (held_by es s' ≡ held_by es s) × (count_by es s' ≡ count_by es s)
  by_others e [] s s' p h = (refl, refl)
  by_others e (x ∷ xs) s s' p h =
      let ne : (x == e) ≡ false = ground arith in
      let rest = by_others e xs s s' p (ground arith) in
      (omega (arith, p.held_same x ne, rest.0), omega (arith, p.count_same x ne, rest.1))

  -- The sums follow the one manager that changed.
  pub by_changed :
      (e : ℕ) (es : List ℕ) (s s' : S)
      → Spares e s s'
      → IsDistinct es
      → is_in e es ≡ true
      → (held_by es s' + held e s ≡ held_by es s + held e s')
        × (count_by es s' + count e s ≡ count_by es s + count e s')
  by_changed e [] s s' p d h = cc
  by_changed e (x ∷ xs) s s' p d h = elim (Bool-cases (x == e)) [
    | inl q ↦
        let same : x ≡ e = ground arith in
        let rest = by_others e xs s s' p (ground arith) in
        (ground (arith, rest.0), ground (arith, rest.1))
    | inr q ↦
        let rest = by_changed e xs s s' p d.1 (ground arith) in
        (omega (arith, p.held_same x q, rest.0), omega (arith, p.count_same x q, rest.1))
  ]

  -- With more fuel than entries the drain ends: the manager is empty, no other is touched, and
  -- exactly its bytes are given back.
  pub drain_lem :
      (fuel e used : ℕ) (s : S)
      → IsGood s
      → count e s < fuel
      → (s' : S) × (drain E fuel e used s ≡ done (used - held e s, s'))
        × (held e s' ≡ 0)
        × (count e s' ≡ 0)
        × Spares e s s'
        × IsGood s'
  unfolding drain
  drain_lem zero e used s w h = absurd (omega arith)
  drain_lem (suc fuel) e used s w h = elim (Option-cases (evict_oldest e s)) [
    | inl q ↦
        let (h0, c0) = exhausted e s w q in (s, ground (arith, h0), h0, c0, Spares-refl e s, w)
    | inr ((freed, t), q) ↦
        let (eh, ec, w') = evicts e s t freed w q in
        let (u, r, h0, c0, p, z) = drain_lem fuel e (used - freed) t w' (omega arith) in
        (
          u,
          rw (q, drain) (r ∙ ap (λ k. done (k, u)) (omega arith)),
          h0,
          c0,
          Spares-trans e s t u (evict-Spares e s t freed q) p,
          z,
        )
  ]

-- Where a manager stands among the registered ones.
index_from-shift :
    (i e : ℕ) (xs : List ℕ)
    → is_in e xs ≡ true
    → (k : ℕ) × (index_from i e xs ≡ some (i + k)) × (get_elem? xs k ≡ some e) × (k < length xs)
index_from-shift i e [] h = cc
index_from-shift i e (x ∷ xs) h = elim (Bool-cases (x == e)) [
  | inl q ↦ (0, rw q (ap some (omega arith)), ground arith, omega arith)
  | inr q ↦
      let (k, r, g, l) = index_from-shift (suc i) e xs (ground arith) in
      (suc k, rw q (r ∙ ap some (omega arith)), g, omega arith)
]

pub index_from_of_in :
    (e : ℕ) (xs : List ℕ)
    → is_in e xs ≡ true
    → (k : ℕ) × (index_from 0 e xs ≡ some k) × (get_elem? xs k ≡ some e) × (k < length xs)
index_from_of_in e xs h =
    let (k, r, g, l) = index_from-shift 0 e xs h in (k, r ∙ ap some (omega arith), g, l)

pub index_from_of_out : (i e : ℕ) (xs : List ℕ) → is_in e xs ≡ false → index_from i e xs ≡ none
index_from_of_out i e [] h = refl
index_from_of_out i e (x ∷ xs) h = ground (arith, index_from_of_out (suc i) e xs)

pub is_in_of_get_elem? : (xs : List ℕ) (i e : ℕ) → get_elem? xs i ≡ some e → is_in e xs ≡ true
is_in_of_get_elem? [] i e h = cc
is_in_of_get_elem? (x ∷ xs) zero e h = ground arith
is_in_of_get_elem? (x ∷ xs) (suc i) e h = ground (arith, is_in_of_get_elem? xs i e h)
