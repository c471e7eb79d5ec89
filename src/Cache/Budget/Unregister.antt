-- ===== src/Cache/Budget/Unregister.antt =====
-- `Unregister`: the departing manager is drained, its bytes are given back, and the others keep
-- their turns.
use jaydb.Base.{
  remove_at, length-remove_at, ℕ, zero, suc, ◌+◌, ◌-◌, ◌≤◌, ◌<◌, ◌≡◌, refl, ap, ◌∙◌, inl, inr, List,
  [], ◌∷◌, true, false, some, arith, ◌==◌, ltb, if◌then◌else◌, length, get_elem?, Bool-cases,
  ltb→lt,
}
use native.Mathlib.Nat.{mod-lt}
use jaydb.Cache.Budget.{Evictors, Budget, done, unregister, fix_cursor}
use jaydb.Cache.Budget.Drain.{
  is_in, IsDistinct, held_by, Spares, by_others, drain_lem, is_in_of_get_elem?, index_from_of_in,
  index_from_of_out,
}
use jaydb.Cache.Budget.Loop.{IsAccounted}

-- What stands at a place after the removal at `i`.
get_elem?-remove_at :
    (i k : ℕ) (xs : List ℕ)
    → get_elem? (remove_at i xs) k ≡ get_elem? xs (if ltb k i then k else suc k)
get_elem?-remove_at i k [] = ground arith
get_elem?-remove_at zero k (x ∷ xs) = ground arith
get_elem?-remove_at (suc i) zero (x ∷ xs) = ground arith
get_elem?-remove_at (suc i) (suc k) (x ∷ xs) = ground (arith, get_elem?-remove_at i k xs)

is_in-remove_at :
    (i e d : ℕ) (xs : List ℕ)
    → IsDistinct xs
    → get_elem? xs i ≡ some e
    → is_in d (remove_at i xs) ≡ (if d == e then false else is_in d xs)
is_in-remove_at i e d [] h g = cc
is_in-remove_at zero e d (x ∷ xs) h g = ground (arith, h.0)
is_in-remove_at (suc i) e d (x ∷ xs) h g =
    ground (arith, is_in-remove_at i e d xs h.1 g, is_in_of_get_elem? xs i e g, h.0)

remove_at-IsDistinct :
    (i e : ℕ) (xs : List ℕ) → IsDistinct xs → get_elem? xs i ≡ some e → IsDistinct (remove_at i xs)
remove_at-IsDistinct i e [] h g = tt
remove_at-IsDistinct zero e (x ∷ xs) h g = h.1
remove_at-IsDistinct (suc i) e (x ∷ xs) h g =
    (ground (arith, is_in-remove_at i e x xs h.1 g, h.0), remove_at-IsDistinct i e xs h.1 g)

fix_cursor-lt : (cursor i len : ℕ) → 0 < len → fix_cursor cursor i len < len
unfolding fix_cursor
fix_cursor-lt cursor i len h = elim (Bool-cases (ltb i cursor)) [
  | inl e ↦ rw e (ground (arith, mod-lt (cursor - 1) h))
  | inr e ↦ rw e (ground (arith, mod-lt cursor h))
]

fix_cursor_front : (cursor i len : ℕ) → cursor < i → i ≤ len → fix_cursor cursor i len ≡ cursor
unfolding fix_cursor
fix_cursor_front cursor i len h k = ground arith

fix_cursor_behind :
    (cursor i len : ℕ) → i < cursor → cursor ≤ len → fix_cursor cursor i len ≡ cursor - 1
unfolding fix_cursor
fix_cursor_behind cursor i len h k = ground arith

-- Where the cursor stood on a survivor it stands there still.
fix_cursor_survivor :
    (xs : List ℕ) (cursor i : ℕ)
    → i < length xs
    → cursor < length xs
    → (cursor == i) ≡ false
    → get_elem? (remove_at i xs) (fix_cursor cursor i (length (remove_at i xs)))
      ≡ get_elem? xs cursor
fix_cursor_survivor xs cursor i h k n =
    let l = length (remove_at i xs) in
    let short : l + 1 ≡ length xs = length-remove_at i xs h in
    elim (Bool-cases (ltb cursor i)) [
      | inl e ↦ rw (
        fix_cursor_front cursor i l (ltb→lt cursor i e) (omega arith),
        get_elem?-remove_at i cursor xs,
        e,
      )
      | inr e ↦
          let behind : i < cursor = ground arith in
          let back : suc (cursor - 1) ≡ cursor = omega arith in
          let place : ltb (cursor - 1) i ≡ false = ground arith in
          rw (
            fix_cursor_behind cursor i l behind (omega arith),
            get_elem?-remove_at i (cursor - 1) xs,
            place,
            back,
          )
    ]

module _ {S : Type 0} {IsGood : S → Type 0} (E : Evictors S IsGood) where
  open E use {held, count}

  held_by-remove_at :
      (i e : ℕ) (xs : List ℕ) (s : S)
      → get_elem? xs i ≡ some e
      → held_by E (remove_at i xs) s + held e s ≡ held_by E xs s
  held_by-remove_at i e [] s g = cc
  held_by-remove_at zero e (x ∷ xs) s g = ground arith
  held_by-remove_at (suc i) e (x ∷ xs) s g = omega (arith, held_by-remove_at i e xs s g)

  -- What `Unregister` of the manager `e` promises.
  pub record Unregistered (inflight e : ℕ) (b : Budget) (s : S) (b' : Budget) (s' : S)
      : Type 0 where
    pub gone : (d : ℕ) → is_in d b'.evictors ≡ (if d == e then false else is_in d b.evictors)
    pub accounted : IsAccounted E inflight b' s'
    pub returned : b'.used + held e s ≡ b.used
    pub drained : (held e s' ≡ 0) × (count e s' ≡ 0)
    pub others : Spares E e s s'
    pub same_limit : b'.limit ≡ b.limit
    pub next_survives :
        (d : ℕ)
        → get_elem? b.evictors b.cursor ≡ some d
        → (d == e) ≡ false
        → get_elem? b'.evictors b'.cursor ≡ some d

  removed :
      (inflight i e : ℕ) (b : Budget) (s s' : S)
      → IsAccounted E inflight b s
      → get_elem? b.evictors i ≡ some e
      → i < length b.evictors
      → IsGood s'
      → held e s' ≡ 0
      → count e s' ≡ 0
      → Spares E e s s'
      → Unregistered inflight e b s
          (record b {
            used = b.used - held e s;
            evictors = remove_at i b.evictors;
            cursor = fix_cursor b.cursor i (length (remove_at i b.evictors));
          })
          s'
  removed inflight i e b s s' a g l w h0 c0 sp =
      let here = held_by-remove_at i e b.evictors s g in
      let out : is_in e (remove_at i b.evictors) ≡ false =
        ground (arith, is_in-remove_at i e e b.evictors a.distinct g) in
      let kept = by_others E e (remove_at i b.evictors) s s' sp out in
      record {
        gone = λ d. is_in-remove_at i e d b.evictors a.distinct g;
        accounted = record {
          good = w;
          exact = omega (arith, a.exact, here, kept.0);
          distinct = remove_at-IsDistinct i e b.evictors a.distinct g;
          in_range = λ p. fix_cursor-lt b.cursor i _ p;
        };
        returned = omega (arith, a.exact, here);
        drained = (h0, c0);
        others = sp;
        same_limit = refl;
        next_survives = λ d at n.
            let other : (b.cursor == i) ≡ false =
              ground (arith, ap (get_elem? b.evictors) {x = b.cursor} {y = i}) in
            fix_cursor_survivor b.evictors b.cursor i l (a.in_range (omega arith)) other ∙ at;
      }

  -- With more fuel than the manager has entries `Unregister` returns. A registered manager is
  -- drained, no other manager is touched, exactly its bytes are given back, so that the count is
  -- exact again, and it is registered no more, while all others are; the cursor is in range, and
  -- the manager whose turn was next is next still, unless it is the one that left.
  pub unregister_lem :
      (fuel inflight e : ℕ) (b : Budget) (s : S)
      → IsAccounted E inflight b s
      → count e s < fuel
      → is_in e b.evictors ≡ true
      → (b' : Budget) × (s' : S) × (unregister E fuel b s (some e) ≡ done (b', s'))
        × Unregistered inflight e b s b' s'
  unfolding unregister
  unregister_lem fuel inflight e b s a enough h =
      let (i, at, g, l) = index_from_of_in e b.evictors h in
      let (s', r, h0, c0, sp, w) = drain_lem E fuel e b.used s a.good enough in
      (_, s', rw (at, r, unregister), removed inflight i e b s s' a g l w h0 c0 sp)

  -- A manager that is not registered, so also one that has left, is nothing to unregister.
  pub unregister_absent :
      (fuel e : ℕ) (b : Budget) (s : S)
      → is_in e b.evictors ≡ false
      → unregister E fuel b s (some e) ≡ done (b, s)
  unfolding unregister
  unregister_absent fuel e b s h = rw (index_from_of_out 0 e b.evictors h, unregister)
