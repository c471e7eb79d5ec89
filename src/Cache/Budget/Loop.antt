-- ===== src/Cache/Budget/Loop.antt =====
-- The round-robin loop of `Reserve`: what holds at the head of each round, and how the rounds end.
use jaydb.Base.{
  ℕ, zero, suc, ◌+◌, ◌-◌, ◌*◌, ◌%◌, ◌≤◌, ◌<◌, ◌≡◌, refl, ap, inl, inr, List, [], ◌∷◌, Bool, true,
  false, ◌&&◌, ◌||◌, none, some, arith, ◌==◌, ltb, leb, if◌then◌else◌, length, get_elem?,
  get_elem?_of_lt, Bool-cases, Option-cases,
}
use native.Mathlib.Nat.{mod_self, mod-eq_of_lt}
use jaydb.Cache.Budget.{Evictors, Budget, done, fits, reserve_loop, is_unbounded}
use jaydb.Cache.Budget.Drain.{
  IsDistinct, held_by, count_by, evict-Spares, by_changed, is_in_of_get_elem?,
}

-- How far the place `p` lies ahead of the cursor, going round.
abbrev pub ahead : ℕ → ℕ → ℕ → ℕ
ahead len cursor p = if leb cursor p then p - cursor else p + len - cursor

next_cursor :
    (cursor len : ℕ)
    → cursor < len
    → (cursor + 1) % len ≡ (if cursor + 1 == len then 0 else cursor + 1)
next_cursor cursor len h = elim (Bool-cases (cursor + 1 == len)) [
  | inl e ↦ let q : cursor + 1 ≡ len = ground arith in rw (e, q, mod_self len)
  | inr e ↦ rw e (mod-eq_of_lt (ground arith))
]

-- The cursor moves past one place: that place is now the last, and all others come nearer.
ahead_next :
    (cursor len p : ℕ)
    → cursor < len
    → p < len
    → (p == cursor) ≡ false
    → ahead len ((cursor + 1) % len) p + 1 ≡ ahead len cursor p
ahead_next cursor len p h k n = rw (next_cursor cursor len h) (ground arith)

module _ {S : Type 0} {IsGood : S → Type 0} (E : Evictors S IsGood) where
  open E use {evict_oldest, held, count, evicts, spares, exhausted}

  -- The budget counts what the registered managers hold, and `inflight` bytes that are reserved
  -- and not yet stored.
  pub record IsAccounted (inflight : ℕ) (b : Budget) (s : S) : Type 0 where
    pub good : IsGood s
    pub exact : b.used ≡ held_by E b.evictors s + inflight
    pub distinct : IsDistinct b.evictors
    pub in_range : 0 < length b.evictors → b.cursor < length b.evictors

  -- At the head of a round: no room yet, and the last `refused` managers asked are empty.
  pub record IsRound (n inflight refused : ℕ) (b : Budget) (s : S) : Type 0 where
    pub accounted : IsAccounted inflight b s
    pub no_room : fits (b.used + n) b.limit ≡ false
    pub drained :
        (p e : ℕ)
        → get_elem? b.evictors p ≡ some e
        → p < length b.evictors
        → length b.evictors ≤ ahead (length b.evictors) b.cursor p + refused
        → (held e s ≡ 0) × (count e s ≡ 0)

  -- What `Reserve` promises, `n` being the bytes asked for.
  pub record Reserved (n inflight : ℕ) (b b' : Budget) (s' : S) (got : Bool) : Type 0 where
    pub same_limit : b'.limit ≡ b.limit
    pub same_evictors : b'.evictors ≡ b.evictors
    pub granted : got ≡ true → IsAccounted (inflight + n) b' s'
    pub within : got ≡ true → (is_unbounded b.limit || fits b'.used b.limit) ≡ true
    pub refused : got ≡ false → IsAccounted inflight b' s'
    pub too_much : got ≡ false → fits (inflight + n) b.limit ≡ false

  All-empty :
      (es : List ℕ) (s : S)
      → ((p e : ℕ) → get_elem? es p ≡ some e → p < length es → (held e s ≡ 0) × (count e s ≡ 0))
      → held_by E es s ≡ 0
  All-empty [] s h = refl
  All-empty (e ∷ es) s h =
      omega (
        arith,
        (h 0 e refl (omega arith)).0,
        All-empty es s (λ p d g l. h (suc p) d g (omega arith)),
      )

  -- The rounds that are left at most, less one.
  abbrev pub measure : Budget → S → ℕ → ℕ
  measure b s refused =
      count_by E b.evictors s * (length b.evictors + 1) + (length b.evictors - refused)

  refused-IsRound :
      (n inflight refused e : ℕ) (b : Budget) (s : S)
      → IsRound n inflight refused b s
      → b.cursor < length b.evictors
      → get_elem? b.evictors b.cursor ≡ some e
      → evict_oldest e s ≡ none
      → IsRound n inflight
          (refused + 1)
          (record b { cursor = (b.cursor + 1) % length b.evictors })
          s
  refused-IsRound n inflight refused e b s v c g q = record {
    accounted = record {
      good = v.accounted.good;
      exact = v.accounted.exact;
      distinct = v.accounted.distinct;
      in_range = λ h. omega arith;
    };
    no_room = v.no_room;
    drained = λ p d at l far. elim (Bool-cases (p == b.cursor)) [
      | inl same ↦ let (h0, c0) = exhausted e s v.accounted.good q in ground (arith, h0, c0)
      | inr other ↦
          v.drained p d at l (omega (arith, ahead_next b.cursor (length b.evictors) p c l other))
    ];
  }

  evicted_round :
      (n inflight refused e freed : ℕ) (b : Budget) (s s' : S)
      → IsRound n inflight refused b s
      → b.cursor < length b.evictors
      → get_elem? b.evictors b.cursor ≡ some e
      → evict_oldest e s ≡ some (freed, s')
      → IsAccounted inflight
          (record b { cursor = (b.cursor + 1) % length b.evictors; used = b.used - freed })
          s'
  evicted_round n inflight refused e freed b s s' v c g q =
      let (eh, ec, w) = evicts e s s' freed v.accounted.good q in
      let (sh, sc) =
        by_changed E e b.evictors s s' (evict-Spares E e s s' freed q) v.accounted.distinct
          (is_in_of_get_elem? b.evictors b.cursor e g) in
      record {
        good = w;
        exact = omega (arith, v.accounted.exact, eh, sh);
        distinct = v.accounted.distinct;
        in_range = λ h. omega arith;
      }

  count_falls :
      (e freed : ℕ) (b : Budget) (s s' : S)
      → IsGood s
      → IsDistinct b.evictors
      → get_elem? b.evictors b.cursor ≡ some e
      → evict_oldest e s ≡ some (freed, s')
      → count_by E b.evictors s ≡ suc (count_by E b.evictors s')
  count_falls e freed b s s' w d g q =
      let (eh, ec, _) = evicts e s s' freed w q in
      let (sh, sc) =
        by_changed E e b.evictors s s' (evict-Spares E e s s' freed q) d
          (is_in_of_get_elem? b.evictors b.cursor e g) in
      omega arith

  -- Every manager has refused in a row: all are empty.
  stop_Reserved :
      (n inflight refused : ℕ) (b : Budget) (s : S)
      → IsRound n inflight refused b s
      → length b.evictors ≤ refused
      → Reserved n inflight b b s false
  stop_Reserved n inflight refused b s v h =
      let none_left = All-empty b.evictors s (λ p e g l. v.drained p e g l (omega arith)) in
      record {
        same_limit = refl;
        same_evictors = refl;
        granted = λ q. cc;
        within = λ q. cc;
        refused = λ q. v.accounted;
        too_much = λ q.
            let same : inflight + n ≡ b.used + n = omega (arith, v.accounted.exact, none_left) in
            rw same v.no_room;
      }

  -- Room for `n` bytes was made.
  room_Reserved :
      (n inflight next used : ℕ) (b : Budget) (s' : S)
      → IsAccounted inflight (record b { cursor = next; used = used }) s'
      → fits (used + n) b.limit ≡ true
      → Reserved n inflight b (record b { cursor = next; used = used + n }) s' true
  room_Reserved n inflight next used b s' a f = record {
    same_limit = refl;
    same_evictors = refl;
    granted = λ q. record {
      good = a.good;
      exact = omega (arith, a.exact);
      distinct = a.distinct;
      in_range = a.in_range;
    };
    within = λ q. ground arith;
    refused = λ q. cc;
    too_much = λ q. cc;
  }

  -- What the later rounds promise the first one promises too.
  Reserved-next :
      (n inflight next used : ℕ) (b b' : Budget) (s' : S) (got : Bool)
      → Reserved n inflight (record b { cursor = next; used = used }) b' s' got
      → Reserved n inflight b b' s' got
  Reserved-next n inflight next used b b' s' got r = record {
    same_limit = r.same_limit;
    same_evictors = r.same_evictors;
    granted = r.granted;
    within = r.within;
    refused = r.refused;
    too_much = r.too_much;
  }

  -- With more fuel than rounds the loop ends, with room made or with every manager empty.
  pub reserve_loop_lem :
      (fuel n inflight refused : ℕ) (b : Budget) (s : S)
      → IsRound n inflight refused b s
      → measure b s refused < fuel
      → (got : Bool) × (b' : Budget) × (s' : S) × (reserve_loop E fuel n refused b s
          ≡ done (got, b', s'))
        × Reserved n inflight b b' s' got
  unfolding reserve_loop
  reserve_loop_lem zero n inflight refused b s v m = absurd (omega arith)
  reserve_loop_lem (suc fuel) n inflight refused b s v m =
      elim (Bool-cases (ltb 0 (length b.evictors) && ltb refused (length b.evictors))) [
        | inr e ↦ (
          false,
          b,
          s,
          rw (e, reserve_loop),
          stop_Reserved n inflight refused b s v (ground arith),
        )
        | inl e ↦
            let in_range : b.cursor < length b.evictors = v.accounted.in_range (ground arith) in
            let more : refused < length b.evictors = ground arith in
            let next = (b.cursor + 1) % length b.evictors in
            let (d, at) = get_elem?_of_lt b.evictors b.cursor in_range in
            elim (Option-cases (evict_oldest d s)) [
              | inl q ↦
                  let b1 = record b { cursor = next } in
                  let (got, b', s', r, p) =
                    reserve_loop_lem fuel n inflight (refused + 1) b1 s
                      (refused-IsRound n inflight refused d b s v in_range at q) (omega arith) in
                  (
                    got,
                    b',
                    s',
                    rw (e, at, q, reserve_loop) r,
                    Reserved-next n inflight next b.used b b' s' got p,
                  )
              | inr ((freed, t), q) ↦
                  let used = b.used - freed in
                  let a = evicted_round n inflight refused d freed b s t v in_range at q in
                  elim (Bool-cases (fits (used + n) b.limit)) [
                    | inl f ↦ (
                      true,
                      record b { cursor = next; used = used + n },
                      t,
                      rw (e, at, q, f, reserve_loop),
                      room_Reserved n inflight next used b t a f,
                    )
                    | inr f ↦
                        let b1 = record b { cursor = next; used = used } in
                        let (got, b', s', r, p) =
                          reserve_loop_lem fuel n inflight 0 b1 t
                            (record {
                              accounted = a;
                              no_room = f;
                              drained = λ i x g l far. absurd (ground arith);
                            })
                            (omega (
                              arith,
                              ap (λ (k : ℕ). k * (length b.evictors + 1))
                                  (count_falls d freed b s t v.accounted.good v.accounted.distinct
                                    at q),
                            )) in
                        (
                          got,
                          b',
                          s',
                          rw (e, at, q, f, reserve_loop) r,
                          Reserved-next n inflight next used b b' s' got p,
                        )
                  ]
            ]
      ]
