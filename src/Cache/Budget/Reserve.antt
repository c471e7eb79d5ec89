-- ===== src/Cache/Budget/Reserve.antt =====
-- `Reserve`: what it promises on every branch, and when it succeeds.
use jaydb.Base.{
  ℕ, ◌+◌, ◌≤◌, ◌<◌, ◌≡◌, refl, ap, ◌∙◌, inl, inr, Bool, true, false, ◌||◌, arith, Bool-cases, ℤ,
  pos, negsuc, pos_part,
}
use jaydb.Cache.Budget.{Evictors, Budget, done, fits, is_unbounded, reserve}
use jaydb.Cache.Budget.Loop.{IsAccounted, IsRound, Reserved, measure, reserve_loop_lem}

fits_mono : (m n : ℕ) (l : ℤ) → m ≤ n → fits n l ≡ true → fits m l ≡ true
fits_mono m n (pos l) h f = ground arith
fits_mono m n (negsuc l) h f = cc

not_fits_mono : (m n : ℕ) (l : ℤ) → m ≤ n → fits m l ≡ false → fits n l ≡ false
not_fits_mono m n (pos l) h f = ground arith
not_fits_mono m n (negsuc l) h f = refl

module _ {S : Type 0} {IsGood : S → Type 0} (E : Evictors S IsGood) where
  -- All that a call of `Reserve` promises: beside `Reserved`, a budget without a ceiling never
  -- refuses, and an object above the ceiling is refused with no eviction at all.
  pub record Outcome (n inflight : ℕ) (b : Budget) (s : S) (got : Bool) (b' : Budget) (s' : S)
      : Type 0 where
    pub reserved : Reserved E n inflight b b' s' got
    pub bounded : got ≡ false → is_unbounded b.limit ≡ false
    pub too_big :
        is_unbounded b.limit ≡ false → fits n b.limit ≡ false → (got ≡ false) × (b' ≡ b) × (s' ≡ s)

  at_once :
      (n inflight : ℕ) (b : Budget) (s : S)
      → IsAccounted E inflight b s
      → (is_unbounded b.limit || fits (b.used + n) b.limit) ≡ true
      → Outcome n inflight b s true (record b { used = b.used + n }) s
  at_once n inflight b s a h = record {
    reserved = record {
      same_limit = refl;
      same_evictors = refl;
      granted = λ q. record {
        good = a.good;
        exact = omega (arith, a.exact);
        distinct = a.distinct;
        in_range = a.in_range;
      };
      within = λ q. h;
      refused = λ q. cc;
      too_much = λ q. cc;
    };
    bounded = λ q. cc;
    too_big = λ u f. absurd (ground (arith, not_fits_mono n (b.used + n) b.limit));
  }

  above_ceiling :
      (n inflight : ℕ) (b : Budget) (s : S)
      → IsAccounted E inflight b s
      → is_unbounded b.limit ≡ false
      → fits n b.limit ≡ false
      → Outcome n inflight b s false b s
  above_ceiling n inflight b s a u f = record {
    reserved = record {
      same_limit = refl;
      same_evictors = refl;
      granted = λ q. cc;
      within = λ q. cc;
      refused = λ q. a;
      too_much = λ q. not_fits_mono n (inflight + n) b.limit (omega arith) f;
    };
    bounded = λ q. u;
    too_big = λ u' f'. (refl, refl, refl);
  }

  by_eviction :
      (n inflight : ℕ) (b b' : Budget) (s s' : S) (got : Bool)
      → is_unbounded b.limit ≡ false
      → fits n b.limit ≡ true
      → Reserved E n inflight b b' s' got
      → Outcome n inflight b s got b' s'
  by_eviction n inflight b b' s s' got u f r = record {
    reserved = r;
    bounded = λ q. u;
    too_big = λ u' f'. absurd (ground arith);
  }

  -- On a budget that counts what its managers hold and `inflight` bytes beside, with more fuel
  -- than there can be rounds, `Reserve` returns. If it grants the bytes, the count has grown by
  -- exactly these, is exact again and below the ceiling, where there is one. If it refuses, the
  -- count is exact, and not even an empty cache would have made room beside the bytes in flight.
  -- A budget without a ceiling never refuses; an object above the ceiling is refused and evicts
  -- nothing. The ceiling and the registered managers stay.
  pub reserve_lem :
      (fuel inflight : ℕ) (b : Budget) (s : S) (m : ℤ)
      → IsAccounted E inflight b s
      → measure E b s 0 < fuel
      → (got : Bool) × (b' : Budget) × (s' : S) × (reserve E fuel b s m ≡ done (got, b', s'))
        × Outcome (pos_part m) inflight b s got b' s'
  unfolding reserve
  reserve_lem fuel inflight b s m a enough =
      let n = pos_part m in
      elim (Bool-cases (is_unbounded b.limit || fits (b.used + n) b.limit)) [
        | inl h ↦ (true, record b { used = b.used + n }, s, rw h, at_once n inflight b s a h)
        | inr h ↦
            let u : is_unbounded b.limit ≡ false = ground arith in
            elim (Bool-cases (fits n b.limit)) [
              | inr f ↦ (false, b, s, rw (h, f), above_ceiling n inflight b s a u f)
              | inl f ↦
                  let start : IsRound E n inflight 0 b s = record {
                    accounted = a;
                    no_room = ground arith;
                    drained = λ p e g l far. absurd (ground (arith, a.in_range));
                  } in
                  let (got, b', s', r, p) = reserve_loop_lem E fuel n inflight 0 b s start enough in
                  (got, b', s', rw (h, f) r, by_eviction n inflight b b' s s' got u f p)
            ]
      ]

  -- With nothing in flight `Reserve` grants exactly what fits under the ceiling by itself.
  pub reserve-fits :
      (fuel : ℕ) (b : Budget) (s : S) (m : ℤ)
      → IsAccounted E 0 b s
      → measure E b s 0 < fuel
      → (b' : Budget) × (s' : S) × (reserve E fuel b s m
          ≡ done (is_unbounded b.limit || fits (pos_part m) b.limit, b', s'))
  reserve-fits fuel b s m a enough =
      let (got, b', s', r, o) = reserve_lem fuel 0 b s m a enough in
      let n = pos_part m in
      let same : got ≡ (is_unbounded b.limit || fits n b.limit) = elim (Bool-cases got) [
        | inl q ↦ ground (
          arith,
          o.reserved.within q,
          fits_mono n b'.used b.limit (omega (arith, (o.reserved.granted q).exact)),
        )
        | inr q ↦ ground (
          arith,
          o.bounded q,
          not_fits_mono (0 + n) n b.limit (omega arith) (o.reserved.too_much q),
        )
      ] in
      (b', s', r ∙ ap (λ g. done (g, b', s')) same)
