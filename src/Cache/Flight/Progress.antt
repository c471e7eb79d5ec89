-- ===== src/Cache/Flight/Progress.antt =====
-- A call that waits is woken, if the storage and the admission return.
use jaydb.Base.{ℕ, ◌≡◌, refl, sym, ap, ◌∙◌, inl, inr, ◌⊎◌, some, Str, Bool, true}
use jaydb.Storage.{Driver}
use jaydb.Cache.Budget.{done}
use jaydb.Cache.Calls.{World, invalidate}
use jaydb.Cache.Calls.Accounts.{IsExact}
use jaydb.Cache.Calls.Admit.{HasFuel, admit_some-Returned}
use jaydb.Base.{ok, err}
use jaydb.Cache.Flight.{
  Answer, Phase, idle, hit, missed, leading, fetched, settled, removed, closed, waiting, joined,
  cancelled, Flights, moved, at, settle, remove, initial, read, store, leave, close, wake, Reach,
  Within, none_yet, also, taker, Label, label, Step,
}
use jaydb.Cache.Flight.Invariant.{has_led, moved-cases, moved_self}
use jaydb.Cache.Flight.Leaders.{Reach-IsSound, initial-IsSound}

-- What the leader makes of the storage's answer comes to an end.
pub settle_done :
    (config : ℕ → Bool) (fuel e inflight : ℕ) (key : Str) (now : ℕ) (r : Answer) (w : World)
    → IsExact config inflight e w
    → HasFuel config fuel w
    → (w' : World) × (settle config fuel e key now r w ≡ done w')
unfolding settle
settle_done config fuel e inflight key now (err x) w v enough = (invalidate e key w, refl)
settle_done config fuel e inflight key now (ok o) w v enough =
    let a = admit_some-Returned config fuel inflight e key o now w v enough in (a.world, a.returns)

module _ (config : ℕ → Bool) {D : Type 0} (driver : Driver D) (fuel e : ℕ) where
  open driver use {get}

  pub trans :
      {ok : Label → Type 0} {f g h : Flights D}
      → Within config driver fuel e ok f g
      → Within config driver fuel e ok g h
      → Within config driver fuel e ok f h
  trans r none_yet = r
  trans r (also t s o) = also (trans r t) s o

  -- A step of one of two calls; no step of another, and no change from outside.
  abbrev pub IsOf : ℕ → ℕ → Label → Type 0
  IsOf i j l = (taker l ≡ some i) ⊎ (taker l ≡ some j)

  -- The call `i` has joined the call `j`, some steps of these two from `f`.
  abbrev pub Joins : ℕ → ℕ → Flights D → Type 0
  Joins i j f =
      (g : Flights D) × Within config driver fuel e (IsOf i j) f g
      × (r : Answer) × (g.phase i ≡ joined j r)

  then-Joins :
      {i j : ℕ} {f g : Flights D} (s : Step config driver fuel e f g)
      → IsOf i j (label config driver fuel e s)
      → Joins i j g
      → Joins i j f
  then-Joins s o (h, r, a, q) = (h, trans (also none_yet s o) r, a, q)

  module _ (i j : ℕ) where
    still_waiting :
        (f : Flights D) (p : Phase)
        → f.phase i ≡ waiting j
        → ¬ (f.phase j ≡ waiting j)
        → moved f.phase j p i ≡ waiting j
    still_waiting f p h n = elim (moved-cases f.phase j p i) [
      | inl (e, q) ↦ absurd (n (ap f.phase (sym e) ∙ h))
      | inr q ↦ q ∙ h
    ]

    closed-Joins :
        (f : Flights D) (r : Answer) → f.phase i ≡ waiting j → f.phase j ≡ closed r → Joins i j f
    closed-Joins f r h c = (
      at f i (joined j r),
      also none_yet (wake f i j r h c) (inl refl),
      r,
      moved_self f.phase i (joined j r),
    )

    removed-Joins :
        (f : Flights D) (r : Answer) → f.phase i ≡ waiting j → f.phase j ≡ removed r → Joins i j f
    removed-Joins f r h c = then-Joins (close f j r c) (inr refl) (
        closed-Joins (at f j (closed r)) r (still_waiting f (closed r) h (λ x. cc))
          (moved_self f.phase j (closed r)))

    settled-Joins :
        (f : Flights D) (key : Str) (r : Answer)
        → f.phase i ≡ waiting j
        → f.phase j ≡ settled key r
        → Joins i j f
    unfolding remove
    settled-Joins f key r h c = then-Joins (leave f j key r c) (inr refl) (
        removed-Joins (remove j key r f) r (still_waiting f (removed r) h (λ x. cc))
          (moved_self f.phase j (removed r)))

    module _ (inflight : ℕ) where
      fetched-Joins :
          (f : Flights D) (key : Str) (r : Answer)
          → IsExact config inflight e f.world
          → HasFuel config fuel f.world
          → f.phase i ≡ waiting j
          → f.phase j ≡ fetched key r
          → Joins i j f
      fetched-Joins f key r x enough h c =
          let (w, s) = settle_done config fuel e inflight key 0 r f.world x enough in
          then-Joins (store f j key r 0 w c s) (inr refl) (
            settled-Joins (record (at f j (settled key r)) { world = w }) key r
              (still_waiting f (settled key r) h (λ x. cc)) (moved_self f.phase j (settled key r)))

      leading-Joins :
          (f : Flights D) (key : Str)
          → IsExact config inflight e f.world
          → HasFuel config fuel f.world
          → f.phase i ≡ waiting j
          → f.phase j ≡ leading key
          → Joins i j f
      leading-Joins f key x enough h c =
          let p = fetched key (get key f.disk) in
          then-Joins (read f j key c) (inr refl) (
            fetched-Joins (at f j p) key (get key f.disk) x enough (still_waiting f p h (λ x. cc))
              (moved_self f.phase j p))

      has_led-Joins :
          (f : Flights D) (p : Phase)
          → IsExact config inflight e f.world
          → HasFuel config fuel f.world
          → f.phase j ≡ p
          → has_led p ≡ true
          → f.phase i ≡ waiting j
          → Joins i j f
      has_led-Joins f (leading key) x enough c l h = leading-Joins f key x enough h c
      has_led-Joins f (fetched key r) x enough c l h = fetched-Joins f key r x enough h c
      has_led-Joins f (settled key r) x enough c l h = settled-Joins f key r h c
      has_led-Joins f (removed r) x enough c l h = removed-Joins f r h c
      has_led-Joins f (closed r) x enough c l h = closed-Joins f r h c
      has_led-Joins f idle x enough c l h = cc
      has_led-Joins f (hit r) x enough c l h = cc
      has_led-Joins f (missed key) x enough c l h = cc
      has_led-Joins f (waiting k) x enough c l h = cc
      has_led-Joins f (joined k r) x enough c l h = cc
      has_led-Joins f (cancelled t) x enough c l h = cc

  -- No call waits for nothing: in any state that calls reach where the budget's count is exact and
  -- there is fuel for the rounds of `Reserve`, a call that waits for another gets an answer from it by
  -- steps of these two calls alone, while nothing else changes the cache or the storage.
  pub waiting-Joins :
      (inflight : ℕ) (w : World) (disk : D) {f : Flights D} (i j : ℕ)
      → Reach config driver fuel e (initial w disk) f
      → IsExact config inflight e f.world
      → HasFuel config fuel f.world
      → f.phase i ≡ waiting j
      → Joins i j f
  waiting-Joins inflight w disk {f} i j r x enough h =
      let v = Reach-IsSound config driver fuel e (initial-IsSound config driver fuel e w disk) r in
      has_led-Joins i j inflight f (f.phase j) x enough refl (v.awaited i j h) h
