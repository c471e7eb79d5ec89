-- ===== src/Cache/Flight/Invariant.antt =====
-- What the calls in flight and those who wait for them have in common, and how it survives a call's
-- next phase.
use jaydb.Base.{
  ℕ, ◌⊎◌, ◌≡◌, refl, sym, ap, ◌∙◌, inl, inr, ◌==◌, Str, Bool, true, false, Option, none, some,
  StrMap, lookup, arith, Bool-cases,
}
use jaydb.Cache.Flight.{
  Answer, Phase, idle, hit, missed, leading, fetched, settled, removed, closed, waiting, joined,
  cancelled, Flights, moved, at,
}
use jaydb.Cache.Calls.{World}

-- The key whose fetch a call leads, as long as its entry is in the map.
abbrev pub leads : Phase → Option Str
leads idle = none
leads (hit r) = none
leads (missed key) = none
leads (leading key) = some key
leads (fetched key r) = some key
leads (settled key r) = some key
leads (removed r) = none
leads (closed r) = none
leads (waiting j) = none
leads (joined j r) = none
leads (cancelled c) = none

-- A call that leads a fetch or has led one.
abbrev pub has_led : Phase → Bool
has_led idle = false
has_led (hit r) = false
has_led (missed key) = false
has_led (leading key) = true
has_led (fetched key r) = true
has_led (settled key r) = true
has_led (removed r) = true
has_led (closed r) = true
has_led (waiting j) = false
has_led (joined j r) = false
has_led (cancelled c) = false

abbrev pub Led : StrMap ℕ → (ℕ → Phase) → Type 0
Led m phase = (key : Str) (i : ℕ) → lookup key m ≡ some i → leads (phase i) ≡ some key

abbrev pub Held : StrMap ℕ → (ℕ → Phase) → Type 0
Held m phase = (i : ℕ) (key : Str) → leads (phase i) ≡ some key → lookup key m ≡ some i

abbrev pub Awaited : (ℕ → Phase) → Type 0
Awaited phase = (i j : ℕ) → phase i ≡ waiting j → has_led (phase j) ≡ true

abbrev pub Shared : (ℕ → Phase) → Type 0
Shared phase = (i j : ℕ) (r : Answer) → phase i ≡ joined j r → phase j ≡ closed r

-- The map has exactly the calls that lead, and a call that waits or has waited does so for one that
-- leads or has led, and returned the same.
pub record IsSound {D : Type 0} (f : Flights D) : Type 0 where
  pub led : Led f.in_flight f.phase
  pub held : Held f.in_flight f.phase
  pub awaited : Awaited f.phase
  pub shared : Shared f.phase

module _ (phase : ℕ → Phase) (i : ℕ) (p : Phase) where
  pub moved_self : moved phase i p i ≡ p
  moved_self = ground (arith)

  moved_other : (j : ℕ) → (j == i) ≡ false → moved phase i p j ≡ phase j
  moved_other j e = rw e refl

  pub moved-cases : (j : ℕ) → ((j ≡ i) × (moved phase i p j ≡ p)) ⊎ (moved phase i p j ≡ phase j)
  moved-cases j = elim (Bool-cases (j == i)) [
    | inl e ↦ inl (ground (arith, e), rw e refl)
    | inr e ↦ inr (rw e refl)
  ]

  pub moved-Led : (m : StrMap ℕ) → leads p ≡ leads (phase i) → Led m phase → Led m (moved phase i p)
  moved-Led m s l key j h = elim (moved-cases j) [
    | inl (e, q) ↦ ap leads q ∙ s ∙ ap (λ k. leads (phase k)) (sym e) ∙ l key j h
    | inr q ↦ ap leads q ∙ l key j h
  ]

  pub moved-Held :
      (m : StrMap ℕ) → leads p ≡ leads (phase i) → Held m phase → Held m (moved phase i p)
  moved-Held m s l j key h = elim (moved-cases j) [
    | inl (e, q) ↦ l j key (ap (λ k. leads (phase k)) e ∙ sym s ∙ ap leads (sym q) ∙ h)
    | inr q ↦ l j key (ap leads (sym q) ∙ h)
  ]

  keeps_led :
      (has_led (phase i) ≡ true → has_led p ≡ true)
      → (j : ℕ) → has_led (phase j) ≡ true
      → has_led (moved phase i p j) ≡ true
  keeps_led k j h = elim (moved-cases j) [
    | inl (e, q) ↦ ap has_led q ∙ k (ap (λ n. has_led (phase n)) (sym e) ∙ h)
    | inr q ↦ ap has_led q ∙ h
  ]

  pub moved-Awaited :
      (has_led (phase i) ≡ true → has_led p ≡ true)
      → ((j : ℕ) → p ≡ waiting j → has_led (phase j) ≡ true)
      → Awaited phase
      → Awaited (moved phase i p)
  moved-Awaited k w a n j h = elim (moved-cases n) [
    | inl (e, q) ↦ keeps_led k j (w j (sym q ∙ h))
    | inr q ↦ keeps_led k j (a n j (sym q ∙ h))
  ]

  keeps_closed :
      ((r : Answer) → ¬ (phase i ≡ closed r))
      → (j : ℕ) (r : Answer) → phase j ≡ closed r
      → moved phase i p j ≡ closed r
  keeps_closed o j r h = elim (moved-cases j) [
    | inl (e, q) ↦ absurd (o r (ap phase (sym e) ∙ h))
    | inr q ↦ q ∙ h
  ]

  pub moved-Shared :
      ((r : Answer) → ¬ (phase i ≡ closed r))
      → ((j : ℕ) (r : Answer) → p ≡ joined j r → phase j ≡ closed r)
      → Shared phase
      → Shared (moved phase i p)
  moved-Shared o w a n j r h = elim (moved-cases n) [
    | inl (e, q) ↦ keeps_closed o j r (w j r (sym q ∙ h))
    | inr q ↦ keeps_closed o j r (a n j r (sym q ∙ h))
  ]

module _ {D : Type 0} (f : Flights D) (v : IsSound f) (i : ℕ) (p : Phase) where
  -- A call that moves on with its entry of the map as it was.
  quiet :
      leads p ≡ leads (f.phase i)
      → (has_led (f.phase i) ≡ true → has_led p ≡ true)
      → ((r : Answer) → ¬ (f.phase i ≡ closed r))
      → ((j : ℕ) → p ≡ waiting j → has_led (f.phase j) ≡ true)
      → ((j : ℕ) (r : Answer) → p ≡ joined j r → f.phase j ≡ closed r)
      → IsSound (at f i p)
  quiet s k o w c = record {
    led = moved-Led f.phase i p f.in_flight s v.led;
    held = moved-Held f.phase i p f.in_flight s v.held;
    awaited = moved-Awaited f.phase i p k w v.awaited;
    shared = moved-Shared f.phase i p o c v.shared;
  }

  -- From a phase that has not led: neither entries nor waiters are concerned.
  pub from_open :
      (q : Phase)
      → f.phase i ≡ q
      → leads p ≡ leads q
      → (has_led q ≡ true → has_led p ≡ true)
      → ((r : Answer) → ¬ (q ≡ closed r))
      → ((j : ℕ) → p ≡ waiting j → has_led (f.phase j) ≡ true)
      → ((j : ℕ) (r : Answer) → p ≡ joined j r → f.phase j ≡ closed r)
      → IsSound (at f i p)
  from_open q e s k o w c =
      quiet (s ∙ ap leads (sym e)) (λ h. k (ap has_led (sym e) ∙ h)) (λ r h. o r (sym e ∙ h)) w c

pub in_world :
    {D : Type 0} (f : Flights D) (w : World) (disk : D)
    → IsSound f
    → IsSound (record f { world = w; disk = disk })
in_world f w disk v = record { led = v.led; held = v.held; awaited = v.awaited; shared = v.shared }
