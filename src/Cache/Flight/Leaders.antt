-- ===== src/Cache/Flight/Leaders.antt =====
-- The leaders of fetches and those who wait for them, however the calls interleave.
use jaydb.Base.{
  ℕ, ◌⊎◌, ◌≡◌, refl, sym, ap, ◌∙◌, subst, inl, inr, Str, Bool, true, false, Option, none, some,
  StrMap, lookup, insert, erase, arith, Bool-cases, Option-cases, str_eq, eq_of_str_eq,
  lookup-insert, lookup-erase, lookup-insert_self, if◌then◌else◌, str_eq_refl,
}
use jaydb.Storage.{Driver, Object}
use jaydb.Cache.Flight.{
  Answer, Phase, idle, hit, missed, leading, fetched, settled, removed, closed, waiting, joined,
  cancelled, Flights, moved, at, start, load_or_store, remove, after_lookup, look_up, initial, Step,
  begin, enter, read, store, leave, close, wake, cancel, change, Reach, here, next,
}
use jaydb.Base.{ok}
use jaydb.Cache.Calls.{World}
use jaydb.Cache.Flight.Invariant.{
  leads, has_led, Led, Held, IsSound, moved_self, moved-cases, moved-Led, moved-Held, moved-Awaited,
  moved-Shared, from_open, in_world,
}

no_key : (k : Str) → ¬ (some k ≡ none)
no_key k x = cc

no_index : (j : ℕ) → ¬ (some j ≡ none)
no_index j x = cc

leads-has_led : (p : Phase) (key : Str) → leads p ≡ some key → has_led p ≡ true
leads-has_led (leading k) key h = refl
leads-has_led (fetched k r) key h = refl
leads-has_led (settled k r) key h = refl
leads-has_led idle key h = cc
leads-has_led (hit r) key h = cc
leads-has_led (missed k) key h = cc
leads-has_led (removed r) key h = cc
leads-has_led (closed r) key h = cc
leads-has_led (waiting j) key h = cc
leads-has_led (joined j r) key h = cc
leads-has_led (cancelled c) key h = cc

insert-cases :
    (m : StrMap ℕ) (key k : Str) (i j : ℕ)
    → lookup k (insert key i m) ≡ some j
    → ((k ≡ key) × (j ≡ i)) ⊎ (lookup k m ≡ some j)
insert-cases m key k i j l =
    let t = sym (lookup-insert key k i m) ∙ l in
    elim (Bool-cases (str_eq key k)) [
      | inl e ↦
          let u : some i ≡ some j = subst (λ b. (if b then some i else lookup k m) ≡ some j) e t in
          inl (sym (eq_of_str_eq key k e), cc)
      | inr e ↦
          (let u : lookup k m ≡ some j =
              subst (λ b. (if b then some i else lookup k m) ≡ some j) e t in
            inr u)
    ]

erase-cases :
    (m : StrMap ℕ) (key k : Str) (j : ℕ)
    → lookup k (erase key m) ≡ some j
    → (str_eq key k ≡ false) × (lookup k m ≡ some j)
erase-cases m key k j l =
    let t = sym (lookup-erase key k m) ∙ l in
    elim (Bool-cases (str_eq key k)) [
      | inl e ↦
          (let u : none ≡ some j = subst (λ b. (if b then none else lookup k m) ≡ some j) e t in
            absurd (no_index j (sym u)))
      | inr e ↦
          (let u : lookup k m ≡ some j =
              subst (λ b. (if b then none else lookup k m) ≡ some j) e t in
            (e, u))
    ]

insert_kept :
    (m : StrMap ℕ) (key k : Str) (i : ℕ)
    → str_eq key k ≡ false
    → lookup k (insert key i m) ≡ lookup k m
insert_kept m key k i e = lookup-insert key k i m ∙ rw e refl

module _ {D : Type 0} (f : Flights D) (v : IsSound f) (i : ℕ) (key : Str) where
  begun : (o : Option Object) → f.phase i ≡ idle → IsSound (at f i (after_lookup key o))
  begun none h =
      from_open f v i (missed key) idle h refl (λ x. x) (λ r x. cc) (λ j x. cc) (λ j r x. cc)
  begun (some o) h =
      from_open f v i (hit (ok (some o))) idle h refl (λ x. x) (λ r x. cc) (λ j x. cc) (λ j r x. cc)

  inserted-Led :
      f.phase i ≡ missed key → Led (insert key i f.in_flight) (moved f.phase i (leading key))
  inserted-Led h k j l = elim (insert-cases f.in_flight key k i j l) [
    | inl (e, q) ↦ rw (e, q, moved_self f.phase i (leading key)) refl
    | inr t ↦ elim (moved-cases f.phase i (leading key) j) [
      | inl (e, q) ↦
          let led = v.led k i (ap (λ n. lookup k f.in_flight) e ∙ t ∙ ap (λ n. some n) e) in
          absurd (no_key k (sym led ∙ ap leads h))
      | inr q ↦ ap leads q ∙ v.led k j t
    ]
  ]

  inserted-Held :
      f.phase i ≡ missed key
      → lookup key f.in_flight ≡ none
      → Held (insert key i f.in_flight) (moved f.phase i (leading key))
  inserted-Held h n j k l = elim (moved-cases f.phase i (leading key) j) [
    | inl (e, q) ↦
        let same : some key ≡ some k = ap leads (sym q) ∙ l in
        let t : key ≡ k = cc in
        ap (λ c. lookup c (insert key i f.in_flight)) (sym t)
        ∙ lookup-insert_self key i f.in_flight
        ∙ ap (λ n. some n) (sym e)
    | inr q ↦
        let held = v.held j k (ap leads (sym q) ∙ l) in
        elim (Bool-cases (str_eq key k)) [
          | inl e ↦
              absurd (
                no_index j (sym (ap (λ c. lookup c f.in_flight) (eq_of_str_eq key k e) ∙ held) ∙ n))
          | inr e ↦ insert_kept f.in_flight key k i e ∙ held
        ]
  ]

  entered : f.phase i ≡ missed key → IsSound (load_or_store i key f)
  unfolding load_or_store
  entered h = elim (Option-cases (lookup key f.in_flight)) [
    | inl n ↦
        rw (load_or_store, n)
          (record {
            led = inserted-Led h;
            held = inserted-Held h n;
            awaited = moved-Awaited f.phase i (leading key) (λ x. refl) (λ j x. cc) v.awaited;
            shared = moved-Shared f.phase i (leading key) (λ r x. cc) (λ j r x. cc) v.shared;
          })
    | inr (j, n) ↦
        let led = v.led key j n in
        rw (load_or_store, n)
          (record {
            led = moved-Led f.phase i (waiting j) f.in_flight (ap leads (sym h)) v.led;
            held = moved-Held f.phase i (waiting j) f.in_flight (ap leads (sym h)) v.held;
            awaited =
                moved-Awaited f.phase i (waiting j) (λ x. cc)
                  (λ k x.
                    let t : k ≡ j = cc in
                    ap (λ n. has_led (f.phase n)) t ∙ leads-has_led (f.phase j) key led)
                  v.awaited;
            shared = moved-Shared f.phase i (waiting j) (λ r x. cc) (λ j r x. cc) v.shared;
          })
  ]

  erased-Led :
      (r : Answer)
      → f.phase i ≡ settled key r
      → Led (erase key f.in_flight) (moved f.phase i (removed r))
  erased-Led r h k j l =
      let (e, t) = erase-cases f.in_flight key k j l in
      elim (moved-cases f.phase i (removed r) j) [
        | inl (d, q) ↦
            let mine : some key ≡ some k =
              sym (ap leads h) ∙ ap (λ n. leads (f.phase n)) (sym d) ∙ v.led k j t in
            let same : key ≡ k = cc in
            let u : str_eq key k ≡ true = rw (sym same) (str_eq_refl key) in ground (arith, e, u)
        | inr q ↦ ap leads q ∙ v.led k j t
      ]

  erased-Held :
      (r : Answer)
      → f.phase i ≡ settled key r
      → Held (erase key f.in_flight) (moved f.phase i (removed r))
  erased-Held r h j k l = elim (moved-cases f.phase i (removed r) j) [
    | inl (e, q) ↦ absurd (no_key k (sym (ap leads (sym q) ∙ l)))
    | inr q ↦
        let held = v.held j k (ap leads (sym q) ∙ l) in
        elim (Bool-cases (str_eq key k)) [
          | inl e ↦
              let mine : some i ≡ some j =
                sym (v.held i key (ap leads h))
                ∙ ap (λ c. lookup c f.in_flight) (eq_of_str_eq key k e)
                ∙ held in
              let same : j ≡ i = cc in
              absurd (
                no_key k (
                  sym l
                  ∙ ap (λ n. leads (moved f.phase i (removed r) n)) same
                  ∙ ap leads (moved_self f.phase i (removed r))))
          | inr e ↦ lookup-erase key k f.in_flight ∙ rw e held
        ]
  ]

  left : (r : Answer) → f.phase i ≡ settled key r → IsSound (remove i key r f)
  unfolding remove
  left r h = record {
    led = erased-Led r h;
    held = erased-Held r h;
    awaited = moved-Awaited f.phase i (removed r) (λ x. refl) (λ j x. cc) v.awaited;
    shared = moved-Shared f.phase i (removed r) (λ q x. cc) (λ j q x. cc) v.shared;
  }

module _ (config : ℕ → Bool) {D : Type 0} (driver : Driver D) (fuel e : ℕ) where
  Step-IsSound : {f g : Flights D} → Step config driver fuel e f g → IsSound f → IsSound g
  unfolding start
  Step-IsSound (begin f i key asked now h) v =
      in_world (at f i (after_lookup key (look_up e key asked now f.world).0))
        (look_up e key asked now f.world).1 f.disk
        (begun f v i key (look_up e key asked now f.world).0 h)
  Step-IsSound (enter f i key h) v = entered f v i key h
  Step-IsSound (read f i key h) v =
      from_open f v i _ (leading key) h refl (λ x. x) (λ r x. cc) (λ j x. cc) (λ j r x. cc)
  Step-IsSound (store f i key r now w h s) v = in_world (at f i (settled key r)) w f.disk (
      from_open f v i (settled key r) (fetched key r) h refl (λ x. x) (λ r x. cc) (λ j x. cc)
        (λ j r x. cc))
  Step-IsSound (leave f i key r h) v = left f v i key r h
  Step-IsSound (close f i r h) v =
      from_open f v i (closed r) (removed r) h refl (λ x. x) (λ r x. cc) (λ j x. cc) (λ j r x. cc)
  Step-IsSound (wake f i j r h c) v =
      from_open f v i (joined j r) (waiting j) h refl (λ x. cc) (λ r x. cc) (λ j x. cc)
        (λ k q x. cc)
  Step-IsSound (cancel f i j c h) v =
      from_open f v i (cancelled c) (waiting j) h refl (λ x. cc) (λ r x. cc) (λ j x. cc)
        (λ j r x. cc)
  Step-IsSound (change f w disk) v = in_world f w disk v

  pub Reach-IsSound : {f g : Flights D} → IsSound f → Reach config driver fuel e f g → IsSound g
  Reach-IsSound v here = v
  Reach-IsSound v (next r s) = Step-IsSound s (Reach-IsSound v r)

  pub initial-IsSound : (w : World) (disk : D) → IsSound (initial w disk)
  unfolding lookup
  initial-IsSound w disk = record {
    led = λ key i h. cc;
    held = λ i key h. cc;
    awaited = λ i j h. cc;
    shared = λ i j r h. cc;
  }

  -- However calls of `Get` interleave with each other and with any change of the cache and the
  -- storage, no two of them fetch one key at the same time, and a call that has waited for another
  -- returns what that one returned.
  pub Reach-coalesced :
      (w : World) (disk : D) {f : Flights D}
      → Reach config driver fuel e (initial w disk) f
      → ((i j : ℕ) (key : Str)
          → leads (f.phase i) ≡ some key
          → leads (f.phase j) ≡ some key
          → i ≡ j)
        × ((i j : ℕ) (r : Answer) → f.phase i ≡ joined j r → f.phase j ≡ closed r)
  Reach-coalesced w disk {f} r =
      let v = Reach-IsSound (initial-IsSound w disk) r in
      (
        λ i j key h k. let t : some i ≡ some j = sym (v.held i key h) ∙ v.held j key k in cc,
        v.shared,
      )
