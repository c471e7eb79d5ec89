-- ===== src/Cache/Flight/Alone.antt =====
-- A call of `Get` that runs alone does what Cache.Calls says.
use jaydb.Base.{
  ℕ, ◌≡◌, refl, sym, ap, ◌∙◌, subst, inl, inr, Str, Bool, Option, none, some, lookup, ok,
  Result-cases, Option-cases, Bool-cases,
}
use jaydb.Storage.{Driver, Object}
use jaydb.Cache.Budget.{Run, done, stuck, panicked}
use jaydb.Cache.Shard.{find_element}
use jaydb.Cache.Calls.{
  World, put_manager, shard_for, count_miss, is_fresh, answer, fetch, get_object,
}
use jaydb.Cache.Flight.{
  Answer, Phase, idle, hit, missed, leading, fetched, settled, removed, closed, Flights, moved, at,
  look_up, after_lookup, start, load_or_store, settle, remove, begin, enter, read, store, leave,
  close, Step, Within, none_yet, also, Label, label, began, went_on, stored, changed,
}
use jaydb.Base.{insert}
use jaydb.Cache.Flight.{waiting, joined, cancelled}
use jaydb.Cache.Flight.Progress.{trans}
use jaydb.Cache.Flight.Invariant.{moved_self}

module _ (config : ℕ → Bool) {D : Type 0} (driver : Driver D) (fuel e : ℕ) where
  open driver use {get}

  -- `fetch` is the leader's part behind the count of the miss.
  abbrev missed_in : World → World
  missed_in w = put_manager e (count_miss (w.pool e)) w

  fetch-settle :
      (key : Str) (now : ℕ) (disk : D) (w : World)
      → fetch config driver fuel e key now disk w
        ≡ answer (get key disk) (settle config fuel e key now (get key disk) (missed_in w))
  unfolding fetch settle
  fetch-settle key now disk w = elim (Result-cases (get key disk)) [
    | inl (o, h) ↦ rw (fetch, h) refl
    | inr (x, h) ↦ rw (fetch, h) refl
  ]

  -- What a call does, by what its lookup finds.
  after_look_up : Str → ℕ → D → Option Object × World → Run (Answer × World)
  after_look_up key now disk (none, w) =
      answer (get key disk) (settle config fuel e key now (get key disk) w)
  after_look_up key now disk (some o, w) = done (ok (some o), w)

  get_object-after_look_up :
      (key : Str) (asked now : ℕ) (disk : D) (w : World)
      → get_object config driver fuel e key asked now disk w
        ≡ after_look_up key now disk (look_up e key asked now w)
  unfolding get_object look_up after_look_up
  get_object-after_look_up key asked now disk w =
      elim (Option-cases (find_element key (shard_for key (w.pool e)))) [
        | inl f ↦ rw (get_object, look_up, f) (fetch-settle key now disk w)
        | inr ((i, x), f) ↦ elim (Bool-cases (is_fresh (w.pool e) x.last_accessed asked)) [
          | inl h ↦ rw (get_object, look_up, f, h) refl
          | inr h ↦ rw (get_object, look_up, f, h) (fetch-settle key now disk w)
        ]
      ]

-- What a call has returned.
abbrev pub returned : Phase → Option Answer
returned idle = none
returned (hit r) = some r
returned (missed key) = none
returned (leading key) = none
returned (fetched key r) = none
returned (settled key r) = none
returned (removed r) = none
returned (closed r) = some r
returned (waiting j) = none
returned (joined j r) = some r
returned (cancelled c) = none

answer-done :
    (a r : Answer) (x : Run World) (w : World) → answer a x ≡ done (r, w) → (x ≡ done w) × (a ≡ r)
answer-done a r stuck w h = cc
answer-done a r panicked w h = cc
answer-done a r (done v) w h = (cc, cc)

-- The steps of one call of `Get`, for a key and with its two readings of the clock.
abbrev pub IsGet : ℕ → Str → ℕ → ℕ → Label → Type 0
IsGet i key asked now (began j k a n) = (j ≡ i) × (k ≡ key) × (a ≡ asked) × (n ≡ now)
IsGet i key asked now (went_on j) = j ≡ i
IsGet i key asked now (stored j n) = (j ≡ i) × (n ≡ now)
IsGet i key asked now changed = ⊥

module _ (config : ℕ → Bool) {D : Type 0} (driver : Driver D) (fuel e i : ℕ) (key : Str)
    (asked now : ℕ) where
  open driver use {get}

  -- The steps of the call alone lead from `f` to a state where it has returned `r`, with this cache and
  -- storage.
  abbrev pub Ends : Answer → World → D → Flights D → Type 0
  Ends r w disk f =
      (g : Flights D) × Within config driver fuel e (IsGet i key asked now) f g
      × (g.world ≡ w)
      × (g.disk ≡ disk)
      × (returned (g.phase i) ≡ some r)

  then-Ends :
      {r : Answer} {w : World} {disk : D} {f g : Flights D} (s : Step config driver fuel e f g)
      → IsGet i key asked now (label config driver fuel e s)
      → Ends r w disk g
      → Ends r w disk f
  then-Ends s o (h, t, a, b, c) = (h, trans config driver fuel e (also none_yet s o) t, a, b, c)

  removed-Ends : (f : Flights D) (r : Answer) → f.phase i ≡ removed r → Ends r f.world f.disk f
  removed-Ends f r h = (
    at f i (closed r),
    also none_yet (close f i r h) refl,
    refl,
    refl,
    ap returned (moved_self f.phase i (closed r)),
  )

  settled-Ends : (f : Flights D) (r : Answer) → f.phase i ≡ settled key r → Ends r f.world f.disk f
  unfolding remove
  settled-Ends f r h =
      then-Ends (leave f i key r h) refl
        (removed-Ends (remove i key r f) r (moved_self f.phase i (removed r)))

  leading-Ends :
      (f : Flights D) (w : World)
      → f.phase i ≡ leading key
      → settle config fuel e key now (get key f.disk) f.world ≡ done w
      → Ends (get key f.disk) w f.disk f
  leading-Ends f w h s =
      let r = get key f.disk in
      let p = fetched key r in
      let g = at f i p in
      then-Ends (read f i key h) refl (
        then-Ends (store g i key r now w (moved_self f.phase i p) s) (refl, refl)
          (settled-Ends (record (at g i (settled key r)) { world = w }) r
            (moved_self g.phase i (settled key r))))

  missed-Ends :
      (f : Flights D) (w : World)
      → f.phase i ≡ missed key
      → lookup key f.in_flight ≡ none
      → settle config fuel e key now (get key f.disk) f.world ≡ done w
      → Ends (get key f.disk) w f.disk f
  unfolding load_or_store
  missed-Ends f w h n s = then-Ends (enter f i key h) refl (
      rw (load_or_store, n)
        (leading-Ends
          (record f { in_flight = insert key i f.in_flight; phase = moved f.phase i (leading key) })
          w (moved_self f.phase i (leading key)) s))

  looked_up-Ends :
      (f : Flights D) (r : Answer) (w : World) (p : Option Object × World)
      → f.phase i ≡ idle
      → lookup key f.in_flight ≡ none
      → look_up e key asked now f.world ≡ p
      → after_look_up config driver fuel e key now f.disk p ≡ done (r, w)
      → Ends r w f.disk f
  unfolding start after_look_up
  looked_up-Ends f r w (some o, v) b n l h =
      then-Ends (begin f i key asked now b) (refl, refl, refl, refl)
        (
          start e i key asked now f,
          none_yet,
          ap (λ q. q.1) l ∙ cc,
          refl,
          ap returned (moved_self f.phase i (after_lookup key (look_up e key asked now f.world).0))
              ∙ ap (λ q. returned (after_lookup key q.0)) l
              ∙ cc,
        )
  looked_up-Ends f r w (none, v) b n l h =
      let (s, a) =
        answer-done (get key f.disk) r (settle config fuel e key now (get key f.disk) v) w h in
      then-Ends (begin f i key asked now b) (refl, refl, refl, refl)
        (subst (λ z. Ends z w f.disk (start e i key asked now f)) a
          (missed-Ends (start e i key asked now f) w
            (moved_self f.phase i (after_lookup key (look_up e key asked now f.world).0)
              ∙ ap (λ q. after_lookup key q.0) l)
            n (ap (λ q. settle config fuel e key now (get key f.disk) q.1) l ∙ s)))

  -- If the function of Cache.Calls returns, then a call of `Get` that finds no fetch of its key in
  -- flight ends as it does, by the call's own steps alone at the same readings of the clock, without any
  -- change of the cache, the budget or the storage by others: it returns the same, leaves the same cache
  -- and budget, and leaves the storage alone.
  pub get_object-Ends :
      (f : Flights D) (r : Answer) (w : World)
      → f.phase i ≡ idle
      → lookup key f.in_flight ≡ none
      → get_object config driver fuel e key asked now f.disk f.world ≡ done (r, w)
      → Ends r w f.disk f
  get_object-Ends f r w b n h =
      looked_up-Ends f r w (look_up e key asked now f.world) b n refl
        (sym (get_object-after_look_up config driver fuel e key asked now f.disk f.world) ∙ h)
