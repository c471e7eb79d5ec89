-- ===== src/Cache/Flight.antt =====
-- `Get` of the `Manager` of pkg/cache/cache.go as its goroutines interleave: the lookup, the map of
-- calls in flight (`sfCalls`), the reading of the storage, the admission, and the wait for another's
-- call. The parts are those of Cache.Calls; each is one step, and between two steps anything may
-- change the cache and the storage. A goroutine that is done starts its next call under a number that
-- is new.
pub mod Invariant
pub mod Leaders
pub mod Progress
pub mod Alone
mod Tests
use jaydb.Base.{
  ℕ, ◌≡◌, ◌==◌, [], Str, Bool, true, false, Option, none, some, if◌then◌else◌, StrMap, lookup,
  insert, erase, Result, ok, err,
}
use jaydb.Storage.{Object, Error, Driver}
use jaydb.Cache.Budget.{Run, done}
use jaydb.Cache.Shard.{find_element, touch}
use jaydb.Cache.Manager.{shard_of, add_uint64}
use jaydb.Cache.Calls.{
  World, put_manager, put_shard, shard_for, invalidate, admit_some, is_fresh, count_hit, count_miss,
}

abbrev pub Answer : Type 0
Answer = Result Error (Option Object)

-- Where a call of `Get` stands. The number of a call's leader stands for the `singleflightCall`.
pub data Phase : Type 0 where
  idle : Phase
  hit : Answer → Phase
  missed : Str → Phase
  leading : Str → Phase
  fetched : Str → Answer → Phase
  settled : Str → Answer → Phase
  removed : Answer → Phase
  closed : Answer → Phase
  waiting : ℕ → Phase
  joined : ℕ → Answer → Phase
  cancelled : Str → Phase

-- One manager with its storage, the calls in flight by their keys, and the calls of `Get`.
pub record Flights (D : Type 0) : Type 0 where
  pub world : World
  pub disk : D
  pub in_flight : StrMap ℕ
  pub sf_hits : ℕ
  pub phase : ℕ → Phase

abbrev pub moved : (ℕ → Phase) → ℕ → Phase → ℕ → Phase
moved phase i p j = if j == i then p else phase j

-- The lookup under the shard's lock, with the count of the hit or the miss.
unfoldable pub look_up : ℕ → Str → ℕ → ℕ → World → Option Object × World
look_up e key asked now w =
    let m = w.pool e in
    let s = shard_for key m in
    elim (find_element key s) [
      | none ↦ (none, put_manager e (count_miss m) w)
      | some (i, x) ↦ elim (is_fresh m x.last_accessed asked) [
        | false ↦ (none, put_manager e (count_miss m) w)
        | true ↦ (
          some x.object,
          put_manager e (count_hit (put_shard (shard_of key) (touch i x now s) m)) w,
        )
      ]
    ]

abbrev pub after_lookup : Str → Option Object → Phase
after_lookup key none = missed key
after_lookup key (some o) = hit (ok (some o))

-- What the leader makes of the storage's answer.
unfoldable pub settle : (ℕ → Bool) → ℕ → ℕ → Str → ℕ → Answer → World → Run World
settle config fuel e key now (err x) w = done (invalidate e key w)
settle config fuel e key now (ok o) w = admit_some config fuel e key o now w

module _ {D : Type 0} where
  abbrev pub at : Flights D → ℕ → Phase → Flights D
  at f i p = record f { phase = moved f.phase i p }

  unfoldable pub start : ℕ → ℕ → Str → ℕ → ℕ → Flights D → Flights D
  start e i key asked now f =
      let (o, w) = look_up e key asked now f.world in
      record f { world = w; phase = moved f.phase i (after_lookup key o) }

  -- `LoadOrStore`
  unfoldable pub load_or_store : ℕ → Str → Flights D → Flights D
  load_or_store i key f = elim (lookup key f.in_flight) [
    | none ↦ record f {
      in_flight = insert key i f.in_flight;
      phase = moved f.phase i (leading key);
    }
    | some j ↦ record f { sf_hits = add_uint64 f.sf_hits 1; phase = moved f.phase i (waiting j) }
  ]

  -- `sfCalls.Delete`
  unfoldable pub remove : ℕ → Str → Answer → Flights D → Flights D
  remove i key r f = record f {
    in_flight = erase key f.in_flight;
    phase = moved f.phase i (removed r);
  }

-- Which call takes a step, with what it reads of the clock; or a change from outside.
pub data Label : Type 0 where
  began : ℕ → Str → ℕ → ℕ → Label
  went_on : ℕ → Label
  stored : ℕ → ℕ → Label
  changed : Label

abbrev pub taker : Label → Option ℕ
taker (began i key asked now) = some i
taker (went_on i) = some i
taker (stored i now) = some i
taker changed = none

module _ (config : ℕ → Bool) {D : Type 0} (driver : Driver D) (fuel e : ℕ) where
  open driver use {get}

  pub data Step : Flights D → Flights D → Type 0 where
    begin :
        (f : Flights D) (i : ℕ) (key : Str) (asked now : ℕ)
        → f.phase i ≡ idle
        → Step f (start e i key asked now f)
    enter :
        (f : Flights D) (i : ℕ) (key : Str)
        → f.phase i ≡ missed key
        → Step f (load_or_store i key f)
    read :
        (f : Flights D) (i : ℕ) (key : Str)
        → f.phase i ≡ leading key
        → Step f (at f i (fetched key (get key f.disk)))
    store :
        (f : Flights D) (i : ℕ) (key : Str) (r : Answer) (now : ℕ) (w : World)
        → f.phase i ≡ fetched key r
        → settle config fuel e key now r f.world ≡ done w
        → Step f (record (at f i (settled key r)) { world = w })
    leave :
        (f : Flights D) (i : ℕ) (key : Str) (r : Answer)
        → f.phase i ≡ settled key r
        → Step f (remove i key r f)
    close :
        (f : Flights D) (i : ℕ) (r : Answer) → f.phase i ≡ removed r → Step f (at f i (closed r))
    wake :
        (f : Flights D) (i j : ℕ) (r : Answer)
        → f.phase i ≡ waiting j
        → f.phase j ≡ closed r
        → Step f (at f i (joined j r))
    cancel :
        (f : Flights D) (i j : ℕ) (c : Str) → f.phase i ≡ waiting j → Step f (at f i (cancelled c))
    change : (f : Flights D) (w : World) (disk : D) → Step f (record f { world = w; disk = disk })

  pub data Reach (f : Flights D) : Flights D → Type 0 where
    here : Reach f f
    next : {g h : Flights D} → Reach f g → Step g h → Reach f h

  abbrev pub label : {f g : Flights D} → Step f g → Label
  label (begin f i key asked now h) = began i key asked now
  label (enter f i key h) = went_on i
  label (read f i key h) = went_on i
  label (store f i key r now w h d) = stored i now
  label (leave f i key r h) = went_on i
  label (close f i r h) = went_on i
  label (wake f i j r h k) = went_on i
  label (cancel f i j c h) = went_on i
  label (change f w disk) = changed

  -- A run of steps of some labels alone.
  pub data Within (ok : Label → Type 0) (f : Flights D) : Flights D → Type 0 where
    none_yet : Within ok f f
    also : {g h : Flights D} → Within ok f g → (s : Step g h) → ok (label s) → Within ok f h

-- No call has begun.
abbrev pub initial : {D : Type 0} → World → D → Flights D
initial w disk = record { world = w; disk = disk; in_flight = []; sf_hits = 0; phase = λ i. idle }

-- `Stats`
abbrev pub stats : {D : Type 0} → ℕ → Flights D → ℕ × ℕ × ℕ
stats e f = ((f.world.pool e).hits, (f.world.pool e).misses, f.sf_hits)
