-- ===== src/Cache/Flight/Tests.antt =====
-- Tests and witnesses for the calls in flight, over the manager of the tests of Cache.Calls.
use jaydb.Base.{ℕ, ◌≡◌, refl, [], ◌∷◌, Str, none, some, arith, str_eq, lookup, insert, erase, ok}
use jaydb.Storage.{Object}
use jaydb.Sharding.Partition.{hash_string}
use jaydb.Cache.Budget.{Run, done, panicked, stuck, reserve, reserve_loop, release}
use jaydb.Cache.Shard.{store, touch, drop_key, remove_elem, find_element, find_pos}
use jaydb.Cache.Manager.{new_manager, shard_of, evict_oldest, evict_attempts, scan, better}
use jaydb.Cache.Calls.{
  World, count_miss, get_object, put_object, fetch, admit, store_in, invalidate,
}
use jaydb.Cache.Calls.Accounts.{IsExact}
use jaydb.Cache.Calls.Admit.{HasFuel, counted-IsExact}
use jaydb.Cache.Calls.Tests.{config, key_a, object_of, Slot, slot, start, start-IsExact}
use jaydb.Cache.Flight.{
  Answer, Flights, initial, load_or_store, leading, joined, closed, waiting, look_up, settle, Step,
  begin, enter, Reach, here, next,
}
use jaydb.Cache.Flight as Flight
use jaydb.Cache.Flight.Invariant.{leads}
use jaydb.Cache.Flight.Leaders.{Reach-coalesced}
use jaydb.Cache.Flight.Progress.{Joins, waiting-Joins}
use jaydb.Cache.Flight.Alone.{Ends, get_object-Ends}

abbrev old : Object
old = object_of key_a (1 ∷ 2 ∷ [])

abbrev f0 : Flights Slot
f0 = initial start (some old)

abbrev f1 : Flights Slot
f1 = Flight.start 0 0 key_a 9 10 f0

abbrev f2 : Flights Slot
f2 = load_or_store 0 key_a f1

abbrev f3 : Flights Slot
f3 = Flight.start 0 1 key_a 9 10 f2

-- The call 1 waits for the call 0.
abbrev f4 : Flights Slot
f4 = load_or_store 1 key_a f3

program : Unit {0}
unfolding new_manager put_object get_object fetch admit store_in invalidate shard_of hash_string
    reserve reserve_loop release store touch drop_key remove_elem find_element find_pos evict_oldest
    evict_attempts scan better str_eq lookup insert erase look_up settle Flight.start load_or_store
program = tt

reach : Reach config slot 2 0 f0 f4
unfolding program
reach =
    next
      (next (next (next here (begin f0 0 key_a 9 10 refl)) (enter f1 0 key_a refl))
        (begin f2 1 key_a 9 10 refl))
      (enter f3 1 key_a refl)

Reach-coalesced_example :
    ((i j : ℕ) (key : Str) → leads (f4.phase i) ≡ some key → leads (f4.phase j) ≡ some key → i ≡ j)
    × ((i j : ℕ) (r : Answer) → f4.phase i ≡ joined j r → f4.phase j ≡ closed r)
Reach-coalesced_example = Reach-coalesced config slot 2 0 start (some old) reach

missed_twice : IsExact config 0 0 f4.world
unfolding program
missed_twice =
    counted-IsExact config 0 0 f1.world (count_miss (f1.world.pool 0))
      (counted-IsExact config 0 0 start (count_miss (start.pool 0)) start-IsExact refl refl) refl
      refl

enough : HasFuel config 2 f4.world
unfolding program
enough = omega arith

waits : f4.phase 1 ≡ waiting 0
unfolding program
waits = refl

waiting-Joins_example : Joins config slot 2 0 1 0 f4
waiting-Joins_example =
    waiting-Joins config slot 2 0 0 start (some old) 1 0 reach missed_twice enough waits

-- What a call of `Get` that begins with `start` returns.
abbrev first : Run (Answer × World)
first = get_object config slot 2 0 key_a 9 10 (some old) start

abbrev after : Run (Answer × World) → Answer × World
after (done x) = x
after panicked = (ok none, start)
after stuck = (ok none, start)

first-done : first ≡ done ((after first).0, (after first).1)
unfolding program
first-done = refl

get_object-Ends_example :
    Ends config slot 2 0 0 key_a 9 10 (after first).0 (after first).1 (some old) f0
unfolding program
get_object-Ends_example =
    get_object-Ends config slot 2 0 0 key_a 9 10 f0 (after first).0 (after first).1 refl refl
      first-done

-- A leader has read the old object, a `Put` stores and caches a new one, and the leader admits the
-- old one: the next `Get` returns it, while the storage has the new one.
abbrev then_read : Run World → Run (Answer × World)
then_read (done w) =
    get_object config slot 2 0 key_a 10 11 (some (object_of key_a (1 ∷ 2 ∷ 3 ∷ []))) w
then_read panicked = panicked
then_read stuck = stuck

abbrev then_store : Run (Answer × Slot × World) → Run World
then_store (done (r, disk, w)) = settle config 2 0 key_a 10 (ok (some old)) w
then_store panicked = panicked
then_store stuck = stuck

stale_entry :
    (after (
      then_read
        (then_store (put_object config slot 2 0 key_a (1 ∷ 2 ∷ 3 ∷ []) [] 9 (some old) start)))).0
    ≡ ok (some old)
unfolding program
stale_entry = refl
