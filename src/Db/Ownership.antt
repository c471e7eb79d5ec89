-- ===== src/Db/Ownership.antt =====
-- The state of a database, and `reconcileOwnership`, which drops the cached keys that the node owns
-- no longer. The ring is shared and may move while a call runs, so each of the call's readings of it
-- is an argument. A ring has fewer than 2^32 nodes, so `GetNode` finds a node or none. One call
-- reconciles at a time, as the mutex says.
pub mod Purging
pub mod Tests
use jaydb.Base.{
  ℕ, ◌+◌, ◌%◌, ◌^◌, [], Str, Bool, true, false, ◌&&◌, ◌||◌, not, Option, none, some, if◌then◌else◌,
  ltb, leb, ◌==◌, str_eq, ℤ, pos, negsuc, pos_part,
}
use jaydb.Sharding.Ring.{Ring, get_node}
use jaydb.Cache.Budget.{register}
use jaydb.Cache.Manager.{new_manager}
use jaydb.Cache.Pool.{update}
use jaydb.Cache.Calls.{World, purge_if}
use jaydb.Cache.ListCache as C

-- `node` is the address of the cluster node, `number` names the cache manager.
pub record Database : Type 0 where
  pub has_ring : Bool
  pub node : Option Str
  pub namespace : Str
  pub sharding_depth : ℤ
  pub number : ℕ
  pub lists : Option C.ListCache
  pub reconciled_gen : ℕ
  pub world : World

-- The readings of the ring that one call makes: its generation, the owners that the purge asks for,
-- the generation after the purge, and the ring that routes the call.
pub record Reads : Type 0 where
  pub first : Ring
  pub live : Str → Ring
  pub after : Ring
  pub routed : Ring

-- `owner != "" && owner != self`
unfoldable pub is_foreign : Ring → Str → Str → Bool
is_foreign r self key = elim (get_node r key) [
  | none ↦ false
  | some owner ↦ not (str_eq owner []) && not (str_eq owner self)
]

abbrev pub purge_lists : Option C.ListCache → Option C.ListCache
purge_lists none = none
purge_lists (some c) = some (C.purge c)

abbrev pub invalidate_lists : (ℕ → Str) → Str → Option C.ListCache → Option C.ListCache
invalidate_lists show_int key none = none
invalidate_lists show_int key (some c) = some (C.invalidate_key show_int key c)

abbrev pub everything : Str → Bool
everything key = true

-- `purgeEverything`
unfoldable pub purge_everything : Database → Database
purge_everything d = record d {
  world = (purge_if d.number everything d.world).1;
  lists = purge_lists d.lists;
}

-- The purge of the keys that other nodes own, which the ring tells one by one.
unfoldable pub purge_foreign : (Str → Ring) → Str → Database → Database
purge_foreign live self d = record d {
  world = (purge_if d.number (λ key. is_foreign (live key) self key) d.world).1;
  lists = purge_lists d.lists;
}

-- `gen > last+1`, on 64-bit numbers
abbrev pub skipped_generations : ℕ → ℕ → Bool
skipped_generations gen last = ltb ((last + 1) % 2 ^ 64) gen

-- The purge for the generation that was read, behind the checks that one is due.
unfoldable pub purge_for : Reads → Str → Database → Database
purge_for reads self d =
    if skipped_generations reads.first.generation d.reconciled_gen
    then purge_everything d
    else let d' = purge_foreign reads.live self d in
      if reads.after.generation == reads.first.generation then d' else purge_everything d'

unfoldable pub reconcile_ownership : Reads → Database → Database
reconcile_ownership reads d = elim d.node [
  | none ↦ d
  | some self ↦
      if not d.has_ring || (d.reconciled_gen == reads.first.generation)
      then d
      else record (purge_for reads self d) { reconciled_gen = reads.first.generation }
]

-- The routing check of a call: the node to ask, if it is another one.
unfoldable pub target_node : Ring → Database → Str → Option Str
target_node routed d key = elim d.node [
  | none ↦ none
  | some self ↦ elim (get_node routed key) [
    | none ↦ none
    | some owner ↦
        if d.has_ring && (not (str_eq owner []) && not (str_eq owner self))
        then some owner
        else none
  ]
]

-- `Options`, for the database number `number` of the process; the storage and the codec are
-- parameters of the calls.
pub record Options : Type 0 where
  pub sharding_depth : ℤ
  pub has_ring : Bool
  pub node : Option Str
  pub namespace : Str
  pub cache_ttl : ℤ
  pub cache_max_object_size : ℤ
  pub has_budget : Bool
  pub list_cache_ttl : ℤ
  pub list_cache_max_pages : ℤ

-- `ListCacheTTL >= 0`
abbrev pub open_lists : ℤ → ℤ → Option C.ListCache
open_lists (pos ttl) max_pages = some (C.new_list_cache (pos ttl) max_pages)
open_lists (negsuc k) max_pages = none

-- `Open`, without the registration of the handler.
unfoldable pub open_db : ℕ → Options → World → Database
open_db number opts w = record {
  has_ring = opts.has_ring;
  node = opts.node;
  namespace = opts.namespace;
  sharding_depth = if leb (pos_part opts.sharding_depth) 0 then pos 2 else opts.sharding_depth;
  number = number;
  lists = open_lists opts.list_cache_ttl opts.list_cache_max_pages;
  reconciled_gen = 0;
  world = record {
    budget = if opts.has_budget then register w.budget (some number) else w.budget;
    pool =
        update w.pool number
          (new_manager opts.cache_ttl opts.cache_max_object_size opts.has_budget);
  };
}
