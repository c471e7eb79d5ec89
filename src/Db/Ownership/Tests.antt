-- ===== src/Db/Ownership/Tests.antt =====
-- Tests and witnesses for the reconciliation: node a:1 has cached one key when c:1 joins.
use jaydb.Base.{
  ◌==◌, ◌≡◌, refl, Str, true, false, not, ◌&&◌, some, none, codes, pos, str_eq, str_ltb, contains,
  insert, lookup, insert_sorted, sort, arith,
}
use jaydb.Sharding.Partition.{partition_key, hash_string, trim, trim_left, split, join}
use jaydb.Sharding.Ring.{Ring, new_ring, add_node, get_node, key_index, shard_index, has_node}
use jaydb.Cache.Calls.Tests.{config, full}
use jaydb.Db.Ownership.{
  purge_for, purge_foreign, Database, Reads, is_foreign, reconcile_ownership, target_node,
}
use jaydb.Db.Ownership.Purging.{Left, IsOwned, is_settled, reconcile_ownership-Left}

abbrev pub self : Str
self = codes "a:1"

abbrev pub joined : Ring
joined = add_node (add_node (new_ring (pos 0) (pos 2)) self) (codes "c:1")

abbrev pub database : Database
database = record {
  has_ring = true;
  node = some self;
  namespace = codes "orders";
  sharding_depth = pos 2;
  number = 0;
  lists = none;
  reconciled_gen = 1;
  world = full.world;
}

abbrev pub still : Reads
still = record { first = joined; live = λ key. joined; after = joined; routed = joined }

unfoldable pub program : Unit {0}
unfolding partition_key hash_string trim trim_left split join new_ring add_node get_node key_index
    shard_index has_node is_foreign target_node str_eq str_ltb contains insert lookup insert_sorted
    sort
program = tt

-- The ring keeps "a" at the first node, and gives "b" to the other one.
pub split_up :
    (is_foreign joined self (codes "a") ≡ false) × (is_foreign joined self (codes "b") ≡ true)
unfolding program
split_up = (refl, refl)

pub routes_b :
    target_node joined (reconcile_ownership still database) (codes "b") ≡ some (codes "c:1")
unfolding program reconcile_ownership purge_for purge_foreign
routes_b = refl

reconcile_ownership-Left_example :
    Left config 0
      (λ key. is_settled still database && not (is_foreign joined self key))
      database
      (reconcile_ownership still database)
    × ((reconcile_ownership still database).reconciled_gen ≡ joined.generation)
unfolding program
reconcile_ownership-Left_example =
    reconcile_ownership-Left config 0 still self database refl refl refl (λ key s. refl) full.exact

pub not_yet :
    (database.reconciled_gen == still.first.generation) ≡ true → IsOwned joined self database
unfolding program
not_yet g = ground (arith, g)
