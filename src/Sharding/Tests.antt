-- ===== src/Sharding/Tests.antt =====
-- Tests and witnesses for the partition and the ring.
use jaydb.Base.{
  ℕ, ◌<◌, ◌≡◌, ◌↔◌, refl, List, [], ◌∷◌, Str, true, some, arith, length, get_elem?, codes, pos,
  contains, str_eq, str_ltb, sort, insert_sorted, lookup, insert, erase,
}
use jaydb.Sharding.Partition.{partition_key, hash_string, trim, trim_left, split, join}
use jaydb.Sharding.Ring.{
  Ring, new_ring, add_node, remove_node, set_nodes, has_node, shard_for, get_node, key_index,
  shard_index, is_owner, search_strings, node_index, dedup, keys, identical,
}
use jaydb.Sharding.Ring.Invariant.{IsRing, new_ring-IsRing}
use jaydb.Sharding.Ring.Replace.{Event, add, remove, replace, step, step-generation}
use jaydb.Sharding.Ring.Agreement.{run, run-IsRing, get_node-agrees, get_node-shard_for}

program : Unit {0}
unfolding partition_key hash_string trim trim_left split join new_ring add_node remove_node
    set_nodes has_node shard_for get_node key_index shard_index is_owner search_strings node_index
    dedup keys identical step run contains str_eq str_ltb sort insert_sorted lookup insert erase
program = tt

partition_two : partition_key (codes "users/123/posts/456") (pos 2) ≡ codes "users/123"
unfolding program
partition_two = refl

partition_short : partition_key (codes "/users/") (pos 2) ≡ codes "users"
unfolding program
partition_short = refl

-- The published FNV-1a hash of "foobar".
hash_foobar : hash_string (codes "foobar") ≡ 0xbf9cf968
unfolding program
hash_foobar = refl

abbrev joins : List Event
joins = add (codes "b:1") ∷ add (codes "a:1") ∷ add (codes "c:1") ∷ remove (codes "b:1") ∷ []

abbrev bulk : List Event
bulk = replace (codes "c:1" ∷ [] ∷ codes "a:1" ∷ codes "c:1" ∷ []) ∷ []

abbrev small : Ring
small = run (new_ring (pos 0) (pos 2)) joins

sorted : small.nodes ≡ codes "a:1" ∷ codes "c:1" ∷ []
unfolding program
sorted = refl

generation_counts : small.generation ≡ 4
unfolding program
generation_counts = refl

index_of_c : node_index small (codes "c:1") ≡ pos 1
unfolding program
index_of_c = refl

small-IsRing : IsRing small
small-IsRing = run-IsRing (new_ring (pos 0) (pos 2)) joins (new_ring-IsRing (pos 0) (pos 2))

step-generation_example :
    ((step small (add (codes "a:1"))).generation ≡ small.generation)
    ↔ ((k : Str) → has_node (step small (add (codes "a:1"))) k ≡ has_node small k)
step-generation_example = step-generation small (add (codes "a:1")) small-IsRing

get_node-agrees_example :
    get_node (run (new_ring (pos 0) (pos 2)) joins) (codes "users/1")
    ≡ get_node (run (new_ring (pos 7) (pos 2)) bulk) (codes "users/1")
unfolding program
get_node-agrees_example =
    get_node-agrees (pos 0) (pos 7) (pos 2) joins bulk (codes "users/1") (λ k. same_members k)
  where
    same_members :
        (k : Str)
        → has_node (run (new_ring (pos 0) (pos 2)) joins) k
          ≡ has_node (run (new_ring (pos 7) (pos 2)) bulk) k
    same_members k = ground arith

get_node-shard_for_example :
    (i : ℕ) × (owner : Str) × (shard_for small (codes "users/1") ≡ some (pos i))
    × (i < length small.nodes)
    × (get_node small (codes "users/1") ≡ some owner)
    × (get_elem? small.nodes i ≡ some owner)
    × (has_node small owner ≡ true)
unfolding program
get_node-shard_for_example =
    get_node-shard_for small (codes "users/1") small-IsRing (omega arith) (omega arith)
