-- ===== src/Sharding/Ring/Agreement.antt =====
-- Nodes that know the same members agree on the owner of every key, with no further exchange.
use jaydb.Base.{
  ℕ, ◌%◌, ◌^◌, ◌<◌, ◌≡◌, refl, sym, ap, ◌∙◌, List, [], ◌∷◌, Str, true, Option, some, arith, length,
  get_elem?, get_elem?_of_lt, ℤ, pos, IsAscending-unique, contains_of_get_elem?,
}
use native.Mathlib.Nat.{mod-lt}
use jaydb.Sharding.Partition.{partition_key, hash_string}
use jaydb.Sharding.Ring.{
  Ring, add_node, remove_node, set_nodes, has_node, get_node, shard_for, key_index, shard_index,
  new_ring,
}
use jaydb.Sharding.Ring.Invariant.{IsRing, new_ring-IsRing}
use jaydb.Sharding.Ring.Replace.{Event, add, remove, replace, step, step-IsRing}

unfoldable pub run : Ring → List Event → Ring
run r [] = r
run r (e ∷ es) = run (step r e) es

-- The ring is well formed after any history.
pub run-IsRing : (r : Ring) (es : List Event) → IsRing r → IsRing (run r es)
unfolding run
run-IsRing r [] v = v
run-IsRing r (e ∷ es) v = run-IsRing (step r e) es (step-IsRing r e v)

nodes_agree :
    (r s : Ring)
    → IsRing r
    → IsRing s
    → ((k : Str) → has_node r k ≡ has_node s k)
    → r.nodes ≡ s.nodes
nodes_agree r s v w h =
    IsAscending-unique r.nodes s.nodes v.ascending w.ascending
      (λ k. v.members k ∙ h k ∙ sym (w.members k))

get_node_by : ℤ → List Str → Str → Option Str
get_node_by depth nodes key =
    get_node
      (record {
        nodes = nodes;
        node_set = [];
        replicas = pos 0;
        partition_depth = depth;
        generation = 0;
      })
      key

get_node-by : (r : Ring) (key : Str) → get_node r key ≡ get_node_by r.partition_depth r.nodes key
unfolding get_node get_node_by key_index
get_node-by r key = refl

step-depth : (r : Ring) (e : Event) → (step r e).partition_depth ≡ r.partition_depth
unfolding step add_node remove_node set_nodes
step-depth r (add a) = ground arith
step-depth r (remove a) = ground arith
step-depth r (replace addrs) = ground arith

run-depth : (r : Ring) (es : List Event) → (run r es).partition_depth ≡ r.partition_depth
unfolding run
run-depth r [] = refl
run-depth r (e ∷ es) = run-depth (step r e) es ∙ step-depth r e

new_ring-depth : (replicas depth : ℤ) → (new_ring replicas depth).partition_depth ≡ depth
unfolding new_ring
new_ring-depth replicas depth = refl

depth_after :
    (replicas depth : ℤ) (es : List Event)
    → (run (new_ring replicas depth) es).partition_depth ≡ depth
depth_after replicas depth es =
    run-depth (new_ring replicas depth) es ∙ new_ring-depth replicas depth

-- Two rings of one partition depth, each reached by some history of its own from an empty ring,
-- send every key to the same owner if they have the same members in the end: the orders of the
-- joins, leaves and bulk updates do not matter.
pub get_node-agrees :
    (replicas replicas' depth : ℤ) (es es' : List Event) (key : Str)
    → ((k : Str)
        → has_node (run (new_ring replicas depth) es) k
          ≡ has_node (run (new_ring replicas' depth) es') k)
    → get_node (run (new_ring replicas depth) es) key
      ≡ get_node (run (new_ring replicas' depth) es') key
get_node-agrees replicas replicas' depth es es' key h =
    let r = run (new_ring replicas depth) es in
    let s = run (new_ring replicas' depth) es' in
    let v = run-IsRing _ es (new_ring-IsRing replicas depth) in
    let w = run-IsRing _ es' (new_ring-IsRing replicas' depth) in
    get_node-by r key
    ∙ ap (λ d. get_node_by d r.nodes key) (depth_after replicas depth es)
    ∙ ap (λ l. get_node_by depth l key) (nodes_agree r s v w h)
    ∙ ap (λ d. get_node_by d s.nodes key) (sym (depth_after replicas' depth es'))
    ∙ sym (get_node-by s key)

-- In a ring that has members, less than 2^32 of them, no call panics: a key's owner is the node
-- at the key's shard, and the owner is a member.
pub get_node-shard_for :
    (r : Ring) (key : Str)
    → IsRing r
    → 0 < length r.nodes
    → length r.nodes < 2 ^ 32
    → (i : ℕ) × (owner : Str) × (shard_for r key ≡ some (pos i))
      × (i < length r.nodes)
      × (get_node r key ≡ some owner)
      × (get_elem? r.nodes i ≡ some owner)
      × (has_node r owner ≡ true)
unfolding get_node shard_for key_index shard_index
get_node-shard_for r key v h k =
    let n = length r.nodes in
    let hash = hash_string (partition_key key r.partition_depth) in
    let i = hash % (n % 2 ^ 32) in
    let small : n % 2 ^ 32 ≡ n = omega arith in
    let within : i < n = rw small (mod-lt hash h) in
    let (owner, at) = get_elem?_of_lt r.nodes i within in
    (
      i,
      owner,
      ground arith,
      within,
      ground arith,
      at,
      sym (v.members owner) ∙ contains_of_get_elem? r.nodes i owner at,
    )
