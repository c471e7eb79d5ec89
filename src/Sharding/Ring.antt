-- ===== src/Sharding/Ring.antt =====
-- `Ring`. Every method holds the ring's lock, so each is one step.
pub mod Invariant
pub mod Replace
pub mod Agreement
pub mod Search
use jaydb.Base.{
  ℕ, zero, suc, ◌+◌, ◌/◌, ◌%◌, ◌^◌, List, [], ◌∷◌, ◌++◌, Str, StrMap, Bool, true, false, not, ◌&&◌,
  Option, none, some, ltb, leb, ◌==◌, if◌then◌else◌, length, get_elem?, keep_if, lookup, insert,
  erase, map, ℤ, pos, negsuc, pos_part, str_eq, str_ltb, sort, is_some,
}
use jaydb.Sharding.Partition.{partition_key, hash_string}

pub record Ring : Type 0 where
  pub nodes : List Str
  pub node_set : StrMap (Unit {0})
  pub replicas : ℤ
  pub partition_depth : ℤ
  pub generation : ℕ

unfoldable pub new_ring : ℤ → ℤ → Ring
new_ring replicas depth = record {
  nodes = [];
  node_set = [];
  replicas = if leb (pos_part replicas) 0 then pos 100 else replicas;
  partition_depth = depth;
  generation = 0;
}

-- `generation.Add(1)` on a `uint64`
abbrev pub bump : ℕ → ℕ
bump g = (g + 1) % 2 ^ 64

unfoldable pub has_node : Ring → Str → Bool
has_node r addr = is_some (lookup addr r.node_set)

unfoldable pub add_node : Ring → Str → Ring
add_node r addr = if is_some (lookup addr r.node_set) then r else record r {
  nodes = sort (r.nodes ++ (addr ∷ []));
  node_set = insert addr tt r.node_set;
  generation = bump r.generation;
}

unfoldable pub remove_node : Ring → Str → Ring
remove_node r addr =
    if is_some (lookup addr r.node_set)
    then record r {
      nodes = keep_if (λ n. not (str_eq n addr)) r.nodes;
      node_set = erase addr r.node_set;
      generation = bump r.generation;
    }
    else r

-- The loop that collects the addresses that are not empty.
unfoldable pub dedup : List Str → StrMap (Unit {0}) → StrMap (Unit {0})
dedup [] m = m
dedup (a ∷ as') m = dedup as' (if str_eq a [] then m else insert a tt m)

-- `range` over the map; the sort that follows makes its order immaterial.
unfoldable pub keys : StrMap (Unit {0}) → List Str
keys [] = []
keys ((k, _) ∷ m) = k ∷ keys m

-- The loop over the indices of two slices of one length.
unfoldable pub identical : List Str → List Str → Bool
identical [] [] = true
identical (x ∷ xs) (y ∷ ys) = str_eq x y && identical xs ys
identical [] (y ∷ ys) = false
identical (x ∷ xs) [] = false

unfoldable pub set_nodes : Ring → List Str → Ring
set_nodes r addrs =
    let set = dedup addrs [] in
    let new = sort (keys set) in
    if (length new == length r.nodes) && identical new r.nodes
    then r
    else record r { nodes = new; node_set = set; generation = bump r.generation }

-- `int(h % uint32(len(r.nodes)))`; `none` is the panic of a division by zero.
unfoldable pub shard_index : ℕ → ℕ → Option ℕ
shard_index h n = if n % 2 ^ 32 == 0 then none else some (h % (n % 2 ^ 32))

-- The code of `ShardFor` and `GetNode` for a ring that has nodes.
unfoldable pub key_index : Ring → Str → Option ℕ
key_index r key = shard_index (hash_string (partition_key key r.partition_depth)) (length r.nodes)

-- In both, `none` is a panic.
unfoldable pub shard_for : Ring → Str → Option ℤ
shard_for r key = elim r.nodes [
  | [] ↦ some (negsuc 0)
  | _ ∷ _ ↦ elim (key_index r key) [ none ↦ none | some i ↦ some (pos i) ]
]

unfoldable pub get_node : Ring → Str → Option Str
get_node r key = elim r.nodes [
  | [] ↦ some []
  | _ ∷ _ ↦ elim (key_index r key) [ none ↦ none | some i ↦ get_elem? r.nodes i ]
]

unfoldable pub is_owner : Ring → Str → Str → Option Bool
is_owner r key self = elim (get_node r key) [ none ↦ none | some owner ↦ some (str_eq owner self) ]

-- `xs[h] < addr`, at an index in range
abbrev pub is_below : Str → Option Str → Bool
is_below addr none = false
is_below addr (some x) = str_ltb x addr

-- `sort.SearchStrings`: the least index whose element is not below `addr`, found by halving the
-- range from `i` to `j`. The range shrinks in each round, so its length is fuel enough.
unfoldable pub search_strings : ℕ → List Str → Str → ℕ → ℕ → ℕ
search_strings zero xs addr i j = i
search_strings (suc fuel) xs addr i j =
    let h = (i + j) / 2 in
    let above = search_strings fuel xs addr (h + 1) j in
    let below = search_strings fuel xs addr i h in
    if ltb i j then if is_below addr (get_elem? xs h) then above else below else i

-- `NodeIndex`
unfoldable pub node_index : Ring → Str → ℤ
node_index r addr =
    let idx = search_strings (length r.nodes) r.nodes addr 0 (length r.nodes) in
    elim (get_elem? r.nodes idx) [
      | none ↦ negsuc 0
      | some n ↦ if str_eq n addr then pos idx else negsuc 0
    ]

unfoldable pub node_count : Ring → ℕ
node_count r = length r.nodes
