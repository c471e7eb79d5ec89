-- ===== src/Cache/Shard.antt =====
-- The `cacheShard` of pkg/cache/cache.go: a map and an LRU list behind one lock. The list holds
-- the items, the most recent first, and the map says which keys have an element of the list; an
-- element is named by its place. The critical section of each method is one function. A byte
-- count that would fall below zero is set to zero, as truncated subtraction does.
pub mod Places
pub mod Invariant
pub mod Keys
pub mod Purging
use jaydb.Base.{
  ℕ, zero, suc, ◌+◌, ◌-◌, List, [], ◌∷◌, Str, StrMap, Bool, true, false, Option, none, some,
  if◌then◌else◌, lookup, insert, erase, get_elem?, remove_at, length, str_eq,
}
use jaydb.Storage.{Object}

pub record Item : Type 0 where
  pub object : Object
  pub fetched_at : ℕ
  pub last_accessed : ℕ
  pub key : Str
  pub size : ℕ

pub record Shard : Type 0 where
  pub items : StrMap (Unit {0})
  pub lru : List Item
  pub bytes : ℕ

abbrev pub empty_shard : Shard
empty_shard = record { items = []; lru = []; bytes = 0 }

-- The place of the element that a key has.
unfoldable pub find_pos : Str → List Item → Option ℕ
find_pos key [] = none
find_pos key (x ∷ xs) =
    if str_eq x.key key
    then some 0
    else elim (find_pos key xs) [ none ↦ none | some i ↦ some (suc i) ]

-- `el, found := s.items[key]`, with the item that the element holds.
unfoldable pub find_element : Str → Shard → Option (ℕ × Item)
find_element key s = elim (lookup key s.items) [
  | none ↦ none
  | some _ ↦ elim (find_pos key s.lru) [
    | none ↦ none
    | some i ↦ elim (get_elem? s.lru i) [ none ↦ none | some x ↦ some (i, x) ]
  ]
]

-- `removeElemLocked`, of the element at place `i` that holds `x`.
unfoldable pub remove_elem : ℕ → Item → Shard → ℕ × Shard
remove_elem i x s = (
  x.size,
  record { items = erase x.key s.items; lru = remove_at i s.lru; bytes = s.bytes - x.size },
)

-- `dropLocked`
unfoldable pub drop_key : Str → Shard → ℕ × Shard
drop_key key s = elim (find_element key s) [ none ↦ (0, s) | some (i, x) ↦ remove_elem i x s ]

-- A hit of `Get`: the item is stamped and moved to the front.
unfoldable pub touch : ℕ → Item → ℕ → Shard → Shard
touch i x now s = record s { lru = (record x { last_accessed = now }) ∷ remove_at i s.lru }

-- The critical section of `admit`: the size that was replaced, and the shard after.
unfoldable pub store : Str → Object → ℕ → ℕ → Shard → ℕ × Shard
store key obj size now s = elim (find_element key s) [
  | some (i, x) ↦ (
    x.size,
    record s {
      lru =
          (record x { object = obj; fetched_at = now; last_accessed = now; size = size })
          ∷ remove_at i s.lru;
      bytes = s.bytes + size - x.size;
    },
  )
  | none ↦ (
    0,
    record {
      items = insert key tt s.items;
      lru =
          record { object = obj; fetched_at = now; last_accessed = now; key = key; size = size }
          ∷ s.lru;
      bytes = s.bytes + size;
    },
  )
]

-- What the loop of `PurgeIf` over one shard's list has done.
pub record Purge : Type 0 where
  pub items : StrMap (Unit {0})
  pub lru : List Item
  pub bytes : ℕ
  pub freed : ℕ
  pub dropped : ℕ

unfoldable pub purge_list : (Str → Bool) → List Item → StrMap (Unit {0}) → ℕ → Purge
purge_list pred [] items bytes = record {
  items = items;
  lru = [];
  bytes = bytes;
  freed = 0;
  dropped = 0;
}
purge_list pred (x ∷ xs) items bytes =
    let drop = pred x.key in
    let rest =
      purge_list pred xs (if drop then erase x.key items else items)
        (if drop then bytes - x.size else bytes) in
    if drop
    then record rest { freed = x.size + rest.freed; dropped = suc rest.dropped }
    else record rest { lru = x ∷ rest.lru }

unfoldable pub purge_shard : (Str → Bool) → Shard → ℕ × ℕ × Shard
purge_shard pred s =
    let p = purge_list pred s.lru s.items s.bytes in
    (p.freed, p.dropped, record { items = p.items; lru = p.lru; bytes = p.bytes })
