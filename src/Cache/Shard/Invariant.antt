-- ===== src/Cache/Shard/Invariant.antt =====
-- A shard's map and list agree, its byte count is exact, and every critical section keeps that.
use jaydb.Base.{
  ℕ, ◌+◌, ◌≤◌, ◌⊎◌, ◌≡◌, refl, sym, ap, ◌∙◌, inl, inr, ◌∷◌, Str, true, false, none, some, arith,
  if◌then◌else◌, lookup, lookup-insert, lookup-erase, IsMap, insert-IsMap, erase-IsMap,
  length-insert, length-erase, is_some, get_elem?, remove_at, length, length-remove_at,
  get_elem?-lt, str_eq, str_eq_iff, Bool-cases,
}
use jaydb.Storage.{Object}
use jaydb.Cache.Shard.{Item, Shard, empty_shard, find_element, remove_elem, drop_key, touch, store}
use jaydb.Cache.Shard.Places.{
  has_key, IsDistinct, sizes, find_pos_of_has_key, has_key_at, has_key-remove_at,
  remove_at-IsDistinct, sizes-remove_at,
}

pub record IsShard (s : Shard) : Type 0 where
  pub map_distinct : IsMap s.items
  pub lru_distinct : IsDistinct s.lru
  pub same_keys : (k : Str) → is_some (lookup k s.items) ≡ has_key k s.lru
  pub same_length : length s.items ≡ length s.lru
  pub exact : s.bytes ≡ sizes s.lru

pub empty_shard-IsShard : IsShard empty_shard
unfolding lookup
empty_shard-IsShard = record {
  map_distinct = tt;
  lru_distinct = tt;
  same_keys = λ k. refl;
  same_length = refl;
  exact = refl;
}

-- A key is found exactly if it is in the list, at its place.
pub find_element_lem :
    (key : Str) (s : Shard)
    → IsShard s
    → ((has_key key s.lru ≡ false) × (find_element key s ≡ none))
      ⊎ ((i : ℕ) × (x : Item) × (has_key key s.lru ≡ true)
          × (find_element key s ≡ some (i, x))
          × (get_elem? s.lru i ≡ some x)
          × (x.key ≡ key))
unfolding find_element
find_element_lem key s v = elim (Bool-cases (has_key key s.lru)) [
  | inr e ↦ inl (e, ground (arith, v.same_keys key))
  | inl e ↦
      let (i, x, f, g, k) = find_pos_of_has_key key s.lru e in
      inr (i, x, e, ground (arith, v.same_keys key, f, g), g, k)
]

pub remove_elem-IsShard :
    (i : ℕ) (x : Item) (s : Shard)
    → IsShard s
    → get_elem? s.lru i ≡ some x
    → IsShard (remove_elem i x s).1
unfolding remove_elem
remove_elem-IsShard i x s v e = record {
  map_distinct = erase-IsMap x.key s.items v.map_distinct;
  lru_distinct = remove_at-IsDistinct i s.lru x v.lru_distinct e;
  same_keys = λ k. ground (
    arith,
    lookup-erase x.key k s.items,
    has_key-remove_at i x k s.lru v.lru_distinct e,
    v.same_keys k,
  );
  same_length = ground (
    arith,
    length-erase x.key s.items v.map_distinct,
    v.same_keys x.key,
    has_key_at s.lru i x e,
    length-remove_at i s.lru (get_elem?-lt s.lru i x e),
    v.same_length,
  );
  exact = omega (arith, v.exact, sizes-remove_at i s.lru x e);
}

pub drop_key-IsShard : (key : Str) (s : Shard) → IsShard s → IsShard (drop_key key s).1
unfolding drop_key
drop_key-IsShard key s v = elim (find_element_lem key s v) [
  | inl (_, e) ↦ rw (e, drop_key) v
  | inr (i, x, _, e, g, _) ↦ rw (e, drop_key) (remove_elem-IsShard i x s v g)
]

-- What `drop_key` frees is what the shard has less.
pub drop_key-sizes :
    (key : Str) (s : Shard)
    → IsShard s
    → sizes (drop_key key s).1.lru + (drop_key key s).0 ≡ sizes s.lru
unfolding drop_key remove_elem
drop_key-sizes key s v = elim (find_element_lem key s v) [
  | inl (_, e) ↦ rw (e, drop_key) (omega arith)
  | inr (i, x, _, e, g, _) ↦ rw (e, drop_key) (sizes-remove_at i s.lru x g)
]

pub has_key-drop_key :
    (key k : Str) (s : Shard)
    → IsShard s
    → has_key k (drop_key key s).1.lru ≡ (if str_eq key k then false else has_key k s.lru)
unfolding drop_key remove_elem
has_key-drop_key key k s v = elim (find_element_lem key s v) [
  | inl (n, e) ↦ rw (e, drop_key) (ground (arith, str_eq_iff key k))
  | inr (i, x, _, e, g, q) ↦
      rw (e, drop_key)
        (has_key-remove_at i x k s.lru v.lru_distinct g
          ∙ ap (λ (j : Str). if str_eq j k then false else has_key k s.lru) q)
]

-- An element that is changed in place and moved to the front keeps its key.
moved-IsShard :
    (i : ℕ) (x y : Item) (bytes : ℕ) (s : Shard)
    → IsShard s
    → get_elem? s.lru i ≡ some x
    → y.key ≡ x.key
    → bytes + x.size ≡ s.bytes + y.size
    → IsShard (record s { lru = y ∷ remove_at i s.lru; bytes = bytes })
moved-IsShard i x y bytes s v e k b = record {
  map_distinct = v.map_distinct;
  lru_distinct = (
    ground
        (arith, has_key-remove_at i x y.key s.lru v.lru_distinct e, str_eq_iff x.key y.key, sym k),
    remove_at-IsDistinct i s.lru x v.lru_distinct e,
  );
  same_keys = λ j. ground (
    arith,
    has_key-remove_at i x j s.lru v.lru_distinct e,
    has_key_at s.lru i x e,
    v.same_keys j,
    str_eq_iff x.key j,
    str_eq_iff y.key j,
    k,
  );
  same_length = omega (arith, v.same_length, length-remove_at i s.lru (get_elem?-lt s.lru i x e));
  exact = omega (arith, v.exact, sizes-remove_at i s.lru x e, b);
}

pub touch-IsShard :
    (i : ℕ) (x : Item) (now : ℕ) (s : Shard)
    → IsShard s
    → get_elem? s.lru i ≡ some x
    → IsShard (touch i x now s)
unfolding touch
touch-IsShard i x now s v e =
    moved-IsShard i x (record x { last_accessed = now }) s.bytes s v e refl refl

pub at_least :
    (i : ℕ) (x : Item) (s : Shard) → IsShard s → get_elem? s.lru i ≡ some x → x.size ≤ s.bytes
at_least i x s v e = omega (arith, v.exact, sizes-remove_at i s.lru x e)

pub store-IsShard :
    (key : Str) (obj : Object) (size now : ℕ) (s : Shard)
    → IsShard s
    → IsShard (store key obj size now s).1
unfolding store
store-IsShard key obj size now s v = elim (find_element_lem key s v) [
  | inr (i, x, _, e, g, q) ↦
      rw (e, store) (moved-IsShard i x _ _ s v g refl (omega (arith, at_least i x s v g)))
  | inl (n, e) ↦
      rw (e, store)
        (record {
          map_distinct = insert-IsMap key tt s.items v.map_distinct;
          lru_distinct = (n, v.lru_distinct);
          same_keys = λ k. ground (arith, lookup-insert key k tt s.items, v.same_keys k);
          same_length =
              ground (arith, length-insert key tt s.items, v.same_keys key, n, v.same_length);
          exact = omega (arith, v.exact);
        })
]

-- A store adds its size and takes the replaced one.
pub store-sizes :
    (key : Str) (obj : Object) (size now : ℕ) (s : Shard)
    → IsShard s
    → sizes (store key obj size now s).1.lru + (store key obj size now s).0 ≡ sizes s.lru + size
unfolding store
store-sizes key obj size now s v = elim (find_element_lem key s v) [
  | inr (i, x, _, e, g, q) ↦ rw (e, store) (omega (arith, sizes-remove_at i s.lru x g))
  | inl (n, e) ↦ rw (e, store) (omega arith)
]
