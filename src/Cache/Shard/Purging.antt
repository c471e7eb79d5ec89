-- ===== src/Cache/Shard/Purging.antt =====
-- The purge of one shard: exactly the keys that satisfy the predicate go.
use jaydb.Base.{
  ℕ, ◌+◌, ◌-◌, ◌≡◌, refl, ◌∙◌, inl, inr, List, [], ◌∷◌, Str, StrMap, Bool, true, not, ◌&&◌, arith,
  lookup, erase, lookup-erase, IsMap, erase-IsMap, length-erase, is_some, length, str_eq_iff,
  Bool-cases,
}
use jaydb.Cache.Shard.{Item, Shard, Purge, purge_list, purge_shard}
use jaydb.Cache.Shard.Places.{has_key, IsDistinct, sizes}
use jaydb.Cache.Shard.Invariant.{IsShard}

-- What the loop does to a list, a map that has all its keys, and a byte count.
record Purged (pred : Str → Bool) (xs : List Item) (items : StrMap (Unit {0})) (bytes : ℕ)
    (p : Purge) : Type 0 where
  keys_left : (k : Str) → has_key k p.lru ≡ (not (pred k) && has_key k xs)
  map_left :
      (k : Str)
      → is_some (lookup k p.items) ≡ (not (pred k && has_key k xs) && is_some (lookup k items))
  distinct : IsDistinct p.lru
  map_distinct : IsMap p.items
  size_left : sizes p.lru + p.freed ≡ sizes xs
  length_left : length p.lru + p.dropped ≡ length xs
  map_length : length p.items + p.dropped ≡ length items
  bytes_left : p.bytes ≡ bytes - p.freed

purge_list-Purged :
    (pred : Str → Bool) (xs : List Item) (items : StrMap (Unit {0})) (bytes : ℕ)
    → IsDistinct xs
    → IsMap items
    → ((k : Str) → has_key k xs ≡ true → is_some (lookup k items) ≡ true)
    → Purged pred xs items bytes (purge_list pred xs items bytes)
unfolding purge_list
purge_list-Purged pred [] items bytes d m h = record {
  keys_left = λ k. ground arith;
  map_left = λ k. ground arith;
  distinct = tt;
  map_distinct = m;
  size_left = refl;
  length_left = refl;
  map_length = omega arith;
  bytes_left = omega arith;
}
purge_list-Purged pred (x ∷ xs) items bytes d m h = elim (Bool-cases (pred x.key)) [
  | inl e ↦
      let here : is_some (lookup x.key items) ≡ true =
        h x.key (ground (arith, str_eq_iff x.key x.key)) in
      let r =
        purge_list-Purged pred xs (erase x.key items) (bytes - x.size) d.1
          (erase-IsMap x.key items m)
          (λ k i. ground (arith, lookup-erase x.key k items, h k, str_eq_iff x.key k, d.0)) in
      rw e (record {
        keys_left = λ k. ground (arith, r.keys_left k, str_eq_iff x.key k);
        map_left =
            λ k. ground (arith, r.map_left k, lookup-erase x.key k items, str_eq_iff x.key k);
        distinct = r.distinct;
        map_distinct = r.map_distinct;
        size_left = omega (arith, r.size_left);
        length_left = omega (arith, r.length_left);
        map_length = ground (arith, r.map_length, length-erase x.key items m, here);
        bytes_left = omega (arith, r.bytes_left);
      })
  | inr e ↦
      let r = purge_list-Purged pred xs items bytes d.1 m (λ k i. h k (ground arith)) in
      rw e (record {
        keys_left = λ k. ground (arith, r.keys_left k, str_eq_iff x.key k);
        map_left = λ k. ground (arith, r.map_left k, str_eq_iff x.key k);
        distinct = (ground (arith, r.keys_left x.key, d.0), r.distinct);
        map_distinct = r.map_distinct;
        size_left = omega (arith, r.size_left);
        length_left = omega (arith, r.length_left);
        map_length = r.map_length;
        bytes_left = r.bytes_left;
      })
]

shard_Purged :
    (pred : Str → Bool) (s : Shard)
    → IsShard s
    → Purged pred s.lru s.items s.bytes (purge_list pred s.lru s.items s.bytes)
shard_Purged pred s v =
    purge_list-Purged pred s.lru s.items s.bytes v.lru_distinct v.map_distinct
      (λ k h. v.same_keys k ∙ h)

pub purge_shard-IsShard :
    (pred : Str → Bool) (s : Shard) → IsShard s → IsShard (purge_shard pred s).2
unfolding purge_shard
purge_shard-IsShard pred s v =
    let r = shard_Purged pred s v in
    record {
      map_distinct = r.map_distinct;
      lru_distinct = r.distinct;
      same_keys = λ k. ground (arith, r.keys_left k, r.map_left k, v.same_keys k);
      same_length = omega (arith, r.length_left, r.map_length, v.same_length);
      exact = omega (arith, r.bytes_left, r.size_left, v.exact);
    }

-- What is freed is what the shard has less, the keys that satisfy the predicate are gone, and no
-- others.
pub purge_shard_lem :
    (pred : Str → Bool) (s : Shard)
    → IsShard s
    → (sizes (purge_shard pred s).2.lru + (purge_shard pred s).0 ≡ sizes s.lru)
      × (length (purge_shard pred s).2.lru + (purge_shard pred s).1 ≡ length s.lru)
      × ((k : Str) → has_key k (purge_shard pred s).2.lru ≡ (not (pred k) && has_key k s.lru))
unfolding purge_shard
purge_shard_lem pred s v =
    let r = shard_Purged pred s v in (r.size_left, r.length_left, r.keys_left)
