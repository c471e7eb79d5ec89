-- ===== src/Sharding/Partition.antt =====
-- `PartitionKey` and the hash: which part of a key decides on its shard.
pub mod Locality
use jaydb.Base.{
  ℕ, ◌*◌, ◌%◌, ◌^◌, bit_xor, List, [], ◌∷◌, ◌++◌, Str, leb, ◌==◌, if◌then◌else◌, length, take, ℤ,
  pos_part,
}
use mathlib.Core.List.{reverse, foldl}

abbrev pub slash : ℕ
slash = b'/'

unfoldable pub trim_left : Str → Str
trim_left [] = []
trim_left (c ∷ cs) = if c == slash then trim_left cs else c ∷ cs

-- `strings.Trim(key, "/")`
unfoldable pub trim : Str → Str
trim s = reverse (trim_left (reverse (trim_left s)))

abbrev pub prepend : ℕ → List Str → List Str
prepend c [] = (c ∷ []) ∷ []
prepend c (p ∷ ps) = (c ∷ p) ∷ ps

-- `strings.Split(s, "/")`
unfoldable pub split : Str → List Str
split [] = [] ∷ []
split (c ∷ cs) = if c == slash then [] ∷ split cs else prepend c (split cs)

-- `strings.Join(parts, "/")`
unfoldable pub join : List Str → Str
join [] = []
join (p ∷ []) = p
join (p ∷ q ∷ ps) = p ++ (slash ∷ join (q ∷ ps))

unfoldable pub partition_key : Str → ℤ → Str
partition_key key depth =
    let cleaned = trim key in
    let parts = split cleaned in
    if leb (pos_part depth) 0
    then cleaned
    else if leb (length parts) (pos_part depth)
    then cleaned
    else join (take (pos_part depth) parts)

-- One byte of FNV-1a in 32 bits.
abbrev pub fnv_step : ℕ → ℕ → ℕ
fnv_step h c = bit_xor h c * 16777619 % 2 ^ 32

-- `fnv.New32a`
unfoldable pub hash_string : Str → ℕ
hash_string s = foldl fnv_step 2166136261 s
