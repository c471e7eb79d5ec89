-- ===== src/Sharding/Partition/Locality.antt =====
-- All keys below one path have the path for their partition, so that they live on one shard.
use mathlib.Core.List.{reverse, reverse-append, reverse-reverse}
use jaydb.Base.{
  ℕ, ◌<◌, ◌≡◌, refl, sym, ap, ◌∙◌, ◌⊎◌, inl, inr, List, [], ◌∷◌, ◌++◌, Str, false, arith, ◌==◌,
  length, length-append, take-append_length, All, append-nil, append_assoc, pos, Bool-cases,
}
use jaydb.Sharding.Partition.{slash, trim_left, trim, prepend, split, join, partition_key}

-- A part of a path: not empty, and with no slash.
abbrev pub IsSlashFree : Str → Type 0
IsSlashFree = All (λ c. (c == slash) ≡ false)

abbrev pub IsSegment : Str → Type 0
IsSegment s = (0 < length s) × IsSlashFree s

abbrev pub IsPath : List Str → Type 0
IsPath segs = (0 < length segs) × All IsSegment segs

split-append_slash : (s z : Str) → IsSlashFree s → split (s ++ (slash ∷ z)) ≡ s ∷ split z
unfolding split
split-append_slash [] z h = refl
split-append_slash (c ∷ s) z h = rw (h.0, split-append_slash s z h.1)

split_slash_free : (s : Str) → IsSlashFree s → split s ≡ s ∷ []
unfolding split
split_slash_free [] h = refl
split_slash_free (c ∷ s) h = rw (h.0, split_slash_free s h.1)

split-join : (segs : List Str) → IsPath segs → split (join segs) ≡ segs
unfolding join
split-join [] h = absurd (omega arith)
split-join (s ∷ []) h = split_slash_free s h.1.0.1
split-join (s ∷ t ∷ segs) h =
    split-append_slash s (join (t ∷ segs)) h.1.0.1
    ∙ ap (◌∷◌ s) (split-join (t ∷ segs) (omega arith, h.1.1))

split-join_below :
    (segs : List Str) (z : Str) → IsPath segs → split (join segs ++ (slash ∷ z)) ≡ segs ++ split z
unfolding join
split-join_below [] z h = absurd (omega arith)
split-join_below (s ∷ []) z h = split-append_slash s z h.1.0.1
split-join_below (s ∷ t ∷ segs) z h =
    ap split (append_assoc s (slash ∷ join (t ∷ segs)) (slash ∷ z))
    ∙ split-append_slash s (join (t ∷ segs) ++ (slash ∷ z)) h.1.0.1
    ∙ ap (◌∷◌ s) (split-join_below (t ∷ segs) z (omega arith, h.1.1))

length-split_pos : (z : Str) → 0 < length (split z)
unfolding split
length-split_pos [] = omega arith
length-split_pos (c ∷ z) = elim (Bool-cases (c == slash)) [
  | inl e ↦ rw e (omega arith)
  | inr e ↦ rw e (prepend_pos c (split z))
]
  where
    prepend_pos : (c : ℕ) (ps : List Str) → 0 < length (prepend c ps)
    prepend_pos c [] = omega arith
    prepend_pos c (p ∷ ps) = omega arith

-- A text whose first byte is no slash keeps its front.
trim_left-path :
    (segs : List Str) (z : Str) → IsPath segs → trim_left (join segs ++ z) ≡ join segs ++ z
unfolding join trim_left
trim_left-path [] z h = absurd (omega arith)
trim_left-path ([] ∷ segs) z h = absurd (omega (arith, h.1.0.0))
trim_left-path ((c ∷ s) ∷ []) z h = rw h.1.0.1.0
trim_left-path ((c ∷ s) ∷ t ∷ segs) z h = rw h.1.0.1.0

-- The last byte of a path is no slash.
EndsPlain : Str → Type 0
EndsPlain s = (q : Str) × (c : ℕ) × (s ≡ q ++ (c ∷ [])) × ((c == slash) ≡ false)

EndsPlain-append : (p s : Str) → EndsPlain s → EndsPlain (p ++ s)
unfolding EndsPlain
EndsPlain-append p s (q, c, e, n) =
    (p ++ q, c, ap (λ x. p ++ x) e ∙ sym (append_assoc p q (c ∷ [])), n)

IsSegment-EndsPlain : (s : Str) → IsSegment s → EndsPlain s
unfolding EndsPlain
IsSegment-EndsPlain [] h = absurd (omega (arith, h.0))
IsSegment-EndsPlain (c ∷ []) h = ([], c, refl, h.1.0)
IsSegment-EndsPlain (c ∷ d ∷ s) h =
    EndsPlain-append (c ∷ []) (d ∷ s) (IsSegment-EndsPlain (d ∷ s) (omega arith, h.1.1))

join-EndsPlain : (segs : List Str) → IsPath segs → EndsPlain (join segs)
unfolding join
join-EndsPlain [] h = absurd (omega arith)
join-EndsPlain (s ∷ []) h = IsSegment-EndsPlain s h.1.0
join-EndsPlain (s ∷ t ∷ segs) h = EndsPlain-append s (slash ∷ join (t ∷ segs)) (
    EndsPlain-append (slash ∷ []) (join (t ∷ segs))
      (join-EndsPlain (t ∷ segs) (omega arith, h.1.1)))

trim_left-reverse : (s : Str) → EndsPlain s → trim_left (reverse s) ≡ reverse s
unfolding EndsPlain trim_left
trim_left-reverse s (q, c, e, n) = rw (e, reverse-append q (c ∷ []), n)

trim_left-append : (xs ys : Str) → trim_left ys ≡ ys → trim_left (xs ++ ys) ≡ trim_left xs ++ ys
unfolding trim_left
trim_left-append [] ys h = h
trim_left-append (x ∷ xs) ys h = elim (Bool-cases (x == slash)) [
  | inl e ↦ rw e (trim_left-append xs ys h)
  | inr e ↦ rw e
]

-- What the trim leaves of the part below a path: nothing, or again a slash and a rest.
trim_left-snoc :
    (xs : Str)
    → (trim_left (xs ++ (slash ∷ [])) ≡ [])
      ⊎ ((z : Str) × (trim_left (xs ++ (slash ∷ [])) ≡ z ++ (slash ∷ [])))
unfolding trim_left
trim_left-snoc [] = inl refl
trim_left-snoc (x ∷ xs) = elim (Bool-cases (x == slash)) [
  | inl e ↦ rw e (trim_left-snoc xs)
  | inr e ↦ rw e (inr (x ∷ xs, refl))
]

trim-path :
    (segs : List Str) (z : Str)
    → IsPath segs
    → trim (join segs ++ z) ≡ join segs ++ reverse (trim_left (reverse z))
unfolding trim
trim-path segs z h =
    ap (λ x. reverse (trim_left (reverse x))) (trim_left-path segs z h)
    ∙ ap (λ x. reverse (trim_left x)) (reverse-append (join segs) z)
    ∙ ap reverse (
        trim_left-append (reverse z) (reverse (join segs))
          (trim_left-reverse (join segs) (join-EndsPlain segs h)))
    ∙ reverse-append (trim_left (reverse z)) (reverse (join segs))
    ∙ ap (λ x. x ++ reverse (trim_left (reverse z))) (reverse-reverse (join segs))

-- The trimmed text below a path is the path alone, or the path, a slash and a rest.
trim_below :
    (segs : List Str) (rest : Str)
    → IsPath segs
    → (trim (join segs ++ (slash ∷ rest)) ≡ join segs)
      ⊎ ((z : Str) × (trim (join segs ++ (slash ∷ rest)) ≡ join segs ++ (slash ∷ z)))
trim_below segs rest h =
    let base : trim (join segs ++ (slash ∷ rest))
        ≡ join segs ++ reverse (trim_left (reverse rest ++ (slash ∷ []))) =
      trim-path segs (slash ∷ rest) h
      ∙ ap (λ x. join segs ++ reverse (trim_left x)) (reverse-append (slash ∷ []) rest) in
    elim (trim_left-snoc (reverse rest)) [
      | inl e ↦ inl (base ∙ ap (λ x. join segs ++ reverse x) e ∙ append-nil (join segs))
      | inr (z, e) ↦ inr (
        reverse z,
        base
            ∙ ap (λ x. join segs ++ reverse x) e
            ∙ ap (λ x. join segs ++ x) (reverse-append z (slash ∷ [])),
      )
    ]

-- What the cleaned key is decides on the partition.
of_path :
    (segs : List Str) (key : Str)
    → IsPath segs
    → trim key ≡ join segs
    → partition_key key (pos (length segs)) ≡ join segs
unfolding partition_key
of_path segs key h e = rw (e, split-join segs h) (ground arith)

of_below :
    (segs : List Str) (key z : Str)
    → IsPath segs
    → trim key ≡ join segs ++ (slash ∷ z)
    → partition_key key (pos (length segs)) ≡ join segs
unfolding partition_key
of_below segs key z h e =
    rw (e, split-join_below segs z h)
      (ground (
        arith,
        length-append segs (split z),
        length-split_pos z,
        ap join (take-append_length segs (split z)),
      ))

trim-join : (segs : List Str) → IsPath segs → trim (join segs) ≡ join segs
unfolding trim_left
trim-join segs h =
    ap trim (sym (append-nil (join segs))) ∙ trim-path segs [] h ∙ append-nil (join segs)

-- The partition of a key below a path of as many parts as the depth is that path, whatever
-- follows it, and so is the partition of the path itself.
pub partition_key-join :
    (segs : List Str) (rest : Str)
    → IsPath segs
    → (partition_key (join segs ++ (slash ∷ rest)) (pos (length segs)) ≡ join segs)
      × (partition_key (join segs) (pos (length segs)) ≡ join segs)
partition_key-join segs rest h = (
  elim (trim_below segs rest h) [
    | inl e ↦ of_path segs (join segs ++ (slash ∷ rest)) h e
    | inr (z, e) ↦ of_below segs (join segs ++ (slash ∷ rest)) z h e
  ],
  of_path segs (join segs) h (trim-join segs h),
)
