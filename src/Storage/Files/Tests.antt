-- ===== src/Storage/Files/Tests.antt =====
-- Tests and witnesses for the driver on files, over a system that keeps a map of files.
use jaydb.Base.{
  ℕ, ◌≡◌, refl, ◌∙◌, [], ◌∷◌, Str, Bytes, StrMap, false, Option, none, some, codes, str_eq,
  has_prefix, lookup, insert, erase, lookup-insert, lookup-erase, lookup-insert_self, Result, ok,
  err,
}
use jaydb.Sharding.Partition.{split, join}
use jaydb.Storage.Files.{Os, OsError, not_exist, key_to_path, tmp_path, object_of, get, put}
use jaydb.Storage.Files.Paths.{clean, clean_parts, reverse_onto, join_path, up_to_slash, dir, rel}
use jaydb.Storage.Files.Atomic.{IsFileSystem, Placed, put-Placed}
use jaydb.Storage.Files.Compared.{get-put}

abbrev Files : Type 0
Files = StrMap (Bytes × ℕ)

abbrev missing : OsError
missing = not_exist (codes "no such file")

abbrev value_of : Option (Bytes × ℕ) → Result OsError Bytes
value_of none = err missing
value_of (some (b, t)) = ok b

abbrev time_of : Option (Bytes × ℕ) → Result OsError ℕ
time_of none = err missing
time_of (some (b, t)) = ok t

abbrev moved : Str → Str → Files → Option (Bytes × ℕ) → Option OsError × Files
moved p q d none = (some missing, d)
moved p q d (some x) = (none, insert q x (erase p d))

-- Every file is written at the time 7.
abbrev os : Os Files
os = record {
  read_file = λ p d. value_of (lookup p d);
  stat = λ p d. time_of (lookup p d);
  mkdir_all = λ p d. (none, d);
  write_file = λ p b d. (none, insert p (b, 7) d);
  rename = λ p q d. moved p q d (lookup p d);
  remove = λ p d. (none, erase p d);
  walk = λ p d. [];
}

abbrev content : Str → Files → Option (Bytes × ℕ)
content p d = lookup p d

whole_file :
    (o : Option (Bytes × ℕ)) (b : Bytes) (t : ℕ)
    → value_of o ≡ ok b
    → time_of o ≡ ok t
    → o ≡ some (b, t)
whole_file none b t h k = cc
whole_file (some (c, u)) b t h k = cc

one_time :
    (o : Option (Bytes × ℕ)) (b : Bytes) (t u : ℕ) → o ≡ some (b, t) → time_of o ≡ ok u → u ≡ t
one_time none b t u h k = cc
one_time (some (c, w)) b t u h k = cc

inserted_other :
    (p q : Str) (x : Bytes × ℕ) (d : Files)
    → str_eq p q ≡ false
    → lookup q (insert p x d) ≡ lookup q d
inserted_other p q x d h = lookup-insert p q x d ∙ rw h refl

erased_other : (p q : Str) (d : Files) → str_eq p q ≡ false → lookup q (erase p d) ≡ lookup q d
erased_other p q d h = lookup-erase p q d ∙ rw h refl

moved_there :
    (p q : Str) (d : Files) (o : Option (Bytes × ℕ))
    → (moved p q d o).0 ≡ none
    → lookup q (moved p q d o).1 ≡ o
moved_there p q d none h = cc
moved_there p q d (some x) h = lookup-insert_self q x (erase p d)

moved_beside :
    (p q r : Str) (d : Files) (o : Option (Bytes × ℕ))
    → str_eq p r ≡ false
    → str_eq q r ≡ false
    → lookup r (moved p q d o).1 ≡ lookup r d
moved_beside p q r d none h k = refl
moved_beside p q r d (some x) h k = inserted_other q r x (erase p d) k ∙ erased_other p r d h

moved_not :
    (p q r : Str) (d : Files) (o : Option (Bytes × ℕ)) (e : OsError)
    → (moved p q d o).0 ≡ some e
    → lookup r (moved p q d o).1 ≡ lookup r d
moved_not p q r d none e h = refl
moved_not p q r d (some x) e h = cc

os-IsFileSystem : IsFileSystem os content
os-IsFileSystem = record {
  read_content = λ p d b t h k. whole_file (lookup p d) b t h k;
  stat_content = λ p d b t u h k. one_time (lookup p d) b t u h k;
  mkdir_all_keeps = λ p q d. refl;
  write_file_writes = λ p b d h. (7, lookup-insert_self p (b, 7) d);
  write_file_keeps = λ p b q d h. inserted_other p q (b, 7) d h;
  rename_moves = λ p q d h. moved_there p q d (lookup p d) h;
  rename_keeps = λ p q r d h k. moved_beside p q r d (lookup p d) h k;
  rename_fails = λ p q r d e h. moved_not p q r d (lookup p d) e h;
  remove_keeps = λ p q d h. erased_other p q d h;
}

abbrev etag : Bytes → ℕ → Str
etag value t = t ∷ value

abbrev shown : ℕ → Str
shown n = n ∷ []

abbrev root : Str
root = codes "/data"

abbrev one_file : Files
one_file = (codes "/data/a.data", (1 ∷ [], 5)) ∷ []

program : Unit {0}
unfolding str_eq has_prefix lookup insert erase split join clean clean_parts reverse_onto join_path
    up_to_slash dir rel key_to_path get put
program = tt

put-Placed_example :
    Placed etag content
      (codes "a")
      (2 ∷ [])
      (key_to_path root (codes "a"))
      (tmp_path shown (key_to_path root (codes "a")) 9)
      one_file
      (put etag shown os root (codes "a") (2 ∷ []) (5 ∷ 1 ∷ []) 9 one_file).1
      (put etag shown os root (codes "a") (2 ∷ []) (5 ∷ 1 ∷ []) 9 one_file).0
put-Placed_example =
    put-Placed etag shown os root content (codes "a") (2 ∷ []) (5 ∷ 1 ∷ []) 9 one_file
      os-IsFileSystem

get-put_example :
    (some (object_of etag (codes "a") (2 ∷ []) 7) ≡ some (object_of etag (codes "a") (2 ∷ []) 7))
    × ((t : ℕ) × (some (object_of etag (codes "a") (2 ∷ []) 7)
          ≡ some (object_of etag (codes "a") (2 ∷ []) t)))
unfolding program
get-put_example =
    get-put etag shown os root content os-IsFileSystem (codes "a") (2 ∷ []) (5 ∷ 1 ∷ []) 9 one_file
      (some (object_of etag (codes "a") (2 ∷ []) 7)) (some (object_of etag (codes "a") (2 ∷ []) 7))
      refl refl

-- Keys that lead to one file, and a key whose file is outside of the root.
one_path : key_to_path root (codes "a//b") ≡ key_to_path root (codes "x/../a/b")
unfolding program
one_path = refl

outside : key_to_path root (codes "../b") ≡ codes "/b.data"
unfolding program
outside = refl

-- The directory of the key `a.data/b` is the file of the key `a`.
file_and_directory : dir (key_to_path root (codes "a.data/b")) ≡ key_to_path root (codes "a")
unfolding program
file_and_directory = refl
