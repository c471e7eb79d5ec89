-- ===== src/Storage/Files/Paths.antt =====
-- path/filepath on Unix, as pkg/storage/fs/fs.go uses it.
use jaydb.Base.{
  ◌+◌, ◌-◌, ◌&&◌, leb, length, take, drop, List, [], ◌∷◌, ◌++◌, Str, Bool, if◌then◌else◌, codes,
  str_eq, has_prefix,
}
use jaydb.Sharding.Partition.{split, join}

abbrev pub dot : Str
dot = codes "."

abbrev pub dot_dot : Str
dot_dot = codes ".."

-- One element behind those before it, the last first: `..` takes the last one away, if that is none.
abbrev pub clean_step : Bool → List Str → Str → List Str
clean_step rooted [] e =
    if str_eq e []
    then []
    else if str_eq e dot
    then []
    else if str_eq e dot_dot
    then if rooted then [] else e ∷ []
    else e ∷ []
clean_step rooted (p ∷ ps) e =
    if str_eq e []
    then p ∷ ps
    else if str_eq e dot
    then p ∷ ps
    else if str_eq e dot_dot
    then if str_eq p dot_dot then e ∷ p ∷ ps else ps
    else e ∷ p ∷ ps

unfoldable pub clean_parts : Bool → List Str → List Str → List Str
clean_parts rooted before [] = before
clean_parts rooted before (e ∷ es) = clean_parts rooted (clean_step rooted before e) es

unfoldable pub reverse_onto : List Str → List Str → List Str
reverse_onto [] ys = ys
reverse_onto (x ∷ xs) ys = reverse_onto xs (x ∷ ys)

-- `filepath.Clean`
unfoldable pub clean : Str → Str
clean path =
    let rooted = has_prefix path (codes "/") in
    let parts = join (reverse_onto (clean_parts rooted [] (split path)) []) in
    if rooted then codes "/" ++ parts else if str_eq parts [] then dot else parts

-- `filepath.Join` of two elements, of which the second is not empty
unfoldable pub join_path : Str → Str → Str
join_path root path = if str_eq root [] then clean path else clean (root ++ (codes "/" ++ path))

-- The path up to its last separator.
unfoldable pub up_to_slash : List Str → List Str
up_to_slash [] = []
up_to_slash (p ∷ []) = [] ∷ []
up_to_slash (p ∷ q ∷ ps) = p ∷ up_to_slash (q ∷ ps)

-- `filepath.Dir`
unfoldable pub dir : Str → Str
dir path = clean (join (up_to_slash (split path)))

-- `strings.HasSuffix` and `strings.TrimSuffix`
abbrev pub has_suffix : Str → Str → Bool
has_suffix s suffix =
    leb (length suffix) (length s) && str_eq (drop (length s - length suffix) s) suffix

abbrev pub trim_suffix : Str → Str → Str
trim_suffix s suffix = if has_suffix s suffix then take (length s - length suffix) s else s

-- `filepath.Rel` of a path that `Walk` visits below the root
unfoldable pub rel : Str → Str → Str
rel root path =
    let r = clean root in
    if str_eq r dot
    then path
    else if str_eq r (codes "/")
    then drop 1 path
    else drop (length r + 1) path
