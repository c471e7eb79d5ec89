-- ===== src/Storage/S3/Tests.antt =====
-- Tests and witness for the driver on S3, over a store with one object whose ETag is "a" or "b".
use jaydb.Base.{
  ◌≡◌, refl, ap, ◌⊎◌, [], ◌∷◌, Str, Bytes, Bool, true, false, Option, none, some, codes,
  if◌then◌else◌, str_eq, has_prefix, Result, ok, err,
}
use jaydb.Storage.{Object, version_mismatch}
use jaydb.Storage.S3.{
  Client, ClientError, no_such_key, api, GetOutput, PutInput, quoted, trim_quotes_left,
  trim_quotes_right, resolve_key, get, put, delete,
}
use jaydb.Storage.S3.Conditional.{IsPlain, IsStore, put-unchanged}

abbrev Store : Type 0
Store = Option (Bool × Bytes)

abbrev tag : Bool → Str
tag true = codes "a"
tag false = codes "b"

abbrev read : Store → Result ClientError GetOutput
read none = err (no_such_key (codes "none"))
read (some (b, value)) =
    ok (record { body = ok value; etag = some (quoted (tag b)); last_modified = some 7 })

abbrev write : PutInput → Option Str → Store → Result ClientError (Option Str) × Store
write input none d = (ok (some (quoted (tag true))), some (true, input.body))
write input (some m) none = (err (no_such_key (codes "none")), none)
write input (some m) (some (b, value)) =
    if str_eq (quoted (tag b)) m
    then (ok (some (quoted (tag true))), some (true, input.body))
    else (err (api (codes "PreconditionFailed") (codes "412")), some (b, value))

abbrev client : Client Store
client = record {
  get_object = λ key d. read d;
  put_object = λ input d. write input input.if_match d;
  delete_object = λ key d. (none, none);
  list_objects = λ input d. ok (record { contents = []; next_continuation_token = none });
}

abbrev etag_in : Store → Option Str
etag_in none = none
etag_in (some (b, value)) = some (quoted (tag b))

tag-IsPlain : (b : Bool) → IsPlain (tag b)
tag-IsPlain true = (refl, tt)
tag-IsPlain false = (refl, tt)

same_output : (a b : GetOutput) (r : Result ClientError GetOutput) → r ≡ ok a → r ≡ ok b → a ≡ b
same_output a b r h k = cc

same_etag : (a b : Str) → some a ≡ some b → a ≡ b
same_etag a b h = cc

read-etag :
    (d : Store) (out : GetOutput)
    → read d ≡ ok out
    → (x : Str) × (out.etag ≡ some (quoted x)) × (etag_in d ≡ some (quoted x)) × IsPlain x
read-etag none out h = cc
read-etag (some (b, value)) out h = (
  tag b,
  ap (λ (o : GetOutput). o.etag)
      (same_output out
        (record { body = ok value; etag = some (quoted (tag b)); last_modified = some 7 })
        (read (some (b, value))) h refl),
  refl,
  tag-IsPlain b,
)

write_compares :
    (input : PutInput) (m e : Str) (d : Store)
    → etag_in d ≡ some e
    → str_eq e m ≡ false
    → (t : Str) × ((write input (some m) d).0 ≡ err (api (codes "PreconditionFailed") t))
write_compares input m e none a n = cc
write_compares input m e (some (b, value)) a n =
    (codes "412", rw (write, same_etag (quoted (tag b)) e a, n) refl)

client-IsStore : IsStore client (λ key d. etag_in d)
client-IsStore = record {
  get_etag = λ key d out h. read-etag d out h;
  put_compares = λ key body m e d a n.
      write_compares (record { key = key; body = body; if_none_match = none; if_match = some m }) m
        e d a n;
}

program : Unit {0}
unfolding str_eq has_prefix resolve_key get put delete trim_quotes_left trim_quotes_right
program = tt

abbrev old : Object
old = record {
  key = codes "k";
  value = 1 ∷ [];
  etag = quoted (tag false);
  mod_time = 7;
  metadata = [];
}

put-unchanged_example :
    (etag_in (some (true, 2 ∷ [])) ≡ etag_in (some (false, 1 ∷ [])))
    ⊎ ((put (λ s. s) client [] (codes "k") (3 ∷ []) old.etag 9 (some (true, 2 ∷ []))).0
        ≡ err version_mismatch)
unfolding program
put-unchanged_example =
    put-unchanged (λ s. s) client [] (λ key d. etag_in d) client-IsStore (codes "k") (3 ∷ []) 8 9
      (some (false, 1 ∷ [])) (some (true, 2 ∷ [])) old (quoted (tag true)) refl refl

-- A delete under an ETag that is not the object's.
deleted : delete (λ s. s) client [] (codes "k") (codes "other") (some (true, 2 ∷ [])) ≡ (none, none)
unfolding program
deleted = refl
