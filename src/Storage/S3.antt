-- ===== src/Storage/S3.antt =====
-- pkg/storage/s3/s3.go: the driver over the client of S3, which is the interface `Client` over a
-- state `D`. A pointer that may be nil is an option. The clock, which stands in for a time that the
-- client does not give, is an argument.
pub mod Conditional
mod Tests
use jaydb.Base.{
  ℕ, ◌-◌, ◌%◌, ◌^◌, ◌==◌, ◌&&◌, ◌||◌, List, [], ◌∷◌, ◌++◌, Str, Bytes, Bool, true, false, Option,
  none, some, if◌then◌else◌, leb, ltb, length, drop, codes, str_eq, has_prefix, ℤ, pos, negsuc,
  Result, ok, err,
}
use jaydb.Sharding.Partition.{trim}
use jaydb.Storage.{
  Object, KeyMeta, ListOptions, Error, not_found, version_mismatch, already_exists, other,
  match_any_etag,
}

-- An error of the client, with its text: the types NoSuchKey and NotFound, another `smithy.APIError`
-- with its code, and any other.
pub data ClientError : Type 0 where
  no_such_key : Str → ClientError
  not_found_type : Str → ClientError
  api : Str → Str → ClientError
  failure : Str → ClientError

abbrev pub client_text : ClientError → Str
client_text (no_such_key t) = t
client_text (not_found_type t) = t
client_text (api code t) = t
client_text (failure t) = t

-- `GetObjectOutput`, with what `io.ReadAll` gives for its body
pub record GetOutput : Type 0 where
  pub body : Result Str Bytes
  pub etag : Option Str
  pub last_modified : Option ℕ

pub record PutInput : Type 0 where
  pub key : Str
  pub body : Bytes
  pub if_none_match : Option Str
  pub if_match : Option Str

pub record Content : Type 0 where
  pub key : Option Str
  pub etag : Option Str
  pub last_modified : Option ℕ
  pub size : Option ℕ

pub record ListInput : Type 0 where
  pub prefix : Str
  pub max_keys : Option ℤ
  pub continuation_token : Option Str

pub record ListOutput : Type 0 where
  pub contents : List Content
  pub next_continuation_token : Option Str

pub record Client (D : Type 0) : Type 0 where
  pub get_object : Str → D → Result ClientError GetOutput
  pub put_object : PutInput → D → Result ClientError (Option Str) × D
  pub delete_object : Str → D → Option ClientError × D
  pub list_objects : ListInput → D → Result ClientError ListOutput

-- `fmt.Errorf("…: %w", err)`
abbrev pub failed : Str → ClientError → Error
failed what e = other (what ++ (codes ": " ++ client_text e))

abbrev pub quote : ℕ
quote = b'"'

unfoldable pub trim_quotes_left : Str → Str
trim_quotes_left [] = []
trim_quotes_left (c ∷ cs) = let rest = trim_quotes_left cs in if c == quote then rest else c ∷ cs

-- A byte before what is left of the rest.
abbrev pub before_rest : ℕ → Str → Str
before_rest c [] = if c == quote then [] else c ∷ []
before_rest c (x ∷ xs) = c ∷ x ∷ xs

unfoldable pub trim_quotes_right : Str → Str
trim_quotes_right [] = []
trim_quotes_right (c ∷ cs) = before_rest c (trim_quotes_right cs)

abbrev pub quoted : Str → Str
quoted s = (quote ∷ s) ++ (quote ∷ [])

-- `fmt.Sprintf("\"%s\"", strings.Trim(etag, "\""))`
abbrev pub normal_etag : Str → Str
normal_etag e = quoted (trim_quotes_right (trim_quotes_left e))

abbrev pub etag_of : Option Str → Str
etag_of none = []
etag_of (some e) = normal_etag e

abbrev pub or_now : ℕ → Option ℕ → ℕ
or_now now none = now
or_now now (some t) = t

-- The prefix of `NewDriver`
abbrev pub new_prefix : Str → Str
new_prefix configured = trim configured

-- `strings.TrimPrefix`
abbrev pub trim_prefix : Str → Str → Str
trim_prefix s prefix = if has_prefix s prefix then drop (length prefix) s else s

unfoldable pub resolve_key : Str → Str → Str
resolve_key prefix key =
    let clean_key = trim_prefix key (codes "/") in
    if str_eq prefix [] then clean_key else prefix ++ (codes "/" ++ clean_key)

-- The errors of `GetObject` that mean that there is no object.
abbrev pub is_missing : ClientError → Bool
is_missing (no_such_key t) = true
is_missing (not_found_type t) = true
is_missing (api code t) =
    str_eq code (codes "NoSuchKey") || (str_eq code (codes "NotFound") || str_eq code (codes "404"))
is_missing (failure t) = false

-- The headers of `Put`
abbrev pub put_input : Str → Bytes → Str → PutInput
put_input s3_key value expected_etag = record {
  key = s3_key;
  body = value;
  if_none_match = if str_eq expected_etag match_any_etag then some (codes "*") else none;
  if_match =
      if str_eq expected_etag match_any_etag
      then none
      else if str_eq expected_etag []
      then none
      else some (normal_etag expected_etag);
}

module _ (quote_text : Str → Str) where
  -- What `Put` makes of an error.
  abbrev pub put_error : Str → Str → ClientError → Error
  put_error s3_key expected_etag (api code t) =
      if str_eq code (codes "PreconditionFailed") || str_eq code (codes "412")
      then if str_eq expected_etag match_any_etag then already_exists else version_mismatch
      else if str_eq code (codes "AccessDenied")
      then if str_eq expected_etag match_any_etag
        then already_exists
        else other (
            codes "s3 conditional put denied for "
            ++ (quote_text s3_key
                ++ (codes ": If-Match requires both s3:PutObject and s3:GetObject on this bucket: "
                    ++ t)))
      else failed (codes "s3 put failed") (api code t)
  put_error s3_key expected_etag (no_such_key t) = failed (codes "s3 put failed") (no_such_key t)
  put_error s3_key expected_etag (not_found_type t) =
      failed (codes "s3 put failed") (not_found_type t)
  put_error s3_key expected_etag (failure t) = failed (codes "s3 put failed") (failure t)

  module _ {D : Type 0} (client : Client D) (prefix : Str) where
    open client use {get_object, put_object, delete_object, list_objects}

    -- `Get` behind the call
    abbrev pub got : Str → ℕ → Result ClientError GetOutput → Result Error (Option Object)
    got key now (err e) =
        if is_missing e then err not_found else err (failed (codes "s3 get failed") e)
    got key now (ok out) = elim out.body [
      | err t ↦ err (other (codes "s3 read body failed: " ++ t))
      | ok value ↦ ok (
          some (record {
            key = key;
            value = value;
            etag = etag_of out.etag;
            mod_time = or_now now out.last_modified;
            metadata = [];
          }))
    ]

    unfoldable pub get : Str → ℕ → D → Result Error (Option Object)
    get key now d = got key now (get_object (resolve_key prefix key) d)

    unfoldable pub put : Str → Bytes → Str → ℕ → D → Result Error (Option Object) × D
    put key value expected_etag now d =
        let s3_key = resolve_key prefix key in
        let (r, d') = put_object (put_input s3_key value expected_etag) d in
        elim r [
          | err e ↦ (err (put_error s3_key expected_etag e), d')
          | ok etag ↦ (
            ok (
                some (record {
                  key = key;
                  value = value;
                  etag = etag_of etag;
                  mod_time = now;
                  metadata = [];
                })),
            d',
          )
        ]

    -- The expected ETag is not read.
    unfoldable pub delete : Str → Str → D → Option Error × D
    delete key expected_etag d =
        let (r, d') = delete_object (resolve_key prefix key) d in
        elim r [ none ↦ (none, d') | some e ↦ (some (failed (codes "s3 delete failed") e), d') ]

    -- `int32(n)`
    abbrev pub to_int32 : ℕ → ℤ
    to_int32 n = let m = n % 2 ^ 32 in if ltb m (2 ^ 31) then pos m else negsuc (2 ^ 32 - m - 1)

    abbrev pub list_input : Str → ListOptions → ListInput
    list_input key_prefix opts = record {
      prefix = resolve_key prefix key_prefix;
      max_keys = if ltb 0 opts.limit then some (to_int32 opts.limit) else none;
      continuation_token = if str_eq opts.cursor [] then none else some opts.cursor;
    }

    abbrev pub size_of : Option ℕ → ℕ
    size_of none = 0
    size_of (some n) = n

    -- The loop of `List`
    unfoldable pub metas_of : ℕ → List Content → List KeyMeta
    metas_of now [] = []
    metas_of now (c ∷ cs) =
        let rest = metas_of now cs in
        elim c.key [
          | none ↦ rest
          | some k ↦
              record {
                key = if str_eq prefix [] then k else trim_prefix k (prefix ++ codes "/");
                size = size_of c.size;
                etag = etag_of c.etag;
                mod_time = or_now now c.last_modified;
              }
              ∷ rest
        ]

    abbrev pub token_of : Option Str → Str
    token_of none = []
    token_of (some t) = t

    unfoldable pub list : Str → ListOptions → ℕ → D → Result Error (List KeyMeta × Str)
    list key_prefix opts now d = elim (list_objects (list_input key_prefix opts) d) [
      | err e ↦ err (failed (codes "s3 list failed") e)
      | ok out ↦ ok (metas_of now out.contents, token_of out.next_continuation_token)
    ]
