-- ===== src/Storage.antt =====
-- pkg/storage/driver.go: the objects, the metadata and the errors that all storage drivers share.
-- A time is a number of nanoseconds since the epoch.
pub mod Files
pub mod Memory
pub mod S3
use jaydb.Base.{ℕ, Str, Bytes, StrMap, Option, Result, codes}

pub data Error : Type 0 where
  not_found version_mismatch already_exists : Error
  other : Str → Error

-- `If-None-Match: *`
abbrev pub match_any_etag : Str
match_any_etag = codes "*"

pub record Object : Type 0 where
  pub key : Str
  pub value : Bytes
  pub etag : Str
  pub mod_time : ℕ
  pub metadata : StrMap Str

pub record KeyMeta : Type 0 where
  pub key : Str
  pub size : ℕ
  pub etag : Str
  pub mod_time : ℕ

pub record ListOptions : Type 0 where
  pub limit : ℕ
  pub cursor : Str
  pub delimiter : Str

-- The methods of `Driver` on one key, over the state `D` of the storage. A nil object is `none`.
pub record Driver (D : Type 0) : Type 0 where
  pub get : Str → D → Result Error (Option Object)
  pub put : Str → Bytes → Str → D → Result Error (Option Object) × D
  pub delete : Str → Str → D → Option Error × D

-- `err.Error()`
abbrev pub error_text : Error → Str
error_text not_found = codes "storage: object not found"
error_text version_mismatch = codes "storage: CAS version mismatch (412 Precondition Failed)"
error_text already_exists = codes "storage: object already exists"
error_text (other s) = s
