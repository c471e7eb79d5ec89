-- ===== src/Db.antt =====
-- pkg/db/db.go: the database that routes each key to its owner, keeps the caches of the keys that it
-- owns, and lists keys page by page.
pub mod Listing
pub mod Ownership
pub mod Answers
pub mod Calls
pub mod Forwarding
pub mod Serving
mod Changes
use jaydb.Base.{ℕ, Str, Bytes}
use jaydb.Storage.{KeyMeta, Object}

pub record Meta : Type 0 where
  pub key : Str
  pub etag : Str
  pub mod_time : ℕ
  pub size : ℕ

-- The metadata of a document that was read or written; its size is left zero.
abbrev pub meta_of : Object → Meta
meta_of o = record { key = o.key; etag = o.etag; mod_time = o.mod_time; size = 0 }

-- A listed key; a listing has no values.
pub record Item : Type 0 where
  pub meta : Meta

abbrev pub item_of : KeyMeta → Item
item_of m = record {
  meta = record { key = m.key; etag = m.etag; mod_time = m.mod_time; size = m.size };
}
