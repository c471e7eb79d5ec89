-- ===== src/Encoding.antt =====
-- pkg/encoding/codec.go: the codecs of documents. A document is a byte slice, a raw JSON message, a
-- string or another Go value, of the type `V`; the destination of `Unmarshal` is a pointer to one of
-- these. The functions of encoding/json are a parameter.
pub mod RoundTrip
use jaydb.Base.{Str, Bytes, Result, ok, err, codes}

pub data Doc (V : Type 0) : Type 0 where
  bytes raw_message text : Bytes → Doc V
  other : V → Doc V

-- What the destination points to.
pub data Kind : Type 0 where
  to_bytes to_raw_message to_text to_other : Kind

abbrev pub kind_of : {V : Type 0} → Doc V → Kind
kind_of (bytes b) = to_bytes
kind_of (raw_message b) = to_raw_message
kind_of (text b) = to_text
kind_of (other v) = to_other

-- `json` is an error of encoding/json; the other two name the types that the raw codec takes.
pub data CodecError : Type 0 where
  json : Str → CodecError
  raw_requires_value raw_requires_pointer : CodecError

pub record Json (V : Type 0) : Type 0 where
  pub marshal : V → Result CodecError Bytes
  pub unmarshal : Bytes → Result CodecError V

pub record Codec (V : Type 0) : Type 0 where
  pub marshal : Doc V → Result CodecError Bytes
  pub unmarshal : Bytes → Kind → Result CodecError (Doc V)
  pub name : Str

module _ {V : Type 0} (j : Json V) where
  unfoldable pub json_marshal : Doc V → Result CodecError Bytes
  json_marshal (bytes b) = ok b
  json_marshal (raw_message b) = ok b
  json_marshal (text b) = ok b
  json_marshal (other v) = j.marshal v

  abbrev as_other : Result CodecError V → Result CodecError (Doc V)
  as_other (ok v) = ok (other v)
  as_other (err e) = err e

  unfoldable pub json_unmarshal : Bytes → Kind → Result CodecError (Doc V)
  json_unmarshal b to_bytes = ok (bytes b)
  json_unmarshal b to_raw_message = ok (raw_message b)
  json_unmarshal b to_text = ok (text b)
  json_unmarshal b to_other = as_other (j.unmarshal b)

  abbrev pub json_codec : Codec V
  json_codec = record { marshal = json_marshal; unmarshal = json_unmarshal; name = codes "json" }

module _ {V : Type 0} where
  unfoldable pub raw_marshal : Doc V → Result CodecError Bytes
  raw_marshal (bytes b) = ok b
  raw_marshal (raw_message b) = ok b
  raw_marshal (text b) = ok b
  raw_marshal (other v) = err raw_requires_value

  unfoldable pub raw_unmarshal : Bytes → Kind → Result CodecError (Doc V)
  raw_unmarshal b to_bytes = ok (bytes b)
  raw_unmarshal b to_raw_message = ok (raw_message b)
  raw_unmarshal b to_text = ok (text b)
  raw_unmarshal b to_other = err raw_requires_pointer

  abbrev pub raw_codec : Codec V
  raw_codec = record { marshal = raw_marshal; unmarshal = raw_unmarshal; name = codes "raw" }
