-- ===== src/Encoding/RoundTrip.antt =====
-- What a codec wrote it reads back.
use jaydb.Base.{◌≡◌, refl, sym, ap, Bytes, Result, ok}
use jaydb.Encoding.{
  Doc, bytes, raw_message, text, other, kind_of, Codec, CodecError, Json, json_marshal,
  json_unmarshal, json_codec, raw_marshal, raw_unmarshal, raw_codec,
}

same : {a b : Bytes} → ◌≡◌ {A = Result CodecError Bytes} (ok a) (ok b) → a ≡ b
same h = cc

module _ {V : Type 0} where
  -- A codec reads a document that it wrote into a destination of the document's kind.
  abbrev pub IsFaithful : Codec V → Type 0
  IsFaithful c = (d : Doc V) (b : Bytes) → c.marshal d ≡ ok b → c.unmarshal b (kind_of d) ≡ ok d

  raw-IsFaithful : IsFaithful raw_codec
  unfolding raw_marshal raw_unmarshal
  raw-IsFaithful (bytes a) b h = ap (λ z. ok (bytes z)) (sym (same h))
  raw-IsFaithful (raw_message a) b h = ap (λ z. ok (raw_message z)) (sym (same h))
  raw-IsFaithful (text a) b h = ap (λ z. ok (text z)) (sym (same h))
  raw-IsFaithful (other v) b h = cc

  -- Both codecs read back what they wrote, into a destination of the document's kind: the raw codec
  -- always, the JSON codec if encoding/json reads back the values that it wrote.
  pub codecs-IsFaithful :
      (j : Json V)
      → ((v : V) (b : Bytes) → j.marshal v ≡ ok b → j.unmarshal b ≡ ok v)
      → IsFaithful (json_codec j) × IsFaithful (raw_codec {V = V})
  unfolding json_marshal json_unmarshal
  codecs-IsFaithful j h = (by_kind, raw-IsFaithful)
    where
      by_kind : IsFaithful (json_codec j)
      by_kind (bytes a) b q = ap (λ z. ok (bytes z)) (sym (same q))
      by_kind (raw_message a) b q = ap (λ z. ok (raw_message z)) (sym (same q))
      by_kind (text a) b q = ap (λ z. ok (text z)) (sym (same q))
      by_kind (other v) b q = rw (h v b q) refl
