-- ===== src/Cluster/Mesh/Auth.antt =====
-- The authentication of requests: what a node signs is accepted, and what a signature leaves open.
use jaydb.Base.{
  ℕ, ◌≡◌, refl, sym, ap, ◌∙◌, [], ◌++◌, append_assoc, Str, true, false, if◌then◌else◌, str_eq,
  str_eq_refl, ℤ, codes, inl, inr, Bool-cases,
}
use jaydb.Cluster.Binary.Write.{Req}
use jaydb.Cluster.Mesh.{
  Formats, colon, signed_end, canonical, compute_auth, is_skewed, authenticate, sign,
}

-- What a node signs with the cluster's secret every node with that secret accepts, as long as the
-- clocks differ by no more than the bound, and signatures are not empty.
pub authenticate-sign :
    (f : Formats) (secret : Str) (now : ℕ) (since : ℕ → ℤ) (r : Req)
    → is_skewed (since now) ≡ false
    → ((s m : Str) → str_eq (f.hmac s m) [] ≡ false)
    → authenticate f secret since (sign f secret now r) ≡ true
unfolding authenticate sign compute_auth canonical
authenticate-sign f secret now since r k h = elim (Bool-cases (str_eq secret [])) [
  | inl e ↦ rw e refl
  | inr e ↦ rw (e, h secret _, k) (str_eq_refl _)
]

canonical-shift :
    (f : Formats) (a b c : Str) (r : Req)
    → canonical f (record r { key = a ++ (codes ":" ++ b); expected_etag = c })
      ≡ canonical f (record r { key = a; expected_etag = b ++ (codes ":" ++ c) })
unfolding canonical
canonical-shift f a b c r =
    ap (λ (z : Str). r.namespace ++ (colon ++ (f.show_int r.op ++ (colon ++ z))))
      (append_assoc a (codes ":" ++ b) (colon ++ (c ++ signed_end f r))
        ∙ ap (λ (z : Str). a ++ (colon ++ z))
            (sym (append_assoc b (codes ":" ++ c) (signed_end f r))))

-- The signed string does not tell where the key ends and the ETag begins: the signature of a request
-- for the key `a:b` with the ETag `c` is accepted for the key `a` with the ETag `b:c`, and the other
-- way round, whatever the secret and the hash.
pub authenticate-shift :
    (f : Formats) (secret a b c : Str) (since : ℕ → ℤ) (r : Req)
    → authenticate f secret since (record r { key = a ++ (codes ":" ++ b); expected_etag = c })
      ≡ authenticate f secret since (record r { key = a; expected_etag = b ++ (codes ":" ++ c) })
unfolding authenticate compute_auth
authenticate-shift f secret a b c since r =
    ap
      (λ (m : Str).
        if str_eq secret []
        then true
        else if str_eq r.auth []
        then false
        else if is_skewed (since r.ts)
        then false
        else str_eq (f.hmac secret m) r.auth)
      (canonical-shift f a b c r)
