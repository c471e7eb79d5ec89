-- ===== src/Server/Routes/Namespace.antt =====
-- The requests to an owner whose database was opened with a namespace.
use jaydb.Base.{
  ℕ, ◌≡◌, refl, sym, ap, ◌∙◌, inl, inr, [], ◌++◌, Str, Bytes, true, false, none, some, str_eq,
  codes, arith, Result, ok, Bool-cases, Option-cases, ℤ,
}
use jaydb.Cluster.Binary.Write.{Req, Resp}
use jaydb.Cluster.Mesh.{
  MeshError, Node, error_resp, handler_for, authenticate, sign, serve, no_handler_text,
  unauthenticated_text, op_get, op_put, op_delete,
}
use jaydb.Cluster.Mesh as Mesh
use jaydb.Sharding.Ring.{Ring, get_node}
use jaydb.Db.Calls.{request}
use jaydb.Db.Forwarding.{over_wire, received-error}
use jaydb.Server.{Request, Formats, Server, ClusterNode}
use jaydb.Server.Handlers.{
  Answer, refused_body, forwarded_get, forwarded_put, forwarded_delete, forward_get_via_mesh,
  forward_put_via_mesh, forward_delete_via_mesh, forwarded_etag,
}
use jaydb.Server.Routes.{
  method_get, method_put, method_delete, refused_key, forward_via_mesh, handle_key,
}
use jaydb.Server.Routes.Anywhere.{mesh_request, forwards, other_owner}
use jaydb.Server.Routes.Counted.{is_failed, refused_key-failed, refused_body-failed}

-- Every request of `mesh_request` is for the empty namespace, and a signature keeps it.
namespace-mesh_request :
    (f : Mesh.Formats) (secret : Str) (now : ℕ) (r : Request) (key : Str)
    → (sign f secret now (mesh_request r key)).namespace ≡ []
unfolding sign
namespace-mesh_request f secret now r key = ground (arith, sign)

-- An answer that carries a message.
abbrev IsMessage : Resp → Type 0
IsMessage resp = (t : Str) × (resp ≡ error_resp t) × (str_eq t [] ≡ false)

serve-IsMessage :
    (f : Mesh.Formats) {T : Type 0} (n : Node T) (since : ℕ → ℤ) (q : Req) (t : T)
    → q.namespace ≡ []
    → handler_for [] n ≡ none
    → IsMessage (serve f n since q t).0
unfolding serve str_eq
serve-IsMessage f n since q t e h = elim (Bool-cases (authenticate f n.cluster_secret since q)) [
  | inr a ↦ rw (serve, a) (unauthenticated_text, refl, refl)
  | inl a ↦
      rw (serve, a, e, h) (no_handler_text ++ (codes " " ++ f.quote q.namespace), rw e refl, refl)
]

get_message :
    (f : Formats) (t : Str)
    → str_eq t [] ≡ false
    → is_failed (forwarded_get f (ok (error_resp t))).0 ≡ true
unfolding forwarded_get
get_message f t h = ground (arith, forwarded_get, h)

put_message :
    (f : Formats) (body : Bytes) (t : Str)
    → str_eq t [] ≡ false
    → is_failed (forwarded_put f body (ok (error_resp t))).0 ≡ true
unfolding forwarded_put
put_message f body t h = ground (arith, forwarded_put, h)

delete_message :
    (f : Formats) (t : Str)
    → str_eq t [] ≡ false
    → is_failed (forwarded_delete f (ok (error_resp t))).0 ≡ true
unfolding forwarded_delete
delete_message f t h = ground (arith, forwarded_delete, h)

module _ (f : Formats) (mf : Mesh.Formats) {T : Type 0} (ask : Str → Req → Result MeshError Resp)
    (secret : Str) (now : ℕ) (since : ℕ → ℤ) (owner : Node T) (t : T) (target : Str)
    (h : handler_for [] owner ≡ none) where
  abbrev pub IsServed : Req → Type 0
  IsServed q = ask target q ≡ over_wire (serve mf owner since (sign mf secret now q) t).0

  failed_by :
      (answer : Result MeshError Resp → Answer) (r : Request) (key : Str) (q : Req)
      → ((x : Str) → str_eq x [] ≡ false → is_failed (answer (ok (error_resp x))).0 ≡ true)
      → IsServed (mesh_request r key)
      → mesh_request r key ≡ q
      → is_failed (answer (ask target q)).0 ≡ true
  failed_by answer r key q m a e =
      let (x, p, n) =
        serve-IsMessage mf owner since (sign mf secret now (mesh_request r key)) t
          (namespace-mesh_request mf secret now r key) h in
      ap (λ y. is_failed (answer (ask target y)).0) (sym e)
      ∙ ap (λ y. is_failed (answer y).0) (a ∙ ap over_wire p ∙ ap (λ y. ok y) (received-error x n))
      ∙ m x n

  via_mesh-failed :
      (r : Request) (key : Str)
      → IsServed (mesh_request r key)
      → is_failed (forward_via_mesh f ask r target key).0 ≡ true
  unfolding forward_via_mesh forward_get_via_mesh forward_put_via_mesh forward_delete_via_mesh
  via_mesh-failed r key a = elim (Bool-cases (str_eq r.method method_get)) [
    | inl g ↦
        rw (forward_via_mesh, g)
          (failed_by (forwarded_get f) r key (request op_get [] key [] []) (get_message f) a
            (rw g refl))
    | inr g ↦ elim (Bool-cases (str_eq r.method method_put)) [
      | inl p ↦ elim (Option-cases (refused_body r.body)) [
        | inr (reply, b) ↦
            rw (forward_via_mesh, forward_put_via_mesh, g, p, b)
              (refused_body-failed r.body reply b)
        | inl b ↦
            rw (forward_via_mesh, forward_put_via_mesh, g, p, b)
              (failed_by (forwarded_put f r.body) r key
                (request op_put [] key r.body (forwarded_etag r)) (put_message f r.body) a
                (rw (g, p) refl))
      ]
      | inr p ↦ elim (Bool-cases (str_eq r.method method_delete)) [
        | inl d ↦
            rw (forward_via_mesh, g, p, d)
              (failed_by (forwarded_delete f) r key (request op_delete [] key [] r.if_match)
                (delete_message f) a (rw (g, p) refl))
        | inr d ↦ rw (forward_via_mesh, g, p, d) refl
      ]
    ]
  ]

  -- If the owner of a key serves no handler for the empty namespace, as a node whose database was
  -- opened with a namespace, then a request for the key at another node fails, whatever it asks, and
  -- whether the owner accepts the signature or not.
  pub handle_key-unserved :
      {S : Type 0} (r : Request) (key : Str) (ring : Ring) (n : ClusterNode) (server : Server S)
      (s : S)
      → server.ring ≡ some ring
      → server.cluster_node ≡ some n
      → get_node ring key ≡ some target
      → str_eq target [] ≡ false
      → str_eq target n.mesh_addr ≡ false
      → IsServed (mesh_request r key)
      → is_failed (handle_key f ask server r key s).reply ≡ true
  unfolding handle_key
  handle_key-unserved r key ring n server s l c g e o a = elim (Option-cases (refused_key key)) [
    | inr (reply, k) ↦ rw (handle_key, k) (refused_key-failed key reply k)
    | inl k ↦
        ap (λ z. is_failed z.reply)
          (forwards f ask server r key s n ring target k c l (other_owner key target n ring g e o))
        ∙ via_mesh-failed r key a
  ]
