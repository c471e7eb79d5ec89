-- ===== src/Server/Routes/Anywhere.antt =====
-- A request for a key gets the owner's reply at every node of the ring.
use jaydb.Base.{
  ℕ, ◌≡◌, refl, sym, ap, ◌∙◌, subst, inl, inr, [], Str, false, Option, none, some, if◌then◌else◌,
  str_eq, str_eq_refl, arith, Result, Bool-cases, Option-cases,
}
use jaydb.Storage.{Object, Error, not_found, error_text}
use jaydb.Cluster.Binary.Write.{Req, Resp}
use jaydb.Cluster.Mesh.{
  MeshError, Handler, dispatch, sign, op_get, op_put, op_delete, answer_object, answer_delete,
  no_object_text,
}
use jaydb.Cluster.Mesh as Mesh
use jaydb.Sharding.Ring.{Ring, get_node}
use jaydb.Db.Calls.{request}
use jaydb.Db.Forwarding.{
  IsApartAnswer, IsApartDelete, as_text, delete_text, over_wire, written_as, deleted_as,
}
use jaydb.Server.{Db, Request, Outcome, Formats, Server, ClusterNode}
use jaydb.Server.Handlers.{
  refused_body, forwarded_etag, outcome, respond_get, respond_put, respond_delete, forwarded_get,
  forwarded_put, forwarded_delete, forward_get_via_mesh, forward_put_via_mesh,
  forward_delete_via_mesh, handle_get, handle_put, handle_delete,
}
use jaydb.Server.Handlers.Agreement.{
  read_raw, option_etag-forwarded_etag, forwarded_get-respond_get, forwarded_put-respond_put,
  forwarded_delete-respond_delete,
}
use jaydb.Server.Routes.{
  method_get, method_put, method_delete, refused_key, owner_of, forward_via_mesh, handle_here,
  handle_key,
}

-- The request that a node sends to the owner of the key.
abbrev pub mesh_request : Request → Str → Req
mesh_request r key =
    if str_eq r.method method_get
    then request op_get [] key [] []
    else if str_eq r.method method_put
    then request op_put [] key r.body (forwarded_etag r)
    else request op_delete [] key [] r.if_match

-- The owner's handler of forwarded requests and its database answer alike for a key: where the one
-- has an object or an error's text, the other has what belongs to it.
pub record Serves {S T : Type 0} (db : Db S) (s : S) (h : Handler T) (t : T) (r : Request)
    (key : Str) : Type 0 where
  pub reads : Result Error (Option Object)
  pub writes : Result Error (Option Object)
  pub deletes : Option Error
  pub get_raw_reads : (h.get_raw key t).0 ≡ as_text reads
  pub put_raw_writes : (h.put_raw key r.body (forwarded_etag r) t).0 ≡ as_text writes
  pub delete_raw_deletes : (h.delete_raw key r.if_match t).0 ≡ delete_text deletes
  pub get_reads : (db.get key s).0 ≡ read_raw reads
  pub put_writes : (db.put key r.body (forwarded_etag r) s).0 ≡ written_as writes
  pub delete_deletes : (db.delete key r.if_match s).0 ≡ deleted_as deletes
  pub reads_apart : IsApartAnswer reads
  pub writes_apart : IsApartAnswer writes
  pub deletes_apart : IsApartDelete deletes

-- The dispatch does not read what a signature changes.
dispatch-sign :
    (f : Mesh.Formats) {T : Type 0} (h : Handler T) (secret : Str) (now : ℕ) (r : Req) (t : T)
    → dispatch f h (sign f secret now r) t ≡ dispatch f h r t
unfolding dispatch sign
dispatch-sign f h secret now r t = elim (Bool-cases (str_eq secret [])) [
  | inl e ↦ rw (sign, e) refl
  | inr e ↦ rw (dispatch, sign, e) refl
]

module _ (f : Formats) (mf : Mesh.Formats) {S T : Type 0} (ask : Str → Req → Result MeshError Resp)
    (secret : Str) (now : ℕ) (db : Db S) (s : S) (h : Handler T) (t : T) (r : Request) (key : Str)
    (target : Str) (v : Serves db s h t r key) where
  -- The target answers a request as its handler does.
  abbrev pub IsAnswered : Req → Type 0
  IsAnswered q = ask target q ≡ over_wire (dispatch mf h (sign mf secret now q) t).0

  answered :
      (q : Req) (resp : Resp)
      → IsAnswered q
      → (dispatch mf h q t).0 ≡ resp
      → ask target q ≡ over_wire resp
  answered q resp a e =
      a ∙ ap (λ (p : Resp × T). over_wire p.0) (dispatch-sign mf h secret now q t) ∙ ap over_wire e

  get_there :
      IsAnswered (request op_get [] key [] [])
      → (forward_get_via_mesh f ask target key).0 ≡ (handle_get f db key s).reply
  unfolding forward_get_via_mesh handle_get dispatch
  get_there a =
      ap (λ x. (forwarded_get f x).0)
        (answered (request op_get [] key [] [])
          (answer_object (error_text not_found) (as_text v.reads)) a
          (ap (answer_object (error_text not_found)) v.get_raw_reads))
      ∙ forwarded_get-respond_get f v.reads v.reads_apart
      ∙ ap (λ x. (respond_get f x).0) (sym v.get_reads)

  put_there :
      IsAnswered (request op_put [] key r.body (forwarded_etag r))
      → (forward_put_via_mesh f ask r target key).0 ≡ (handle_put f db r key s).reply
  unfolding forward_put_via_mesh handle_put dispatch
  put_there a = elim (Option-cases (refused_body r.body)) [
    | inr (reply, e) ↦ rw (forward_put_via_mesh, handle_put, e) refl
    | inl e ↦
        rw (forward_put_via_mesh, handle_put, e)
          (ap (λ x. (forwarded_put f r.body x).0)
              (answered (request op_put [] key r.body (forwarded_etag r))
                (answer_object no_object_text (as_text v.writes)) a
                (ap (answer_object no_object_text) v.put_raw_writes))
            ∙ forwarded_put-respond_put f r.body v.writes v.writes_apart
            ∙ ap (λ x. (respond_put f r.body x).0)
                (sym v.put_writes
                  ∙ ap (λ e. (db.put key r.body e s).0) (sym (option_etag-forwarded_etag r))))
  ]

  delete_there :
      IsAnswered (request op_delete [] key [] r.if_match)
      → (forward_delete_via_mesh f ask r target key).0 ≡ (handle_delete f db r key s).reply
  unfolding forward_delete_via_mesh handle_delete dispatch
  delete_there a =
      ap (λ x. (forwarded_delete f x).0)
        (answered (request op_delete [] key [] r.if_match) (answer_delete (delete_text v.deletes)) a
          (ap answer_delete v.delete_raw_deletes))
      ∙ forwarded_delete-respond_delete f v.deletes v.deletes_apart
      ∙ ap (λ x. (respond_delete f x).0) (sym v.delete_deletes)

  there :
      IsAnswered (mesh_request r key)
      → (forward_via_mesh f ask r target key).0 ≡ (handle_here f db r key s).reply
  unfolding forward_via_mesh handle_here
  there a =
      let at : (q : Req) → mesh_request r key ≡ q → IsAnswered q = λ q e. subst IsAnswered e a in
      elim (Bool-cases (str_eq r.method method_get)) [
        | inl g ↦
            rw (forward_via_mesh, handle_here, g)
              (get_there (at (request op_get [] key [] []) (rw g refl)))
        | inr g ↦ elim (Bool-cases (str_eq r.method method_put)) [
          | inl p ↦
              rw (forward_via_mesh, handle_here, g, p)
                (put_there (at (request op_put [] key r.body (forwarded_etag r)) (rw (g, p) refl)))
          | inr p ↦ elim (Bool-cases (str_eq r.method method_delete)) [
            | inl d ↦
                rw (forward_via_mesh, handle_here, g, p, d)
                  (delete_there (at (request op_delete [] key [] r.if_match) (rw (g, p) refl)))
            | inr d ↦ rw (forward_via_mesh, handle_here, g, p, d) refl
          ]
        ]
      ]

pub other_owner :
    (key target : Str) (n : ClusterNode) (ring : Ring)
    → get_node ring key ≡ some target
    → str_eq target [] ≡ false
    → str_eq target n.mesh_addr ≡ false
    → owner_of key n (some ring) ≡ some target
other_owner key target n ring g e o = rw (owner_of, g, e, o) refl

own_key :
    (key target : Str) (n : ClusterNode) (ring : Ring)
    → get_node ring key ≡ some target
    → n.mesh_addr ≡ target
    → owner_of key n (some ring) ≡ none
own_key key target n ring g m = rw (owner_of, g, m, str_eq_refl target) (ground (arith))

module _ (f : Formats) (ask : Str → Req → Result MeshError Resp) {S : Type 0} (server : Server S)
    (r : Request) (key : Str) (s : S) (n : ClusterNode) where
  unrefused :
      refused_key key ≡ none
      → server.cluster_node ≡ some n
      → handle_key f ask server r key s ≡ elim (owner_of key n server.ring) as (λ x. Outcome S) [
        | none ↦ handle_here f server.db r key s
        | some target ↦ outcome (forward_via_mesh f ask r target key) s
      ]
  unfolding handle_key
  unrefused k c = rw (handle_key, k, c) refl

  pub forwards :
      (ring : Ring) (target : Str)
      → refused_key key ≡ none
      → server.cluster_node ≡ some n
      → server.ring ≡ some ring
      → owner_of key n (some ring) ≡ some target
      → handle_key f ask server r key s ≡ outcome (forward_via_mesh f ask r target key) s
  forwards ring target k c l o = unrefused k c ∙ rw (l, o) refl

  keeps :
      (ring : Ring)
      → refused_key key ≡ none
      → server.cluster_node ≡ some n
      → server.ring ≡ some ring
      → owner_of key n (some ring) ≡ none
      → handle_key f ask server r key s ≡ handle_here f server.db r key s
  keeps ring k c l o = unrefused k c ∙ rw (l, o) refl

-- Two servers with one ring, the second at the address that the ring gives for the key: a client gets
-- the same reply from both. The first forwards the request, which the second's handler answers as its
-- database does, and leaves its own database alone.
pub handle_key-anywhere :
    (f : Formats) (mf : Mesh.Formats) {S S' T : Type 0} (ask : Str → Req → Result MeshError Resp)
    (secret : Str) (now : ℕ) (r : Request) (key target : Str) (ring : Ring) (n n' : ClusterNode)
    (server : Server S) (owner : Server S') (s : S) (s' : S') (h : Handler T) (t : T)
    → server.ring ≡ some ring
    → owner.ring ≡ some ring
    → server.cluster_node ≡ some n
    → owner.cluster_node ≡ some n'
    → get_node ring key ≡ some target
    → n'.mesh_addr ≡ target
    → str_eq target [] ≡ false
    → str_eq target n.mesh_addr ≡ false
    → Serves owner.db s' h t r key
    → ask target (mesh_request r key)
      ≡ over_wire (dispatch mf h (sign mf secret now (mesh_request r key)) t).0
    → ((handle_key f ask server r key s).reply ≡ (handle_key f ask owner r key s').reply)
      × ((handle_key f ask server r key s).state ≡ s)
unfolding handle_key
handle_key-anywhere f mf ask secret now r key target ring n n' server owner s s' h t l l' c c' g m e
      o v a =
    elim (Option-cases (refused_key key)) [
      | inr (reply, k) ↦ (rw (handle_key, k) refl, rw (handle_key, k) refl)
      | inl k ↦
          let here = there f mf ask secret now owner.db s' h t r key target v a in
          let away =
            forwards f ask server r key s n ring target k c l
              (other_owner key target n ring g e o) in
          let home = keeps f ask owner r key s' n' ring k c' l' (own_key key target n' ring g m) in
          (ap (λ z. z.reply) away ∙ here ∙ ap (λ z. z.reply) (sym home), ap (λ z. z.state) away)
    ]
