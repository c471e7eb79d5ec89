-- ===== src/Cluster/Mesh/Forward.antt =====
-- A forwarded request: what the sender gets is what the serving node answers.
use jaydb.Base.{
  ℕ, zero, suc, ◌<◌, ◌≡◌, refl, sym, ◌∙◌, ap, List, All, [], ◌∷◌, ◌++◌, Str, Bytes, Bool, true,
  false, some, ok, length, append-nil, arith, ℤ, str_eq, subst,
}
use jaydb.Cluster.Binary.Buffer.{concat}
use jaydb.Cluster.Binary.Write.{
  Req, Resp, write_binary_req, write_binary_resp, req_parts, pool_size,
}
use jaydb.Cluster.Binary.Read.{read_binary_req, read_binary_resp, read_full}
use jaydb.Cluster.Binary.RoundTrip.Request.{
  FitsReq, IsReq, read_binary_req-concat, write_binary_req-concat,
}
use jaydb.Cluster.Binary.RoundTrip.Response.{FitsResp, received, read_binary_resp-write_binary_resp}
use jaydb.Cluster.Mesh.{
  Formats, Node, Handler, handler_for, is_skewed, authenticate, dispatch, serve, handle_conn, sign,
  round_trip, execute_inter_query, Link,
}
use jaydb.Cluster.Mesh.Auth.{authenticate-sign}

-- Requests that a frame can hold.
abbrev pub Fits : Req → Type 0
Fits r = FitsReq r × IsReq r

-- The frames of requests, one behind the other.
unfoldable pub frames : List Req → Bytes
frames [] = []
frames (r ∷ rs) = concat (req_parts r) ++ frames rs

round_trip-ok :
    (mine : Bytes) (conn : Bytes → Bytes) (r : Req) (frame rest : Bytes) (x : Resp)
    → write_binary_req mine r ≡ ok frame
    → read_binary_resp (conn frame) ≡ ok (x, rest)
    → round_trip mine (ok conn) r ≡ ok x
unfolding round_trip
round_trip-ok mine conn r frame rest x e h = rw (round_trip, e, h) refl

-- A first attempt that is answered is the only one.
execute-first :
    (f : Formats) (secret : Str) (now : ℕ) (mine : Bytes) (first second : Link) (expired : Bool)
    (r : Req) (x : Resp)
    → round_trip mine first (sign f secret now r) ≡ ok x
    → execute_inter_query f secret now mine first second expired r ≡ ok x
unfolding execute_inter_query
execute-first f secret now mine first second expired r x e = rw (execute_inter_query, e) refl

module _ {S : Type 0} (f : Formats) (n : Node S) (since : ℕ → ℤ) (stale : Bytes) where
  -- The answers to requests that are served one after the other, and the state behind them.
  unfoldable pub serve_all : List Req → S → Bytes × S
  serve_all [] s = ([], s)
  serve_all (r ∷ rs) s =
      let (resp, s') = serve f n since r s in
      let (more, s'') = serve_all rs s' in (write_binary_resp stale resp ++ more, s'')

  handle_conn-step :
      (fuel : ℕ) (stream rest : Bytes) (r : Req) (s : S)
      → read_binary_req stream ≡ ok (r, rest)
      → handle_conn f (suc fuel) stale n since stream s ≡ (
          let (resp, s') = serve f n since r s in
          let (more, s'') = handle_conn f fuel stale n since rest s' in
          (write_binary_resp stale resp ++ more, s''))
  unfolding handle_conn
  handle_conn-step fuel stream rest r s h = rw (handle_conn, h) refl

  handle_conn-end : (fuel : ℕ) (s : S) → handle_conn f (suc fuel) stale n since [] s ≡ ([], s)
  unfolding handle_conn read_binary_req read_full
  handle_conn-end fuel s = refl

  -- A connection serves the requests that it carries in their order, each in the state that the ones
  -- before it left, writes their answers in that order, and ends with the stream; any fuel above the
  -- number of requests is enough.
  pub handle_conn-frames :
      (rs : List Req) (fuel : ℕ) (s : S)
      → All Fits rs
      → length rs < fuel
      → handle_conn f fuel stale n since (frames rs) s ≡ serve_all rs s
  unfolding frames serve_all
  handle_conn-frames [] zero s i p = ground (arith)
  handle_conn-frames [] (suc fuel) s i p = handle_conn-end fuel s
  handle_conn-frames (r ∷ rs) zero s i p = ground (arith)
  handle_conn-frames (r ∷ rs) (suc fuel) s i p =
      handle_conn-step fuel (frames (r ∷ rs)) (frames rs) r s
        (read_binary_req-concat r (frames rs) i.0.0 i.0.1)
      ∙ ap (λ (m : Bytes × S). (write_binary_resp stale (serve f n since r s).0 ++ m.0, m.1))
          (handle_conn-frames rs fuel (serve f n since r s).1 i.1 (omega (arith, p)))

  -- The connection to a node in a state.
  abbrev pub served : ℕ → S → Bytes → Bytes
  served fuel s stream = (handle_conn f fuel stale n since stream s).0

  read_one : (r : Req) → Fits r → read_binary_req (concat (req_parts r)) ≡ ok (r, [])
  read_one r i =
      ap read_binary_req (sym (append-nil (concat (req_parts r))))
      ∙ read_binary_req-concat r [] i.0 i.1

  served-one :
      (fuel : ℕ) (r : Req) (s : S)
      → Fits r
      → served (suc (suc fuel)) s (concat (req_parts r))
        ≡ write_binary_resp stale (serve f n since r s).0 ++ []
  served-one fuel r s i =
      ap (λ (m : Bytes × S). m.0)
        (handle_conn-step (suc fuel) (concat (req_parts r)) [] r s (read_one r i)
          ∙ ap (λ (m : Bytes × S). (write_binary_resp stale (serve f n since r s).0 ++ m.0, m.1))
              (handle_conn-end fuel (serve f n since r s).1))

  -- A request sent over a connection to a node comes back as what that node answers in its state, as
  -- far as the frame carries it, if the request and the answer fit their frames.
  pub round_trip-served :
      (mine : Bytes) (fuel : ℕ) (r : Req) (s : S)
      → length mine ≡ pool_size
      → length stale ≡ pool_size
      → Fits r
      → FitsResp (serve f n since r s).0
      → round_trip mine (ok (served (suc (suc fuel)) s)) r
        ≡ (let (resp, _) = serve f n since r s in ok (received resp.object resp.error))
  round_trip-served mine fuel r s p q i a =
      let resp = (serve f n since r s).0 in
      round_trip-ok mine (served (suc (suc fuel)) s) r (concat (req_parts r)) []
        (received resp.object resp.error) (write_binary_req-concat mine r p i.0)
        (ap read_binary_resp (served-one fuel r s i)
          ∙ read_binary_resp-write_binary_resp stale resp [] q a)

  serve-authentic :
      (r : Req) (s : S) (h : Handler S)
      → authenticate f n.cluster_secret since r ≡ true
      → handler_for r.namespace n ≡ some h
      → serve f n since r s ≡ dispatch f h r s
  unfolding serve
  serve-authentic r s h a k = rw (a, k) refl

  sign-namespace :
      (secret : Str) (now : ℕ) (r : Req) → (sign f secret now r).namespace ≡ r.namespace
  unfolding sign
  sign-namespace secret now r = ground (arith)

  -- Between nodes that share the secret and whose clocks differ by no more than the bound, where the
  -- hash is never empty, the owner has a handler for the namespace, and the signed query and the
  -- handler's answer fit the limits of their frames: a query over a connection that works comes back
  -- as what the handler answers to it, without the object if the answer has an error, and without the
  -- metadata of the object, which the frame does not carry.
  pub execute_inter_query-dispatch :
      (now : ℕ) (mine : Bytes) (fuel : ℕ) (second : Link) (expired : Bool) (r : Req) (s : S)
      (h : Handler S)
      → length mine ≡ pool_size
      → length stale ≡ pool_size
      → is_skewed (since now) ≡ false
      → ((k m : Str) → str_eq (f.hmac k m) [] ≡ false)
      → handler_for r.namespace n ≡ some h
      → Fits (sign f n.cluster_secret now r)
      → FitsResp (dispatch f h (sign f n.cluster_secret now r) s).0
      → execute_inter_query f n.cluster_secret now mine
          (ok (served (suc (suc fuel)) s))
          second
          expired
          r
        ≡ (let (resp, _) = dispatch f h (sign f n.cluster_secret now r) s in
            ok (received resp.object resp.error))
  execute_inter_query-dispatch now mine fuel second expired r s h p q k m e i a =
      let r' = sign f n.cluster_secret now r in
      let e' =
        serve-authentic r' s h (authenticate-sign f n.cluster_secret now since r k m)
          (ap (λ (x : Str). handler_for x n) (sign-namespace n.cluster_secret now r) ∙ e) in
      let t =
        round_trip-served mine fuel r' s p q i (subst (λ (x : Resp × S). FitsResp x.0) (sym e') a)
        ∙ ap (λ (x : Resp × S). ok (received x.0.object x.0.error)) e' in
      execute-first f n.cluster_secret now mine (ok (served (suc (suc fuel)) s)) second expired r _
        t
