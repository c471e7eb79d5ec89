-- ===== src/Db/Forwarding/Routed.antt =====
-- `Get` at a node that does not own the key, over a connection to the node that does.
use jaydb.Base.{
  Bool-cases, inl, inr, ℕ, suc, ◌≡◌, refl, sym, ◌∙◌, ap, subst, [], Str, Bytes, Bool, false, Option,
  some, str_eq, Result, ok, length, ℤ,
}
use jaydb.Storage.{Object, Error, Driver, not_found, error_text}
use jaydb.Encoding.{Kind, Codec, Doc}
use jaydb.Cluster.Binary.Write.{Req, Resp, pool_size}
use jaydb.Cluster.Binary.RoundTrip.Response.{FitsResp}
use jaydb.Cluster.Mesh.{
  Formats, Node, Handler, Link, MeshError, op_get, handler_for, is_skewed, dispatch, sign,
  answer_object, execute_inter_query,
}
use jaydb.Cluster.Mesh.Forward.{Fits, served, execute_inter_query-dispatch}
use jaydb.Cache.Budget.{done}
use jaydb.Db.{Meta}
use jaydb.Db.Ownership.{Database, Reads, reconcile_ownership, target_node}
use jaydb.Db.Answers.{DbError, forwarded_get}
use jaydb.Db.Calls.{request, get}
use jaydb.Db.Forwarding.{IsApartAnswer, as_text, read_as, over_wire, forwarded_get-answer_object}

module _ {S : Type 0} (f : Formats) (n : Node S) (since : ℕ → ℤ) (stale mine : Bytes) where
  dispatch-get :
      (h : Handler S) (secret : Str) (now : ℕ) (namespace key : Str) (s : S)
      → (dispatch f h (sign f secret now (request op_get namespace key [] [])) s).0
        ≡ answer_object (error_text not_found) (h.get_raw key s).0
  unfolding dispatch sign
  dispatch-get h secret now namespace key s = elim (Bool-cases (str_eq secret [])) [
    | inl e ↦ rw (dispatch, sign, e) refl
    | inr e ↦ rw (dispatch, sign, e) refl
  ]

  -- The node's handler for the namespace is `h`, signatures are not empty, clocks agree, and the
  -- buffers are as the pool makes them.
  pub record IsServing (now : ℕ) (namespace : Str) (h : Handler S) : Type 0 where
    pub mine_size : length mine ≡ pool_size
    pub stale_size : length stale ≡ pool_size
    pub in_step : is_skewed (since now) ≡ false
    pub signed : (k m : Str) → str_eq (f.hmac k m) [] ≡ false
    pub registered : handler_for namespace n ≡ some h

  -- `ExecuteInterQuery` with the first and the second connection to a node.
  abbrev pub ask_over : ℕ → (Str → Link) → (Str → Link) → Bool → Str → Req → Result MeshError Resp
  ask_over now links again expired target r =
      execute_inter_query f n.cluster_secret now mine (links target) (again target) expired r

  ask_get :
      (now fuel : ℕ) (second : Link) (expired : Bool) (namespace key : Str) (s : S) (h : Handler S)
      (x : Result Error (Option Object))
      → IsServing now namespace h
      → (h.get_raw key s).0 ≡ as_text x
      → Fits (sign f n.cluster_secret now (request op_get namespace key [] []))
      → FitsResp (answer_object (error_text not_found) (as_text x))
      → execute_inter_query f n.cluster_secret now mine
          (ok (served f n since stale (suc (suc fuel)) s))
          second
          expired
          (request op_get namespace key [] [])
        ≡ over_wire (answer_object (error_text not_found) (as_text x))
  ask_get now fuel second expired namespace key s h x v g i a =
      let r = request op_get namespace key [] [] in
      let t =
        dispatch-get h n.cluster_secret now namespace key s
        ∙ ap (answer_object (error_text not_found)) g in
      execute_inter_query-dispatch f n since stale now mine fuel second expired r s h v.mine_size
        v.stale_size v.in_step v.signed v.registered i (subst FitsResp (sym t) a)
      ∙ ap over_wire t

  module _ (config : ℕ → Bool) (show_int : ℕ → Str) {D : Type 0} (driver : Driver D) {V : Type 0}
      (codec : Codec V) where
    get-answered :
        (ask : Str → Req → Result MeshError Resp) (fuel : ℕ) (reads : Reads) (key : Str)
        (dest : Option Kind) (expired : Option Str) (asked time : ℕ) (disk : D) (d : Database)
        (target : Str) (r : Result DbError (Meta × Option (Doc V)))
        → target_node reads.routed (reconcile_ownership reads d) key ≡ some target
        → forwarded_get codec dest
            (ask target (request op_get (reconcile_ownership reads d).namespace key [] []))
          ≡ some r
        → get config show_int driver codec ask fuel reads key dest expired asked time disk d
          ≡ done (r, reconcile_ownership reads d)
    unfolding get
    get-answered ask fuel reads key dest expired asked time disk d target r t e =
        rw (get, t, e) refl

    -- `Get` of a key that another node owns returns what that node's handler answers for it: the
    -- metadata and the decoded document, the storage's error, or not found. It needs a connection to
    -- the owner that works, a shared secret, clocks in step, and a request and an answer that fit their
    -- frames; whatever the second connection is, it is not used, and neither is the local storage.
    pub get-routed :
        (fuel : ℕ) (reads : Reads) (key : Str) (dest : Option Kind) (over : Option Str)
        (asked time : ℕ) (disk : D) (d : Database) (target : Str) (now serve_fuel : ℕ)
        (links again : Str → Link) (expired : Bool) (s : S) (h : Handler S)
        (x : Result Error (Option Object))
        → target_node reads.routed (reconcile_ownership reads d) key ≡ some target
        → links target ≡ ok (served f n since stale (suc (suc serve_fuel)) s)
        → IsServing now (reconcile_ownership reads d).namespace h
        → (h.get_raw key s).0 ≡ as_text x
        → IsApartAnswer x
        → Fits (
            sign f n.cluster_secret now
              (request op_get (reconcile_ownership reads d).namespace key [] []))
        → FitsResp (answer_object (error_text not_found) (as_text x))
        → get config show_int driver codec
            (ask_over now links again expired)
            fuel
            reads
            key
            dest
            over
            asked
            time
            disk
            d
          ≡ done (read_as codec dest x, reconcile_ownership reads d)
    get-routed fuel reads key dest over asked time disk d target now serve_fuel links again expired
          s h x t l v g p i a =
        let d' = reconcile_ownership reads d in
        let r = request op_get d'.namespace key [] [] in
        get-answered (ask_over now links again expired) fuel reads key dest over asked time disk d
          target (read_as codec dest x) t
          (ap
              (λ (c : Link).
                forwarded_get codec dest
                  (execute_inter_query f n.cluster_secret now mine c (again target) expired r))
              l
            ∙ ap (forwarded_get codec dest)
                (ask_get now serve_fuel (again target) expired d'.namespace key s h x v g i a)
            ∙ forwarded_get-answer_object codec dest x p)
