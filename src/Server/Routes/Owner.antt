-- ===== src/Server/Routes/Owner.antt =====
-- The owner of a key as the program has it: the server's calls of the database, and the handler that the
-- database registers for the requests of other nodes, over one storage and one cache.
use jaydb.Base.{
  ℕ, ◌≡◌, refl, sym, subst, inl, inr, List, [], Str, Bytes, Bool, false, Option, none, some, Result,
  ok, err, str_eq, codes, Bool-cases,
}
use jaydb.Storage.{Object, Error, Driver, other}
use jaydb.Encoding.{
  Doc, bytes, raw_message, text, other as other_doc, to_bytes, Json, json_codec, json_marshal,
  json_unmarshal,
}
use jaydb.Cluster.Binary.Write.{Req, Resp}
use jaydb.Cluster.Mesh.{MeshError, Handler, dispatch, sign}
use jaydb.Cluster.Mesh as Mesh
use jaydb.Sharding.Ring.{Ring, get_node}
use jaydb.Cache.Budget.{Run, done, panicked, stuck}
use jaydb.Cache.Calls as Cache
use jaydb.Cache.Calls.{World, shard_for, is_fresh}
use jaydb.Cache.Shard.{find_element, Item as Cached}
use jaydb.Cache.Manager.{Manager}
use jaydb.Cache.Calls.Accounts.{IsExact}
use jaydb.Cache.Calls.Admit.{HasFuel}
use jaydb.Cache.Calls.GetPut.{due, get_object-Got, put_object-Wrote}
use jaydb.Db.{Meta, Item}
use jaydb.Db.Ownership.{Database, Reads, reconcile_ownership, target_node}
use jaydb.Db.Answers.{DbError, storage, finish_get, finish_put}
use jaydb.Db.Calls.{
  read_local, get, placed, put_here, put, delete, get_raw, put_raw, delete_raw, in_world,
}
use jaydb.Db.Calls.Owning.{IsFilled, due-IsFilled}
use jaydb.Db.Forwarding.{
  over_wire, IsApartAnswer, IsApartDelete, as_text, delete_text, written_as, deleted_as,
}
use jaydb.Server.{Db, Request, Formats, Server, ClusterNode}
use jaydb.Server.Handlers.{forwarded_etag}
use jaydb.Server.Handlers.Agreement.{read_raw}
use jaydb.Server.Routes.Anywhere.{Serves, mesh_request, handle_key-anywhere}
use jaydb.Server.Routes.{handle_key}

-- The bytes that `Get` has put into the slice that the server passes.
abbrev pub bytes_of : {V : Type 0} → Option (Doc V) → Bytes
bytes_of none = []
bytes_of (some (bytes b)) = b
bytes_of (some (raw_message b)) = b
bytes_of (some (text b)) = b
bytes_of (some (other_doc v)) = []

-- A call that panics, or runs on, answers nothing: an error stands for that.
abbrev no_answer : Error
no_answer = other (codes "no answer")

module _ (config : ℕ → Bool) (show_int : ℕ → Str) {D : Type 0} (driver : Driver D) {V : Type 0}
    (json : Json V) (ask : Str → Req → Result MeshError Resp) (fuel : ℕ) (reads : Reads)
    (asked now : ℕ) where
  abbrev get_answer :
      D × Database
      → Run (Result DbError (Meta × Option (Doc V)) × Database)
      → Result DbError (Meta × Bytes) × (D × Database)
  get_answer s stuck = (err (storage no_answer), s)
  get_answer s panicked = (err (storage no_answer), s)
  get_answer s (done (err e, d)) = (err e, (s.0, d))
  get_answer s (done (ok (m, doc), d)) = (ok (m, bytes_of doc), (s.0, d))

  abbrev put_answer :
      D × Database → Run (Result DbError Meta × D × Database) → Result DbError Meta × (D × Database)
  put_answer s stuck = (err (storage no_answer), s)
  put_answer s panicked = (err (storage no_answer), s)
  put_answer s (done (r, disk, d)) = (r, (disk, d))

  abbrev raw_answer :
      D × Database
      → Run (Result Error (Option Object) × Database)
      → Result Str (Option Object) × (D × Database)
  raw_answer s stuck = (as_text (err no_answer), s)
  raw_answer s panicked = (as_text (err no_answer), s)
  raw_answer s (done (r, d)) = (as_text r, (s.0, d))

  abbrev raw_put_answer :
      D × Database
      → Run (Result Error (Option Object) × D × Database)
      → Result Str (Option Object) × (D × Database)
  raw_put_answer s stuck = (as_text (err no_answer), s)
  raw_put_answer s panicked = (as_text (err no_answer), s)
  raw_put_answer s (done (r, disk, d)) = (as_text r, (disk, d))

  -- The database as the server calls it; a listing is of no account here.
  abbrev pub owner_db :
      (Str → ℕ → D × Database → Result DbError (List Item) × (D × Database)) → Db (D × Database)
  owner_db listed = record {
    get = λ key s. get_answer s (
        get config show_int driver (json_codec json) ask fuel reads key (some to_bytes) none asked
          now s.0 s.1);
    put = λ key body etag s. put_answer s (
        put config show_int driver (json_codec json) ask fuel reads key (bytes body) etag now s.0
          s.1);
    delete = λ key etag s.
        let (r, disk, d) =
          delete config show_int driver (json_codec json) ask reads key etag s.0 s.1 in
        (r, (disk, d));
    list = listed;
  }

  -- The database as the handler of other nodes' requests.
  abbrev pub owner_handler : Handler (D × Database)
  owner_handler = record {
    get_raw = λ key s.
        raw_answer s
          (get_raw config show_int driver (json_codec json) ask fuel reads key asked now s.0 s.1);
    put_raw = λ key value etag s. raw_put_answer s (
        put_raw config show_int driver (json_codec json) ask fuel reads key value etag now s.0 s.1);
    delete_raw = λ key etag s.
        let (r, disk, d) =
          delete_raw config show_int driver (json_codec json) ask reads key etag s.0 s.1 in
        (delete_text r, (disk, d));
  }

  deleted_lem :
      (e : Option Error) → elim e [ none ↦ none | some x ↦ some (storage x) ] ≡ deleted_as e
  deleted_lem none = refl
  deleted_lem (some e) = refl

  get_answer-read_raw :
      (s : D × Database) (r : Result Error (Option Object)) (d : Database)
      → IsFilled r
      → (get_answer s (finish_get (json_codec json) (some to_bytes) (done (r, d)))).0 ≡ read_raw r
  unfolding json_unmarshal
  get_answer-read_raw s (err e) d h = refl
  get_answer-read_raw s (ok none) d h = absurd (h refl)
  get_answer-read_raw s (ok (some o)) d h = refl

  put_answer-written_as :
      (s : D × Database) (d : Database) (key : Str) (r : Result Error (Option Object)) (disk : D)
      (w : World)
      → IsFilled r
      → ((put_answer s (
            finish_put
              (placed config show_int driver (json_codec json) ask key d (done (r, disk, w))))).0
          ≡ written_as r)
        × ((raw_put_answer s
              (placed config show_int driver (json_codec json) ask key d (done (r, disk, w)))).0
            ≡ as_text r)
  put_answer-written_as s d key (err e) disk w h = (refl, refl)
  put_answer-written_as s d key (ok none) disk w h = absurd (h refl)
  put_answer-written_as s d key (ok (some o)) disk w h = (refl, refl)

  due-IsApart :
      (m : Manager) (o : Option (ℕ × Cached)) (r : Result Error (Option Object))
      → IsApartAnswer r
      → IsApartAnswer (due m asked o r)
  due-IsApart m none r h = h
  due-IsApart m (some (i, x)) r h = elim (Bool-cases (is_fresh m x.last_accessed asked)) [
    | inl e ↦ rw e tt
    | inr e ↦ rw e h
  ]

  module _ (inflight : ℕ) (disk : D) (d : Database) (r : Request) (key : Str) where
    -- The database is the key's owner, its budget's count is exact, there is fuel for the rounds of
    -- `Reserve`, and the storage gives an object where it succeeds, and errors that are no other's text.
    pub record IsOwner : Type 0 where
      pub owned : target_node reads.routed (reconcile_ownership reads d) key ≡ none
      pub exact :
          IsExact config inflight
            (reconcile_ownership reads d).number
            (reconcile_ownership reads d).world
      pub enough : HasFuel config fuel (reconcile_ownership reads d).world
      pub get_filled : IsFilled (driver.get key disk)
      pub put_filled : IsFilled (driver.put key r.body (forwarded_etag r) disk).0
      pub get_apart : IsApartAnswer (driver.get key disk)
      pub put_apart : IsApartAnswer (driver.put key r.body (forwarded_etag r) disk).0
      pub delete_apart : IsApartDelete (driver.delete key r.if_match disk).0

    pub owner_db-Serves :
        (listed : Str → ℕ → D × Database → Result DbError (List Item) × (D × Database))
        → IsOwner
        → Serves (owner_db listed) (disk, d) owner_handler (disk, d) r key
    unfolding get put delete get_raw put_raw delete_raw read_local Cache.delete_object json_marshal
    owner_db-Serves listed v =
        let d' = reconcile_ownership reads d in
        let g =
          get_object-Got config driver fuel inflight d'.number key asked now disk d'.world v.exact
            v.enough in
        let p =
          put_object-Wrote config driver fuel inflight d'.number key r.body (forwarded_etag r) now
            disk d'.world v.exact v.enough in
        let m = d'.world.pool d'.number in
        let found = find_element key (shard_for key m) in
        let filled : IsFilled g.result =
          subst IsFilled (sym g.source)
            (due-IsFilled m asked found (driver.get key disk) v.get_filled) in
        let puts =
          put_answer-written_as (disk, d) d' key (driver.put key r.body (forwarded_etag r) disk).0
            (driver.put key r.body (forwarded_etag r) disk).1 p.world v.put_filled in
        record {
          reads = g.result;
          writes = (driver.put key r.body (forwarded_etag r) disk).0;
          deletes = (driver.delete key r.if_match disk).0;
          get_raw_reads = rw (get_raw, read_local, g.returns) refl;
          put_raw_writes = rw (put_raw, put_here, p.returns) puts.1;
          delete_raw_deletes = refl;
          get_reads =
              rw (get, v.owned, read_local, g.returns)
                (get_answer-read_raw (disk, d) g.result (in_world g.world d') filled);
          put_writes = rw (put, v.owned, put_here, p.returns) puts.0;
          delete_deletes = rw (delete, v.owned) (deleted_lem (driver.delete key r.if_match disk).0);
          reads_apart =
              subst IsApartAnswer (sym g.source)
                (due-IsApart m found (driver.get key disk) v.get_apart);
          writes_apart = v.put_apart;
          deletes_apart = v.delete_apart;
        }

-- Two servers with one ring, the second, over a database of this program, at the address that the ring
-- gives for the key, where its ring routes the key to itself, the budget's count is exact, there is
-- fuel for the rounds of `Reserve`, and the storage gives an object where it succeeds, and errors whose
-- text is no other's. If a query to that address is answered as the database's handler answers the
-- signed query, then a client gets the same reply from both servers, and the first leaves its own
-- database alone.
pub handle_key-alike :
    (f : Formats) (mf : Mesh.Formats) {S D V : Type 0}
    (ask back : Str → Req → Result MeshError Resp) (config : ℕ → Bool) (show_int : ℕ → Str)
    (driver : Driver D) (json : Json V) (fuel : ℕ) (reads : Reads) (asked now : ℕ)
    (listed : Str → ℕ → D × Database → Result DbError (List Item) × (D × Database)) (inflight : ℕ)
    (disk : D) (d : Database) (secret : Str) (sent : ℕ) (r : Request) (key target : Str)
    (ring : Ring) (n n' : ClusterNode) (server : Server S) (owner : Server (D × Database)) (s : S)
    → server.ring ≡ some ring
    → owner.ring ≡ some ring
    → server.cluster_node ≡ some n
    → owner.cluster_node ≡ some n'
    → get_node ring key ≡ some target
    → n'.mesh_addr ≡ target
    → str_eq target [] ≡ false
    → str_eq target n.mesh_addr ≡ false
    → owner.db ≡ owner_db config show_int driver json back fuel reads asked now listed
    → IsOwner config show_int driver json back fuel reads asked now inflight disk d r key
    → ask target (mesh_request r key)
      ≡ over_wire
          (dispatch mf
            (owner_handler config show_int driver json back fuel reads asked now)
            (sign mf secret sent (mesh_request r key))
            (disk, d)).0
    → ((handle_key f ask server r key s).reply ≡ (handle_key f ask owner r key (disk, d)).reply)
      × ((handle_key f ask server r key s).state ≡ s)
handle_key-alike f mf ask back config show_int driver json fuel reads asked now listed inflight disk
      d secret sent r key target ring n n' server owner s l l' c c' g m e o b v a =
    let h = owner_handler config show_int driver json back fuel reads asked now in
    let serves =
      owner_db-Serves config show_int driver json back fuel reads asked now inflight disk d r key
        listed v in
    handle_key-anywhere f mf ask secret sent r key target ring n n' server owner s (disk, d) h
      (disk, d) l l' c c' g m e o (subst (λ x. Serves x (disk, d) h (disk, d) r key) (sym b) serves)
      a
