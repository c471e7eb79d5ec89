-- ===== src/Db/Calls.antt =====
-- The calls of the database on one key, local or forwarded to the owner. `ask` is what
-- `ExecuteInterQuery` returns for a request to a node; the context's error is an argument.
pub mod Deleting
pub mod Owned
pub mod Owning
pub mod Tests
use jaydb.Base.{
  ℕ, [], Str, Bytes, Bool, true, false, Option, none, some, if◌then◌else◌, str_eq, Result, ok, err,
}
use jaydb.Storage.{
  Object, Error, Driver, not_found, already_exists, version_mismatch, other, error_text,
}
use jaydb.Encoding.{Doc, Kind, Codec, CodecError}
use jaydb.Cluster.Binary.Write.{Req, Resp}
use jaydb.Cluster.Mesh.{MeshError, op_get, op_put, op_delete}
use jaydb.Cache.Budget.{Run, done, panicked, stuck}
use jaydb.Cache.Calls as Cache
use jaydb.Cache.Calls.{World}
use jaydb.Db.{Meta, meta_of}
use jaydb.Db.Answers.{
  DbError, storage, decode, encode, inter_query, incomplete_response, context, map_error_string,
  decoded, finish_get, forwarded_get, finish_put, forwarded_put, forwarded_delete,
}
use jaydb.Db.Ownership.{
  Database, Reads, reconcile_ownership, target_node, invalidate_lists, purge_lists,
}

abbrev pub request : ℕ → Str → Str → Bytes → Str → Req
request op namespace key value expected_etag = record {
  namespace = namespace;
  op = op;
  key = key;
  value = value;
  expected_etag = expected_etag;
  ts = 0;
  auth = [];
}

abbrev pub in_world : World → Database → Database
in_world w d = record d { world = w }

abbrev pub changed_key : (ℕ → Str) → Str → Database → Database
changed_key show_int key d = record d { lists = invalidate_lists show_int key d.lists }

module _ (config : ℕ → Bool) (show_int : ℕ → Str) {D : Type 0} (driver : Driver D) {V : Type 0}
    (codec : Codec V) (ask : Str → Req → Result MeshError Resp) where
  -- `readLocal`
  unfoldable pub read_local :
      ℕ → Str → Bool → ℕ → ℕ → D → Database → Run (Result Error (Option Object) × Database)
  read_local fuel key non_owner asked now disk d =
      if non_owner
      then done (driver.get key disk, d)
      else elim (Cache.get_object config driver fuel d.number key asked now disk d.world) [
        | stuck ↦ stuck
        | panicked ↦ panicked
        | done (r, w) ↦ done (r, in_world w d)
      ]

  unfoldable pub get :
      ℕ
      → Reads
      → Str
      → Option Kind
      → Option Str
      → ℕ
      → ℕ
      → D
      → Database
      → Run (Result DbError (Meta × Option (Doc V)) × Database)
  get fuel reads key dest expired asked now disk d =
      let d' = reconcile_ownership reads d in
      elim (target_node reads.routed d' key) [
        | none ↦ finish_get codec dest (read_local fuel key false asked now disk d')
        | some target ↦
            elim (forwarded_get codec dest (ask target (request op_get d'.namespace key [] []))) [
              | some r ↦ done (r, d')
              | none ↦ elim expired [
                | some c ↦ done (err (context c), d')
                | none ↦ finish_get codec dest (read_local fuel key true asked now disk d')
              ]
            ]
      ]

  -- Behind the cache's `Put`: the lists that the key is on go, if it succeeded.
  abbrev pub placed :
      Str
      → Database
      → Run (Result Error (Option Object) × D × World)
      → Run (Result Error (Option Object) × D × Database)
  placed key d stuck = stuck
  placed key d panicked = panicked
  placed key d (done (err e, disk, w)) = done (err e, disk, in_world w d)
  placed key d (done (ok o, disk, w)) = done (ok o, disk, changed_key show_int key (in_world w d))

  -- `PutRaw`, behind the reconciliation
  abbrev pub put_here :
      ℕ → Str → Bytes → Str → ℕ → D → Database → Run (Result Error (Option Object) × D × Database)
  put_here fuel key value expected_etag now disk d =
      placed key d
        (Cache.put_object config driver fuel d.number key value expected_etag now disk d.world)

  unfoldable pub put :
      ℕ → Reads → Str → Doc V → Str → ℕ → D → Database → Run (Result DbError Meta × D × Database)
  put fuel reads key doc expected_etag now disk d =
      let d' = reconcile_ownership reads d in
      elim (codec.marshal doc) [
        | err e ↦ done (err (encode e), disk, d')
        | ok value ↦ elim (target_node reads.routed d' key) [
          | none ↦ finish_put (put_here fuel key value expected_etag now disk d')
          | some target ↦
              elim (forwarded_put target
                (ask target (request op_put d'.namespace key value expected_etag))) [
                  | err e ↦ done (err e, disk, d')
                  | ok m ↦ done (ok m, disk, changed_key show_int key d')
                ]
        ]
      ]

  -- `DeleteRaw`, behind the reconciliation
  abbrev pub delete_here : Str → Str → D → Database → Option Error × D × Database
  delete_here key expected_etag disk d =
      let (r, disk', w) =
        Cache.delete_object config driver d.number key expected_etag disk d.world in
      (r, disk', elim r [ none ↦ changed_key show_int key (in_world w d) | some e ↦ in_world w d ])

  unfoldable pub delete : Reads → Str → Str → D → Database → Option DbError × D × Database
  delete reads key expected_etag disk d =
      let d' = reconcile_ownership reads d in
      elim (target_node reads.routed d' key) [
        | none ↦
            let (r, disk', d'') = delete_here key expected_etag disk d' in
            (elim r [ none ↦ none | some e ↦ some (storage e) ], disk', d'')
        | some target ↦
            elim (forwarded_delete
              (ask target (request op_delete d'.namespace key [] expected_etag))) [
                | some e ↦ (some e, disk, d')
                | none ↦ (none, disk, changed_key show_int key d')
              ]
      ]

  -- The owner's side of a forwarded call.
  unfoldable pub get_raw :
      ℕ → Reads → Str → ℕ → ℕ → D → Database → Run (Result Error (Option Object) × Database)
  get_raw fuel reads key asked now disk d =
      read_local fuel key false asked now disk (reconcile_ownership reads d)

  unfoldable pub put_raw :
      ℕ
      → Reads
      → Str
      → Bytes
      → Str
      → ℕ
      → D
      → Database
      → Run (Result Error (Option Object) × D × Database)
  put_raw fuel reads key value expected_etag now disk d =
      put_here fuel key value expected_etag now disk (reconcile_ownership reads d)

  unfoldable pub delete_raw : Reads → Str → Str → D → Database → Option Error × D × Database
  delete_raw reads key expected_etag disk d =
      delete_here key expected_etag disk (reconcile_ownership reads d)

-- `Close`: the caches are emptied and leave the budget. The handler that the node drops and the
-- driver's `Close` are other components'.
unfoldable pub close : (ℕ → Bool) → ℕ → Database → Run Database
close config fuel d = elim (Cache.close config fuel d.number d.world) [
  | stuck ↦ stuck
  | panicked ↦ panicked
  | done w ↦ done (record d { lists = purge_lists d.lists; world = w })
]
