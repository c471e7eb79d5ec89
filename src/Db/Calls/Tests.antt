-- ===== src/Db/Calls/Tests.antt =====
-- Witnesses for the calls of the database: node a:1 of the reconciliation's tests, with no answer from
-- the other node.
use jaydb.Base.{
  arith, subst, ap, Option, ℕ, [], ◌∷◌, Str, Bool, Result, ok, err, some, none, codes, refl,
}
use jaydb.Storage.{Object, Error, Driver, not_found}
use jaydb.Encoding.{Doc, text, to_text, raw_codec, Codec}
use jaydb.Cluster.Binary.Write.{Req, Resp}
use jaydb.Cluster.Mesh.{MeshError, dial}
use jaydb.Cache.Budget.{Run, done, panicked, stuck}
use jaydb.Cache.Calls.{World, put_object}
use jaydb.Cache.Calls.Tests as Cache
use jaydb.Db.Ownership.Tests as Ring
use jaydb.Cache.Calls.Tests.{config, full, slot, Slot, key_a, start}
use jaydb.Db.{Meta}
use jaydb.Db.Ownership.{Database, reconcile_ownership, purge_for, purge_foreign}
use jaydb.Db.Ownership.Purging.{IsOwned}
use jaydb.Db.Ownership.Tests.{joined, database, still, not_yet}
use jaydb.Db.Answers.{DbError}
use jaydb.Db.Calls.{get, put, delete}
use jaydb.Db.Calls.Owned.{IsReady}
use jaydb.Db.Calls.Owning.{Returns, get-Returns, changes-Returns}
use jaydb.Cache.Calls.Admit.{HasFuel}

abbrev pub digit : ℕ → Str
digit n = n ∷ []

abbrev pub codec : Codec Bool
codec = raw_codec

abbrev pub driver : Driver (Unit {0})
driver = record {
  get = λ key disk. err not_found;
  put = λ key value etag disk. (
    ok (some (record { key = key; value = value; etag = etag; mod_time = 1; metadata = [] })),
    disk,
  );
  delete = λ key etag disk. (some not_found, disk);
}

abbrev pub silent : Str → Req → Result MeshError Resp
silent target r = err (dial (codes "unreachable"))

pub ready : IsReady config digit driver codec silent joined (codes "a:1") 0 still database
ready = record {
  clustered = refl;
  ringed = refl;
  first_ring = refl;
  routed_ring = refl;
  live_ring = λ key s. refl;
  exact = full.exact;
  owned = not_yet;
}

-- The world that the tests of the cache leave, computed.
abbrev stored : Run (Result Error (Option Object) × Slot × World)
stored = put_object config slot 2 0 key_a (1 ∷ 2 ∷ 3 ∷ []) [] 9 none start

abbrev world_of : Run (Result Error (Option Object) × Slot × World) → World
world_of stuck = start
world_of panicked = start
world_of (done (r, disk, w)) = w

computed :
    HasFuel config 5 (reconcile_ownership still (record database { world = world_of stored })).world
unfolding Cache.program Ring.program reconcile_ownership purge_for purge_foreign
computed = omega arith

pub enough : HasFuel config 5 (reconcile_ownership still database).world
enough =
    subst (λ w. HasFuel config 5 (reconcile_ownership still (record database { world = w })).world)
      (ap world_of full.returns) computed

get-Returns_example :
    Returns
      (λ (x : Result DbError (Meta × Option (Doc Bool)) × Database).
        IsOwned joined (codes "a:1") x.1)
      (get config digit driver codec silent 5 still
        (codes "b")
        (some to_text)
        none
        9
        10
        tt
        database)
get-Returns_example =
    get-Returns config digit driver codec silent joined (codes "a:1") 0 5 still (codes "b")
      (some to_text) none 9 10 tt database ready enough (λ e. cc)

changes-Returns_example :
    Returns
      (λ (x : Result DbError Meta × Unit {0} × Database). IsOwned joined (codes "a:1") x.2)
      (put config digit driver codec silent 5 still
        (codes "a")
        (text (codes "v"))
        (codes "e")
        10
        tt
        database)
    × IsOwned joined
        (codes "a:1")
        (delete config digit driver codec silent still (codes "a") (codes "e") tt database).2
changes-Returns_example =
    changes-Returns config digit driver codec silent joined (codes "a:1") 0 5 still (codes "a")
      (text (codes "v")) (codes "e") 10 tt database ready enough (λ value e. cc)
