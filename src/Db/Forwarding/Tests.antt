-- ===== src/Db/Forwarding/Tests.antt =====
-- Witnesses for the forwarded calls: the owner has the value of the mesh's tests.
use jaydb.Base.{
  insert, lookup, str_eq, ℕ, ◌≡◌, refl, [], ◌∷◌, Str, Bool, true, some, none, ok, err, codes, arith,
}
use jaydb.Storage.{Object, Error, Driver, other, not_found}
use jaydb.Encoding.{Codec, to_text, raw_codec}
use jaydb.Db.Answers.{map_error_string}
use jaydb.Db.Calls.{get, request}
use jaydb.Cache.Budget.{done}
use jaydb.Cache.Calls.Tests.{config}
use jaydb.Sharding.Ring.{add_node, new_ring}
use jaydb.Cluster.Mesh.{Link, op_get, sign, compute_auth, canonical, is_skewed, handler_for}
use jaydb.Cluster.Mesh.Forward.{Fits, served}
use jaydb.Cluster.Mesh.Tests.{formats, node, age, stale, length-stale, one_value}
use jaydb.Db.Ownership.{reconcile_ownership, purge_for, purge_foreign}
use jaydb.Db.Ownership.Tests.{still, database, routes_b}
use jaydb.Db.Forwarding.Routed.{get-routed, ask_over}
use jaydb.Db.Forwarding.{IsApart, read_as}

abbrev codec : Codec Bool
codec = raw_codec

abbrev broken : Error
broken = other (codes "disk on fire")

abbrev codes_of : ℕ → Str
codes_of n = n ∷ []

-- A storage with nothing in it.
abbrev driver : Driver (Unit {0})
driver = record {
  get = λ key disk. err not_found;
  put = λ key value etag disk. (err broken, disk);
  delete = λ key etag disk. (some not_found, disk);
}

abbrev links : Str → Link
links target = ok (served formats node age stale 2 (4 ∷ []))

abbrev one_object : Str → Object
one_object key = record { key = key; value = 4 ∷ []; etag = codes "t"; mod_time = 5; metadata = [] }

program : Unit {0}
unfolding map_error_string str_eq lookup insert add_node new_ring reconcile_ownership purge_for
    purge_foreign sign compute_auth canonical is_skewed handler_for
program = tt

broken-IsApart : IsApart broken
unfolding program
broken-IsApart = (refl, refl, refl, refl)

fits : Fits (
    sign formats
      (codes "s")
      6
      (request op_get (reconcile_ownership still database).namespace (codes "b") [] []))
unfolding program
fits = (
  record {
    auth_fits = omega arith;
    namespace_fits = omega arith;
    key_fits = omega arith;
    etag_fits = omega arith;
    value_fits = omega arith;
  },
  record { op_fits = omega arith; ts_fits = omega arith },
)

get-routed_example :
    get config codes_of driver codec
      (ask_over formats node age stale stale 6 links links true)
      5
      still
      (codes "b")
      (some to_text)
      none
      9
      10
      tt
      database
    ≡ done (
      read_as codec (some to_text) (ok (some (one_object (codes "b")))),
      reconcile_ownership still database,
    )
unfolding program
get-routed_example =
    get-routed formats node age stale stale config codes_of driver codec 5 still (codes "b")
      (some to_text) none 9 10 tt database (codes "c:1") 6 0 links links true (4 ∷ []) one_value
      (ok (some (one_object (codes "b")))) routes_b refl
      (record {
        mine_size = length-stale;
        stale_size = length-stale;
        in_step = refl;
        signed = (λ k m. refl);
        registered = refl;
      })
      refl tt fits (omega arith)
