-- ===== src/Cluster/Mesh/Tests.antt =====
-- Tests and witnesses for the queries between nodes: a hash that keeps its message, and one value.
use jaydb.Cluster.Binary.RoundTrip.Response.{received}
use jaydb.Base.{
  err, ℕ, ◌-◌, ◌≡◌, refl, [], ◌∷◌, Bytes, true, none, some, ok, codes, length, replicate,
  length-replicate, str_eq, lookup, pos, ℤ, arith,
}
use jaydb.Cluster.Binary.Write.{Resp, Req, pool_size}
use jaydb.Cluster.Mesh.{
  execute_inter_query, Formats, Handler, Node, op_get, handler_for, is_skewed, canonical,
  compute_auth, authenticate, sign, dispatch, serve,
}
use jaydb.Cluster.Mesh.Auth.{authenticate-shift}
use jaydb.Cluster.Mesh.Forward.{served, execute_inter_query-dispatch, Fits}

abbrev pub formats : Formats
formats = record {
  hmac = λ secret m. 1 ∷ m;
  sha256 = λ b. b;
  show_int = λ n. n ∷ [];
  quote = λ s. s;
}

abbrev pub one_value : Handler Bytes
one_value = record {
  get_raw = λ key value. (
    ok (some (record { key = key; value = value; etag = codes "t"; mod_time = 5; metadata = [] })),
    value,
  );
  put_raw = λ key value etag old. (
    ok (some (record { key = key; value = value; etag = codes "u"; mod_time = 6; metadata = [] })),
    value,
  );
  delete_raw = λ key etag value. (none, []);
}

abbrev pub node : Node Bytes
node = record {
  cluster_secret = codes "s";
  db_handler = none;
  handlers = (codes "orders", one_value) ∷ [];
}

abbrev pub query : Req
query = record {
  namespace = codes "orders";
  op = op_get;
  key = codes "a";
  value = [];
  expected_etag = [];
  ts = 0;
  auth = [];
}

abbrev pub age : ℕ → ℤ
age ts = pos (7 - ts)

pub stale : Bytes
stale = replicate pool_size 0

pub length-stale : length stale ≡ pool_size
unfolding stale
length-stale = length-replicate {A = ℕ} pool_size 0

program : Unit {0}
unfolding str_eq lookup handler_for is_skewed canonical compute_auth authenticate sign dispatch
    serve
program = tt

authenticate-shift_example :
    authenticate formats
      (codes "s")
      age
      (record query { key = codes "a:b"; expected_etag = codes "c" })
    ≡ authenticate formats
        (codes "s")
        age
        (record query { key = codes "a"; expected_etag = codes "b:c" })
authenticate-shift_example =
    authenticate-shift formats (codes "s") (codes "a") (codes "b") (codes "c") age query

pub signed_query-Fits : Fits (sign formats (codes "s") 6 query)
unfolding program
signed_query-Fits = (
  record {
    auth_fits = omega arith;
    namespace_fits = omega arith;
    key_fits = omega arith;
    etag_fits = omega arith;
    value_fits = omega arith;
  },
  record { op_fits = omega arith; ts_fits = omega arith },
)

abbrev pub found : Resp
found = record {
  object =
      some
        (record { key = codes "a"; value = 4 ∷ []; etag = codes "t"; mod_time = 5; metadata = [] });
  error = [];
}

execute_inter_query-dispatch_example :
    execute_inter_query formats
      (codes "s")
      6
      stale
      (ok (served formats node age stale 2 (4 ∷ [])))
      (err (codes "unreachable"))
      true
      query
    ≡ ok (received found.object [])
unfolding program
execute_inter_query-dispatch_example =
    execute_inter_query-dispatch formats node age stale 6 stale 0 (err (codes "unreachable")) true
      query (4 ∷ []) one_value length-stale length-stale refl (λ s m. refl) refl signed_query-Fits
      (omega arith)
