-- ===== src/Server/Routes/Tests.antt =====
-- Witnesses for the routes: a ring of two nodes, of which the second owns the key "b" and has one value.
use jaydb.Base.{
  ◌≡◌, refl, arith, true, [], ◌∷◌, Str, Bytes, some, none, Result, ok, err, codes, str_eq, sort,
  insert_sorted, str_ltb, contains, insert, lookup,
}
use jaydb.Storage.{Object, not_found}
use jaydb.Cluster.Binary.Write.{Req, Resp}
use jaydb.Cluster.Mesh.{MeshError, dispatch, sign, serve, handler_for}
use jaydb.Cluster.Mesh.Tests.{one_value}
use jaydb.Cluster.Mesh.Tests as Mesh
use jaydb.Sharding.Ring.{new_ring, add_node, get_node, key_index, shard_index, has_node}
use jaydb.Sharding.Partition.{partition_key, hash_string, trim, trim_left, split, join}
use jaydb.Db.Ownership.Tests.{joined, self}
use jaydb.Db.Forwarding.{over_wire, written_as, deleted_as}
use jaydb.Server.{Db, Request, Formats, Server}
use jaydb.Server.Handlers.Agreement.{read_raw}
use jaydb.Server.Routes.{method_get, handle_key, handle_request}
use jaydb.Server.Routes.Counted.{is_failed}
use jaydb.Server.Routes.Guarded.{IsKey, handle_request-guards}
use jaydb.Server.Routes.Namespace.{handle_key-unserved}
use jaydb.Db.{Meta}
use jaydb.Db.Answers.{DbError, storage}
use jaydb.Encoding.{Json}
use jaydb.Cache.Calls.Tests.{config}
use jaydb.Db.Ownership.{Database, reconcile_ownership, purge_for, purge_foreign}
use jaydb.Db.Ownership.Tests.{database, still}
use jaydb.Db.Ownership.Tests as Ring
use jaydb.Db.Calls.Owning.{reconciled-IsExact}
use jaydb.Db.Calls.Tests.{digit, driver, silent, codec, ready, enough}
use jaydb.Server.Routes.Owner.{owner_db, owner_handler, IsOwner, handle_key-alike}

abbrev pub formats : Formats
formats = record {
  mesh_text = λ e. codes "mesh";
  codec_text = λ e. codes "codec";
  meta_json = λ m. m.etag;
  items_json = λ items. [];
}

abbrev read_object : Str → Bytes → Object
read_object key value = record {
  key = key;
  value = value;
  etag = codes "t";
  mod_time = 5;
  metadata = [];
}

abbrev written_object : Str → Bytes → Object
written_object key value = record {
  key = key;
  value = value;
  etag = codes "u";
  mod_time = 6;
  metadata = [];
}

abbrev pub value_db : Db Bytes
value_db = record {
  get = λ key value. (read_raw (ok (some (read_object key value))), value);
  put = λ key value etag old. (written_as (ok (some (written_object key old))), value);
  delete = λ key etag value. (deleted_as none, []);
  list = λ prefix limit value. (ok [], value);
}

abbrev pub server_at : Str → Server Bytes
server_at addr = record {
  db = value_db;
  ring = some joined;
  node_addr = addr;
  cluster_node = some (record { ring = some joined; mesh_addr = addr });
}

abbrev pub get_b : Request
get_b = record {
  method = method_get;
  path = codes "/v1/kv/b";
  body = [];
  if_match = [];
  if_none_match = [];
  limit = 0;
}

abbrev pub ask : Str → Req → Result MeshError Resp
ask target r = over_wire (dispatch Mesh.formats one_value (sign Mesh.formats [] 6 r) (4 ∷ [])).0

program : Unit {0}
unfolding partition_key hash_string trim trim_left split join new_ring add_node get_node key_index
    shard_index has_node str_eq str_ltb contains insert lookup insert_sorted sort dispatch sign
    handle_key
program = tt

abbrev no_json : Json (Unit {0})
no_json = record { marshal = λ v. ok []; unmarshal = λ b. ok tt }

-- The database of the calls' tests, at the node that owns the key "a".
abbrev owner : Server (Unit {0} × Database)
owner = record {
  db = owner_db config digit driver no_json silent 5 still 9 10 (λ prefix limit s. (ok [], s));
  ring = some joined;
  node_addr = self;
  cluster_node = some (record { ring = some joined; mesh_addr = self });
}

abbrev get_a : Request
get_a = record get_b { path = codes "/v1/kv/a" }

abbrev ask_owner : Str → Req → Result MeshError Resp
ask_owner target r =
    over_wire
      (dispatch Mesh.formats (owner_handler config digit driver no_json silent 5 still 9 10)
        (sign Mesh.formats [] 6 r) (tt, database)).0

database-IsOwner :
    IsOwner config digit driver no_json silent 5 still 9 10 0 tt database get_a (codes "a")
unfolding program Ring.program reconcile_ownership purge_for purge_foreign
database-IsOwner = record {
  owned = refl;
  exact =
      reconciled-IsExact config digit driver codec silent joined (codes "a:1") 0 still database
        ready;
  enough = enough;
  get_filled = λ e. cc;
  put_filled = λ e. cc;
  get_apart = tt;
  put_apart = tt;
  delete_apart = tt;
}

handle_key-alike_example :
    ((handle_key formats ask_owner (server_at (codes "c:1")) get_a (codes "a") []).reply
      ≡ (handle_key formats ask_owner owner get_a (codes "a") (tt, database)).reply)
    × ((handle_key formats ask_owner (server_at (codes "c:1")) get_a (codes "a") []).state ≡ [])
unfolding program Ring.program
handle_key-alike_example =
    handle_key-alike formats Mesh.formats ask_owner silent config digit driver no_json 5 still 9 10
      (λ prefix limit s. (ok [], s)) 0 tt database [] 6 get_a (codes "a") self joined
      (record { ring = some joined; mesh_addr = codes "c:1" })
      (record { ring = some joined; mesh_addr = self }) (server_at (codes "c:1")) owner [] refl refl
      refl refl refl refl refl refl refl database-IsOwner refl

-- The node of the mesh's tests has one handler, for the namespace "orders".
abbrev ask_orders : Str → Req → Result MeshError Resp
ask_orders target r =
    over_wire (serve Mesh.formats Mesh.node Mesh.age (sign Mesh.formats (codes "s") 6 r) (4 ∷ [])).0

handle_key-unserved_example :
    is_failed (handle_key formats ask_orders (server_at self) get_b (codes "b") []).reply ≡ true
unfolding program handler_for
handle_key-unserved_example =
    handle_key-unserved formats Mesh.formats ask_orders (codes "s") 6 Mesh.age Mesh.node (4 ∷ [])
      (codes "c:1") refl get_b (codes "b") joined (record { ring = some joined; mesh_addr = self })
      (server_at self) [] refl refl refl refl refl refl

-- A database that treats the empty key in a way of its own.
abbrev odd_get : Str → Bytes → Result DbError (Meta × Bytes) × Bytes
odd_get [] value = (err (storage not_found), [])
odd_get (c ∷ cs) value = value_db.get (c ∷ cs) value

abbrev odd_db : Db Bytes
odd_db = record value_db { get = odd_get }

value_db-odd_db : (key : Str) (s : Bytes) → IsKey key → value_db.get key s ≡ odd_db.get key s
value_db-odd_db [] s k = ground (arith, k.some_byte)
value_db-odd_db (c ∷ cs) s k = refl

handle_request-guards_example :
    handle_request formats ask (server_at (codes "c:1")) get_b (4 ∷ [])
    ≡ handle_request formats ask (record (server_at (codes "c:1")) { db = odd_db }) get_b (4 ∷ [])
handle_request-guards_example =
    handle_request-guards formats ask (server_at (codes "c:1")) odd_db
      (record {
        get_alike = value_db-odd_db;
        put_alike = λ key body etag s k b. refl;
        delete_alike = λ key etag s k. refl;
        list_alike = λ prefix limit s l m. refl;
      })
      get_b (4 ∷ [])
