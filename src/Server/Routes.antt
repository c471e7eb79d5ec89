-- ===== src/Server/Routes.antt =====
-- `HandleRequest`: the paths, the checks of a key, and the owner of a key.
pub mod Anywhere
pub mod Counted
pub mod Guarded
pub mod Namespace
pub mod Owner
mod Tests
use jaydb.Base.{
  ℕ, Str, Bytes, List, [], ◌∷◌, ◌++◌, Option, none, some, Bool, true, false, ◌||◌, ◌&&◌, not,
  Result, codes, if◌then◌else◌, ltb, ◌==◌, length, drop, str_eq, has_prefix,
}
use jaydb.Cluster.Binary.Write.{Req, Resp}
use jaydb.Cluster.Mesh.{MeshError}
use jaydb.Sharding.Ring.{Ring, get_node}
use jaydb.Server.{
  Db, Request, Reply, failed, json, exposition, Outcome, Formats, Server, ClusterNode,
}
use jaydb.Server.Handlers.{
  handle_get, handle_put, handle_delete, handle_list, forward_get_via_mesh, forward_put_via_mesh,
  forward_delete_via_mesh, outcome, Answer,
}

abbrev pub method_get : Str
method_get = codes "GET"

abbrev pub method_put : Str
method_put = codes "PUT"

abbrev pub method_delete : Str
method_delete = codes "DELETE"

abbrev pub metrics_path : Str
metrics_path = codes "/metrics"

abbrev pub health_path : Str
health_path = codes "/v1/health"

abbrev pub kv_path : Str
kv_path = codes "/v1/kv/"

abbrev pub list_path : Str
list_path = codes "/v1/list/"

abbrev pub max_key_length : ℕ
max_key_length = 1024

-- A rune below 32 or the rune 127 is one byte of the key, and these bytes are always runes.
unfoldable pub has_control : Str → Bool
has_control [] = false
has_control (c ∷ cs) = (ltb c 32 || (c == 127)) || has_control cs

-- The checks of a key.
abbrev pub refused_key : Str → Option Reply
refused_key key =
    if str_eq key []
    then some (failed 400 (codes "key path is required"))
    else if ltb max_key_length (length key)
    then some (failed 400 (codes "key path too long (max 1024 bytes)"))
    else if has_control key
    then some (failed 400 (codes "key contains invalid characters"))
    else none

abbrev pub not_allowed : Reply
not_allowed = failed 405 (codes "method not allowed")

-- The other node that owns the key, if there is one.
abbrev pub owner_of : Str → ClusterNode → Option Ring → Option Str
owner_of key n none = none
owner_of key n (some r) = elim (get_node r key) [
  | none ↦ none
  | some target ↦
      if not (str_eq target []) && not (str_eq target n.mesh_addr) then some target else none
]

module _ (f : Formats) {S : Type 0} where
  -- The switch on the method, at the owner.
  unfoldable pub handle_here : Db S → Request → Str → S → Outcome S
  handle_here db r key s =
      if str_eq r.method method_get
      then handle_get f db key s
      else if str_eq r.method method_put
      then handle_put f db r key s
      else if str_eq r.method method_delete
      then handle_delete f db r key s
      else outcome (not_allowed, []) s

module _ (f : Formats) (ask : Str → Req → Result MeshError Resp) where
  unfoldable pub forward_via_mesh : Request → Str → Str → Answer
  forward_via_mesh r target key =
      if str_eq r.method method_get
      then forward_get_via_mesh f ask target key
      else if str_eq r.method method_put
      then forward_put_via_mesh f ask r target key
      else if str_eq r.method method_delete
      then forward_delete_via_mesh f ask r target key
      else (not_allowed, [])

  module _ {S : Type 0} where
    unfoldable pub handle_key : Server S → Request → Str → S → Outcome S
    handle_key server r key s = elim (refused_key key) [
      | some reply ↦ outcome (reply, []) s
      | none ↦ elim server.cluster_node [
        | none ↦ handle_here f server.db r key s
        | some n ↦ elim (owner_of key n server.ring) [
          | none ↦ handle_here f server.db r key s
          | some target ↦ outcome (forward_via_mesh r target key) s
        ]
      ]
    ]

    -- `HandleRequest`, without the record of the request itself.
    unfoldable pub handle_request : Server S → Request → S → Outcome S
    handle_request server r s =
        if str_eq r.path metrics_path
        then outcome (exposition, []) s
        else if str_eq r.path health_path
        then outcome (json none (codes "{\"status\":\"ok\"}"), []) s
        else if has_prefix r.path kv_path
        then handle_key server r (drop (length kv_path) r.path) s
        else if has_prefix r.path list_path
        then handle_list f server.db r (drop (length list_path) r.path) s
        else outcome (failed 404 (codes "not found"), []) s

-- `getPathPrefix`
unfoldable pub get_path_prefix : Str → Str
get_path_prefix path =
    if str_eq path metrics_path
    then metrics_path
    else if str_eq path health_path
    then health_path
    else if has_prefix path kv_path
    then codes "/v1/kv"
    else if has_prefix path list_path
    then codes "/v1/list"
    else codes "unknown"
