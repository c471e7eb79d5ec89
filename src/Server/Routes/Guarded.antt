-- ===== src/Server/Routes/Guarded.antt =====
-- What the server passes to its database, whatever a client sends.
use jaydb.Base.{
  ℕ, ◌≡◌, ◌≤◌, ◌<◌, refl, ap, inl, inr, [], ◌∷◌, Str, Bytes, false, ◌||◌, none, some, str_eq,
  Result, arith, length, drop, All, ltb, ◌==◌, Bool-cases, Option-cases,
}
use jaydb.Cluster.Binary.Write.{Req, Resp}
use jaydb.Cluster.Mesh.{MeshError}
use jaydb.Server.{Db, Request, Outcome, Formats, Server}
use jaydb.Server.Handlers.{
  refused_body, max_body_size, max_list_limit, list_limit, option_etag, outcome, handle_get,
  handle_put, handle_delete, handle_list,
}
use jaydb.Server.Routes.{
  has_control, max_key_length, refused_key, owner_of, forward_via_mesh, handle_here, handle_key,
  handle_request, kv_path, list_path,
}

-- A byte that a key may have.
abbrev pub IsPlain : ℕ → Type 0
IsPlain c = (32 ≤ c) × ¬ (c ≡ 127)

pub record IsKey (key : Str) : Type 0 where
  pub some_byte : 0 < length key
  pub short : length key ≤ max_key_length
  pub plain : All IsPlain key

has_control-IsPlain : (key : Str) → has_control key ≡ false → All IsPlain key
unfolding has_control
has_control-IsPlain [] h = tt
has_control-IsPlain (c ∷ cs) h = elim (Bool-cases (ltb c 32 || (c == 127))) [
  | inl e ↦ ground (arith, e, h)
  | inr e ↦ (
    (ground (arith, e), λ q. ground (arith, e, q)),
    has_control-IsPlain cs (ground (arith, e, h)),
  )
]

some_key : (key : Str) → str_eq key [] ≡ false → 0 < length key
unfolding str_eq
some_key [] h = ground (arith, h)
some_key (c ∷ cs) h = ground (arith)

pub refused_key-IsKey : (key : Str) → refused_key key ≡ none → IsKey key
refused_key-IsKey key h = elim (Bool-cases (str_eq key [])) [
  | inl e ↦ ground (arith, e, h)
  | inr e ↦ elim (Bool-cases (ltb max_key_length (length key))) [
    | inl l ↦ ground (arith, e, l, h)
    | inr l ↦ elim (Bool-cases (has_control key)) [
      | inl c ↦ ground (arith, e, l, c, h)
      | inr c ↦ record {
        some_byte = some_key key e;
        short = ground (arith, l);
        plain = has_control-IsPlain key c;
      }
    ]
  ]
]

-- A body that the database may get.
pub record IsBody (body : Bytes) : Type 0 where
  pub some_byte : 0 < length body
  pub fits : length body ≤ max_body_size

refused_body-IsBody : (body : Bytes) → refused_body body ≡ none → IsBody body
refused_body-IsBody body h = elim (Bool-cases (length body == 0)) [
  | inl e ↦ ground (arith, e, h)
  | inr e ↦ elim (Bool-cases (ltb max_body_size (length body))) [
    | inl l ↦ ground (arith, e, l, h)
    | inr l ↦ record { some_byte = ground (arith, e); fits = ground (arith, l) }
  ]
]

list_limit-bounds : (n : ℕ) → (1 ≤ list_limit n) × (list_limit n ≤ max_list_limit)
list_limit-bounds n = (ground (arith), ground (arith))

-- Two databases that cannot be told apart by calls whose arguments are in bounds.
pub record Alike {S : Type 0} (db db' : Db S) : Type 0 where
  pub get_alike : (key : Str) (s : S) → IsKey key → db.get key s ≡ db'.get key s
  pub put_alike :
      (key : Str) (body : Bytes) (etag : Str) (s : S)
      → IsKey key
      → IsBody body
      → db.put key body etag s ≡ db'.put key body etag s
  pub delete_alike :
      (key etag : Str) (s : S) → IsKey key → db.delete key etag s ≡ db'.delete key etag s
  pub list_alike :
      (prefix : Str) (limit : ℕ) (s : S)
      → 1 ≤ limit
      → limit ≤ max_list_limit
      → db.list prefix limit s ≡ db'.list prefix limit s

module _ (f : Formats) {S : Type 0} (db db' : Db S) (a : Alike db db') (r : Request) where
  get_alike : (key : Str) (s : S) → IsKey key → handle_get f db key s ≡ handle_get f db' key s
  unfolding handle_get
  get_alike key s k = rw (a.get_alike key s k) refl

  put_alike : (key : Str) (s : S) → IsKey key → handle_put f db r key s ≡ handle_put f db' r key s
  unfolding handle_put
  put_alike key s k = elim (Option-cases (refused_body r.body)) [
    | inr (reply, e) ↦ rw (handle_put, e) refl
    | inl e ↦
        rw
          (handle_put, e, a.put_alike key r.body (option_etag r) s k (refused_body-IsBody r.body e))
          refl
  ]

  delete_alike :
      (key : Str) (s : S) → IsKey key → handle_delete f db r key s ≡ handle_delete f db' r key s
  unfolding handle_delete
  delete_alike key s k = rw (a.delete_alike key r.if_match s k) refl

  list_alike : (prefix : Str) (s : S) → handle_list f db r prefix s ≡ handle_list f db' r prefix s
  unfolding handle_list
  list_alike prefix s =
      let b = list_limit-bounds r.limit in
      rw (a.list_alike prefix (list_limit r.limit) s b.0 b.1) refl

  here_alike :
      (key : Str) (s : S) → IsKey key → handle_here f db r key s ≡ handle_here f db' r key s
  unfolding handle_here
  here_alike key s k =
      rw (handle_here, get_alike key s k, put_alike key s k, delete_alike key s k) refl

module _ (f : Formats) (ask : Str → Req → Result MeshError Resp) {S : Type 0} (server : Server S)
    (db' : Db S) (a : Alike server.db db') (r : Request) where
  key_alike :
      (key : Str) (s : S)
      → handle_key f ask server r key s ≡ handle_key f ask (record server { db = db' }) r key s
  unfolding handle_key
  key_alike key s = elim (Option-cases (refused_key key)) [
    | inr (reply, e) ↦ rw (handle_key, e) refl
    | inl e ↦
        rw (handle_key, e)
          (ap
            (λ (x : Outcome S). elim server.cluster_node as (λ x. Outcome S) [
              | none ↦ x
              | some n ↦ elim (owner_of key n server.ring) as (λ x. Outcome S) [
                | none ↦ x
                | some target ↦ outcome (forward_via_mesh f ask r target key) s
              ]
            ])
            (here_alike f server.db db' a r key s (refused_key-IsKey key e)))
  ]

  -- Whatever a client sends, the server calls its database only with keys of 1 to 1024 bytes without
  -- control characters, bodies of 1 byte to 10 MB and list limits from 1 to 10000: with a database
  -- that differs on other arguments it replies, counts and changes the state alike.
  pub handle_request-guards :
      (s : S)
      → handle_request f ask server r s ≡ handle_request f ask (record server { db = db' }) r s
  unfolding handle_request
  handle_request-guards s =
      rw
        (
          handle_request,
          key_alike (drop (length kv_path) r.path) s,
          list_alike f server.db db' a r (drop (length list_path) r.path) s,
        )
        refl
