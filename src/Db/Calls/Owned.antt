-- ===== src/Db/Calls/Owned.antt =====
-- No call of the database lets a key into its cache that another node owns.
use jaydb.Base.{
  ℕ, ◌≡◌, subst, inl, inr, [], Str, Bool, true, false, not, Option, none, some, Result, ok, err,
  arith, ◌==◌, Option-cases, Result-cases,
}
use jaydb.Storage.{Object, Error, Driver}
use jaydb.Encoding.{Doc, Kind, Codec}
use jaydb.Sharding.Ring.{Ring}
use jaydb.Cluster.Binary.Write.{Req, Resp}
use jaydb.Cluster.Mesh.{MeshError, op_get, op_put}
use jaydb.Cache.Budget.{Run, done, panicked, stuck}
use jaydb.Cache.Calls as Cache
use jaydb.Cache.Calls.{World}
use jaydb.Cache.Calls.Accounts.{IsExact}
use jaydb.Cache.Manager.Keys.{ManagerIn-of_has_key, has_key-ManagerIn}
use jaydb.Cache.Calls.Keys.{Ends, WorldIn, get_object-WorldIn, put_object-WorldIn}
use jaydb.Db.{Meta}
use jaydb.Db.Ownership.{
  Database, Reads, is_foreign, purge_everything, purge_foreign, purge_for, reconcile_ownership,
  target_node,
}
use jaydb.Db.Ownership.Purging.{IsOwned, is_settled, reconcile_ownership-IsOwned}
use jaydb.Db.Answers.{DbError, finish_get, forwarded_get, finish_put, forwarded_put}
use jaydb.Db.Calls.{request, in_world, changed_key, read_local, get, placed, put_here, put}

-- The keys that the node may cache.
abbrev pub own : Ring → Str → Str → Bool
own ring self key = not (is_foreign ring self key)

pub IsOwned→WorldIn :
    (ring : Ring) (self : Str) (d : Database)
    → IsOwned ring self d
    → WorldIn (own ring self) d.number d.world
IsOwned→WorldIn ring self d h =
    ManagerIn-of_has_key (own ring self) (d.world.pool d.number).shards
      (λ i k p. h i k (ground (arith, p)))

pub WorldIn→IsOwned :
    (ring : Ring) (self : Str) (d : Database)
    → WorldIn (own ring self) d.number d.world
    → IsOwned ring self d
WorldIn→IsOwned ring self d h i k f =
    has_key-ManagerIn (own ring self) (d.world.pool d.number).shards i k h (ground (arith, f))

-- A key that is routed to no other node is not foreign.
target_node-own :
    (ring : Ring) (self : Str) (d : Database) (key : Str)
    → d.node ≡ some self
    → d.has_ring ≡ true
    → target_node ring d key ≡ none
    → own ring self key ≡ true
unfolding target_node is_foreign
target_node-own ring self d key n r t = ground (arith, n, r, t)

-- The node and the ring stay through a reconciliation.
purge_for-same :
    (reads : Reads) (self : Str) (d : Database)
    → ((purge_for reads self d).node ≡ d.node) × ((purge_for reads self d).has_ring ≡ d.has_ring)
unfolding purge_for purge_everything purge_foreign
purge_for-same reads self d = ground (arith)

reconcile_ownership-same :
    (reads : Reads) (self : Str) (d : Database)
    → d.node ≡ some self
    → d.has_ring ≡ true
    → ((reconcile_ownership reads d).node ≡ some self)
      × ((reconcile_ownership reads d).has_ring ≡ true)
unfolding reconcile_ownership
reconcile_ownership-same reads self d n r = ground (arith, n, r, purge_for-same reads self d)

module _ (config : ℕ → Bool) (show_int : ℕ → Str) {D : Type 0} (driver : Driver D) {V : Type 0}
    (codec : Codec V) (ask : Str → Req → Result MeshError Resp) (ring : Ring) (self : Str) where
  read_local-Kept :
      (fuel : ℕ) (key : Str) (asked now : ℕ) (disk : D) (d : Database)
      → own ring self key ≡ true
      → IsOwned ring self d
      → Ends
          (λ (x : Result Error (Option Object) × Database). IsOwned ring self x.1)
          (read_local config show_int driver codec ask fuel key false asked now disk d)
  unfolding read_local
  read_local-Kept fuel key asked now disk d p h =
      by_run (Cache.get_object config driver fuel d.number key asked now disk d.world) (
        get_object-WorldIn (own ring self) config driver d.number fuel d.number key asked now disk
          d.world p (IsOwned→WorldIn ring self d h))
    where
      by_run :
          (c : Run (Result Error (Option Object) × World))
          → Ends
              (λ (x : Result Error (Option Object) × World). WorldIn (own ring self) d.number x.1)
              c
          → Ends
              (λ (x : Result Error (Option Object) × Database). IsOwned ring self x.1)
              (elim c [
                | stuck ↦ stuck
                | panicked ↦ panicked
                | done (r, w) ↦ done (r, in_world w d)
              ])
      by_run stuck g = tt
      by_run panicked g = tt
      by_run (done (r, w)) g = WorldIn→IsOwned ring self (in_world w d) g

  finish_get-Kept :
      (dest : Option Kind) (c : Run (Result Error (Option Object) × Database))
      → Ends (λ (x : Result Error (Option Object) × Database). IsOwned ring self x.1) c
      → Ends
          (λ (x : Result DbError (Meta × Option (Doc V)) × Database). IsOwned ring self x.1)
          (finish_get codec dest c)
  finish_get-Kept dest stuck h = tt
  finish_get-Kept dest panicked h = tt
  finish_get-Kept dest (done (err e, d)) h = h
  finish_get-Kept dest (done (ok none, d)) h = tt
  finish_get-Kept dest (done (ok (some o), d)) h = h

  -- What is true of a call's readings and of the database before it: the node is a cluster's, the
  -- routing sees the ring that the reconciliation saw, the ring did not move during a purge that
  -- stands, and nothing foreign is cached at the recorded generation.
  pub record IsReady (inflight : ℕ) (reads : Reads) (d : Database) : Type 0 where
    pub clustered : d.node ≡ some self
    pub ringed : d.has_ring ≡ true
    pub first_ring : reads.first ≡ ring
    pub routed_ring : reads.routed ≡ ring
    pub live_ring : (key : Str) → is_settled reads d ≡ true → reads.live key ≡ reads.first
    pub exact : IsExact config inflight d.number d.world
    pub owned : (d.reconciled_gen == reads.first.generation) ≡ true → IsOwned reads.first self d

  pub reconciled-Kept :
      (inflight : ℕ) (reads : Reads) (d : Database)
      → IsReady inflight reads d
      → IsOwned ring self (reconcile_ownership reads d)
  reconciled-Kept inflight reads d v =
      subst (λ (z : Ring). IsOwned z self (reconcile_ownership reads d)) v.first_ring
        (reconcile_ownership-IsOwned config inflight reads self d v.clustered v.ringed v.live_ring
          v.exact v.owned)

  routed-own :
      (inflight : ℕ) (reads : Reads) (key : Str) (d : Database)
      → IsReady inflight reads d
      → target_node reads.routed (reconcile_ownership reads d) key ≡ none
      → own ring self key ≡ true
  routed-own inflight reads key d v t =
      let same = reconcile_ownership-same reads self d v.clustered v.ringed in
      target_node-own ring self (reconcile_ownership reads d) key same.0 same.1 (
        subst (λ (z : Ring). target_node z (reconcile_ownership reads d) key ≡ none) v.routed_ring
          t)

  -- A `Get` that returns leaves no key in the cache that another node owns, whether it reads the key from its own
  -- cache and storage, has it from the owner, or falls back to its storage because the owner does not
  -- answer.
  pub get-IsOwned :
      (inflight fuel : ℕ) (reads : Reads) (key : Str) (dest : Option Kind) (over : Option Str)
      (asked now : ℕ) (disk : D) (d : Database)
      → IsReady inflight reads d
      → Ends
          (λ (x : Result DbError (Meta × Option (Doc V)) × Database). IsOwned ring self x.1)
          (get config show_int driver codec ask fuel reads key dest over asked now disk d)
  unfolding get read_local
  get-IsOwned inflight fuel reads key dest over asked now disk d v =
      let d' = reconcile_ownership reads d in
      let h = reconciled-Kept inflight reads d v in
      elim (Option-cases (target_node reads.routed d' key)) [
        | inl t ↦
            rw (get, t)
              (finish_get-Kept dest
                (read_local config show_int driver codec ask fuel key false asked now disk d')
                (read_local-Kept fuel key asked now disk d' (routed-own inflight reads key d v t)
                  h))
        | inr (target, t) ↦
            elim (Option-cases
              (forwarded_get codec dest (ask target (request op_get d'.namespace key [] [])))) [
                | inr (r, f) ↦ rw (get, t, f) h
                | inl f ↦ elim (Option-cases over) [
                  | inr (c, o) ↦ rw (get, t, f, o) h
                  | inl o ↦
                      rw (get, t, f, o) (finish_get-Kept dest (done (driver.get key disk, d')) h)
                ]
              ]
      ]

  placed-Kept :
      (key : Str) (d : Database) (c : Run (Result Error (Option Object) × D × World))
      → Ends
          (λ (x : Result Error (Option Object) × D × World). WorldIn (own ring self) d.number x.2)
          c
      → Ends
          (λ (x : Result Error (Option Object) × D × Database). IsOwned ring self x.2)
          (placed config show_int driver codec ask key d c)
  placed-Kept key d stuck h = tt
  placed-Kept key d panicked h = tt
  placed-Kept key d (done (err e, disk, w)) h = WorldIn→IsOwned ring self (in_world w d) h
  placed-Kept key d (done (ok o, disk, w)) h =
      WorldIn→IsOwned ring self (changed_key show_int key (in_world w d)) h

  finish_put-Kept :
      (c : Run (Result Error (Option Object) × D × Database))
      → Ends (λ (x : Result Error (Option Object) × D × Database). IsOwned ring self x.2) c
      → Ends (λ (x : Result DbError Meta × D × Database). IsOwned ring self x.2) (finish_put c)
  finish_put-Kept stuck h = tt
  finish_put-Kept panicked h = tt
  finish_put-Kept (done (err e, disk, d)) h = h
  finish_put-Kept (done (ok none, disk, d)) h = tt
  finish_put-Kept (done (ok (some o), disk, d)) h = h

  -- A `Put` that returns leaves no key in the cache that another node owns, whether it writes the key itself, has the
  -- owner write it, or fails.
  pub put-IsOwned :
      (inflight fuel : ℕ) (reads : Reads) (key : Str) (doc : Doc V) (etag : Str) (now : ℕ)
      (disk : D) (d : Database)
      → IsReady inflight reads d
      → Ends
          (λ (x : Result DbError Meta × D × Database). IsOwned ring self x.2)
          (put config show_int driver codec ask fuel reads key doc etag now disk d)
  unfolding put
  put-IsOwned inflight fuel reads key doc etag now disk d v =
      let d' = reconcile_ownership reads d in
      let h = reconciled-Kept inflight reads d v in
      elim (Result-cases (codec.marshal doc)) [
        | inr (e, m) ↦ rw (put, m) h
        | inl (value, m) ↦ elim (Option-cases (target_node reads.routed d' key)) [
          | inl t ↦
              rw (put, m, t)
                (finish_put-Kept
                  (put_here config show_int driver codec ask fuel key value etag now disk d')
                  (placed-Kept key d'
                    (Cache.put_object config driver fuel d'.number key value etag now disk d'.world)
                    (put_object-WorldIn (own ring self) config driver d'.number fuel d'.number key
                      value etag now disk d'.world (routed-own inflight reads key d v t)
                      (IsOwned→WorldIn ring self d' h))))
          | inr (target, t) ↦
              elim (Result-cases
                (forwarded_put target (ask target (request op_put d'.namespace key value etag)))) [
                  | inr (e, f) ↦ rw (put, m, t, f) h
                  | inl (x, f) ↦ rw (put, m, t, f) h
                ]
        ]
      ]
