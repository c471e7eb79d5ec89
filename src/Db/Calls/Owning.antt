-- ===== src/Db/Calls/Owning.antt =====
-- The calls of the database return, and no key that another node owns stays in its cache.
use jaydb.Base.{
  ℕ, ◌≡◌, refl, sym, subst, inl, inr, [], Str, Bytes, Bool, false, Option, none, some, Result, ok,
  err, ◌==◌, Option-cases, Result-cases, Bool-cases,
}
use jaydb.Storage.{Object, Error, Driver}
use jaydb.Encoding.{Doc, Kind, Codec}
use jaydb.Sharding.Ring.{Ring}
use jaydb.Cluster.Binary.Write.{Req, Resp}
use jaydb.Cluster.Mesh.{MeshError, op_get, op_put}
use jaydb.Cache.Budget.{Run, done}
use jaydb.Cache.Calls as Cache
use jaydb.Cache.Calls.Accounts.{IsExact}
use jaydb.Cache.Calls.Admit.{HasFuel}
use jaydb.Cache.Shard.{Item, find_element}
use jaydb.Cache.Manager.{Manager}
use jaydb.Cache.Calls.{is_fresh, shard_for}
use jaydb.Cache.Calls.GetPut.{due, get_object-Got, put_object-Wrote}
use jaydb.Cache.Calls.Keys.{Ends}
use jaydb.Db.{Meta}
use jaydb.Db.Ownership.{Database, Reads, reconcile_ownership, target_node}
use jaydb.Db.Ownership.Purging.{IsOwned, reconcile_ownership-Left, reconcile-done}
use jaydb.Db.Answers.{DbError, finish_get, forwarded_get, finish_put, forwarded_put}
use jaydb.Db.Calls.{request, read_local, get, placed, put_here, put, delete, in_world}
use jaydb.Db.Calls.Owned.{IsReady, get-IsOwned, put-IsOwned}
use jaydb.Db.Calls.Deleting.{delete-IsOwned}

-- A call that returns, with a result of which the predicate holds.
abbrev pub Returns : {A : Type 0} → (A → Type 0) → Run A → Type 0
Returns {A} Q c = (x : A) × (c ≡ done x) × Q x

abbrev Comes : {A : Type 0} → Run A → Type 0
Comes {A} c = (x : A) × (c ≡ done x)

Returns-of_Ends : {A : Type 0} (Q : A → Type 0) (c : Run A) → Comes c → Ends Q c → Returns Q c
Returns-of_Ends Q c (x, e) h = (x, e, subst (Ends Q) e h)

-- A storage that succeeds returns an object.
abbrev pub IsFilled : Result Error (Option Object) → Type 0
IsFilled r = ¬ (r ≡ ok none)

pub due-IsFilled :
    (m : Manager) (asked : ℕ) (o : Option (ℕ × Item)) (r : Result Error (Option Object))
    → IsFilled r
    → IsFilled (due m asked o r)
due-IsFilled m asked none r h = h
due-IsFilled m asked (some (i, x)) r h = elim (Bool-cases (is_fresh m x.last_accessed asked)) [
  | inl e ↦ rw e (λ q. cc)
  | inr e ↦ rw e h
]

module _ (config : ℕ → Bool) (show_int : ℕ → Str) {D : Type 0} (driver : Driver D) {V : Type 0}
    (codec : Codec V) (ask : Str → Req → Result MeshError Resp) (ring : Ring) (self : Str) where
  finish_get-Comes :
      (dest : Option Kind) (r : Result Error (Option Object)) (d : Database)
      → IsFilled r
      → Comes (finish_get codec dest (done (r, d)))
  finish_get-Comes dest (err e) d h = (_, refl)
  finish_get-Comes dest (ok none) d h = absurd (h refl)
  finish_get-Comes dest (ok (some o)) d h = (_, refl)

  finish_put-Comes :
      (r : Result Error (Option Object)) (disk : D) (d : Database)
      → IsFilled r
      → Comes (finish_put (done (r, disk, d)))
  finish_put-Comes (err e) disk d h = (_, refl)
  finish_put-Comes (ok none) disk d h = absurd (h refl)
  finish_put-Comes (ok (some o)) disk d h = (_, refl)

  pub reconciled-IsExact :
      (inflight : ℕ) (reads : Reads) (d : Database)
      → IsReady config show_int driver codec ask ring self inflight reads d
      → IsExact config inflight
          (reconcile_ownership reads d).number
          (reconcile_ownership reads d).world
  reconciled-IsExact inflight reads d v =
      elim (Bool-cases (d.reconciled_gen == reads.first.generation)) [
        | inl g ↦
            subst (λ (x : Database). IsExact config inflight x.number x.world)
              (sym (reconcile-done config inflight reads d g)) v.exact
        | inr g ↦
            (reconcile_ownership-Left config inflight reads self d v.clustered v.ringed g
              v.live_ring v.exact).0.exact
      ]

  read_local-Comes :
      (inflight fuel : ℕ) (key : Str) (dest : Option Kind) (asked now : ℕ) (disk : D) (d : Database)
      → IsExact config inflight d.number d.world
      → HasFuel config fuel d.world
      → IsFilled (driver.get key disk)
      → Comes (
          finish_get codec dest
            (read_local config show_int driver codec ask fuel key false asked now disk d))
  unfolding read_local
  read_local-Comes inflight fuel key dest asked now disk d x enough h =
      let g =
        get_object-Got config driver fuel inflight d.number key asked now disk d.world x enough in
      let filled : IsFilled g.result = subst IsFilled (sym g.source) (
        due-IsFilled (d.world.pool d.number) asked
          (find_element key (shard_for key (d.world.pool d.number))) (driver.get key disk) h) in
      rw (read_local, g.returns) (finish_get-Comes dest g.result (in_world g.world d) filled)

  put_here-Comes :
      (inflight fuel : ℕ) (key : Str) (value : Bytes) (etag : Str) (now : ℕ) (disk : D)
      (d : Database)
      → IsExact config inflight d.number d.world
      → HasFuel config fuel d.world
      → IsFilled (driver.put key value etag disk).0
      → Comes
          (finish_put (put_here config show_int driver codec ask fuel key value etag now disk d))
  put_here-Comes inflight fuel key value etag now disk d x enough h =
      let g =
        put_object-Wrote config driver fuel inflight d.number key value etag now disk d.world x
          enough in
      rw (put_here, g.returns) (by_result (driver.put key value etag disk) g.world h)
    where
      by_result :
          (r : Result Error (Option Object) × D) (w : Cache.World)
          → IsFilled r.0
          → Comes (finish_put (placed config show_int driver codec ask key d (done (r.0, r.1, w))))
      by_result (err e, disk') w f = (_, refl)
      by_result (ok none, disk') w f = absurd (f refl)
      by_result (ok (some o), disk') w f = (_, refl)

  -- If the ring that routes a call is the one that its reconciliation saw, did not move during a purge
  -- that stands, and nothing foreign was cached at the recorded generation; if the budget's count is
  -- exact, there is fuel for the rounds of `Reserve`, and the storage's reading, where it succeeds,
  -- gives an object: then `Get` returns and leaves no key in the cache that another node owns, whether
  -- it reads the key from its own cache and storage, has it from the owner, or falls back to its
  -- storage because the owner does not answer.
  pub get-Returns :
      (inflight fuel : ℕ) (reads : Reads) (key : Str) (dest : Option Kind) (over : Option Str)
      (asked now : ℕ) (disk : D) (d : Database)
      → IsReady config show_int driver codec ask ring self inflight reads d
      → HasFuel config fuel (reconcile_ownership reads d).world
      → IsFilled (driver.get key disk)
      → Returns
          (λ (x : Result DbError (Meta × Option (Doc V)) × Database). IsOwned ring self x.1)
          (get config show_int driver codec ask fuel reads key dest over asked now disk d)
  unfolding get read_local
  get-Returns inflight fuel reads key dest over asked now disk d v enough h =
      let d' = reconcile_ownership reads d in
      let comes : Comes
          (get config show_int driver codec ask fuel reads key dest over asked now disk d) =
        elim (Option-cases (target_node reads.routed d' key)) [
          | inl t ↦
              rw (get, t)
                (read_local-Comes inflight fuel key dest asked now disk d'
                  (reconciled-IsExact inflight reads d v) enough h)
          | inr (target, t) ↦
              elim (Option-cases
                (forwarded_get codec dest (ask target (request op_get d'.namespace key [] [])))) [
                  | inr (r, f) ↦ rw (get, t, f) (_, refl)
                  | inl f ↦ elim (Option-cases over) [
                    | inr (c, o) ↦ rw (get, t, f, o) (_, refl)
                    | inl o ↦ rw (get, t, f, o) (finish_get-Comes dest (driver.get key disk) d' h)
                  ]
                ]
        ] in
      Returns-of_Ends
        (λ (x : Result DbError (Meta × Option (Doc V)) × Database). IsOwned ring self x.1)
        (get config show_int driver codec ask fuel reads key dest over asked now disk d) comes
        (get-IsOwned config show_int driver codec ask ring self inflight fuel reads key dest over
          asked now disk d v)

  put-Comes :
      (inflight fuel : ℕ) (reads : Reads) (key : Str) (doc : Doc V) (etag : Str) (now : ℕ)
      (disk : D) (d : Database)
      → IsReady config show_int driver codec ask ring self inflight reads d
      → HasFuel config fuel (reconcile_ownership reads d).world
      → ((value : Bytes) → IsFilled (driver.put key value etag disk).0)
      → Comes (put config show_int driver codec ask fuel reads key doc etag now disk d)
  unfolding put
  put-Comes inflight fuel reads key doc etag now disk d v enough h =
      let d' = reconcile_ownership reads d in
      elim (Result-cases (codec.marshal doc)) [
        | inr (e, m) ↦ rw (put, m) (_, refl)
        | inl (value, m) ↦ elim (Option-cases (target_node reads.routed d' key)) [
          | inl t ↦
              rw (put, m, t)
                (put_here-Comes inflight fuel key value etag now disk d'
                  (reconciled-IsExact inflight reads d v) enough (h value))
          | inr (target, t) ↦
              elim (Result-cases
                (forwarded_put target (ask target (request op_put d'.namespace key value etag)))) [
                  | inr (e, f) ↦ rw (put, m, t, f) (_, refl)
                  | inl (x, f) ↦ rw (put, m, t, f) (_, refl)
                ]
        ]
      ]

  -- If the ring that routes a call is the one that its reconciliation saw, did not move during a purge
  -- that stands, and nothing foreign was cached at the recorded generation; if the budget's count is
  -- exact, there is fuel for the rounds of `Reserve`, and the storage's writing of the key, where it
  -- succeeds, gives an object: then `Put` returns, and it and `Delete` leave no key in the cache that
  -- another node owns, whether they change the key themselves, have the owner change it, or fail.
  pub changes-Returns :
      (inflight fuel : ℕ) (reads : Reads) (key : Str) (doc : Doc V) (etag : Str) (now : ℕ)
      (disk : D) (d : Database)
      → IsReady config show_int driver codec ask ring self inflight reads d
      → HasFuel config fuel (reconcile_ownership reads d).world
      → ((value : Bytes) → IsFilled (driver.put key value etag disk).0)
      → Returns
          (λ (x : Result DbError Meta × D × Database). IsOwned ring self x.2)
          (put config show_int driver codec ask fuel reads key doc etag now disk d)
        × IsOwned ring self (delete config show_int driver codec ask reads key etag disk d).2
  changes-Returns inflight fuel reads key doc etag now disk d v enough h = (
    Returns-of_Ends (λ (x : Result DbError Meta × D × Database). IsOwned ring self x.2)
        (put config show_int driver codec ask fuel reads key doc etag now disk d)
        (put-Comes inflight fuel reads key doc etag now disk d v enough h)
        (put-IsOwned config show_int driver codec ask ring self inflight fuel reads key doc etag now
          disk d v),
    delete-IsOwned config show_int driver codec ask ring self inflight reads key etag disk d v,
  )
