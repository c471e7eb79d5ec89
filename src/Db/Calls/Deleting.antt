-- ===== src/Db/Calls/Deleting.antt =====
-- The calls of the database that change a key, and the keys that it caches.
use jaydb.Base.{ℕ, inl, inr, [], Str, Bool, Result, Option-cases}
use jaydb.Storage.{Driver}
use jaydb.Encoding.{Doc, Codec}
use jaydb.Sharding.Ring.{Ring}
use jaydb.Cluster.Binary.Write.{Req, Resp}
use jaydb.Cluster.Mesh.{MeshError, op_delete}
use jaydb.Cache.Calls as Cache
use jaydb.Cache.Calls.Keys.{Ends, invalidate-WorldIn}
use jaydb.Db.{Meta}
use jaydb.Db.Ownership.{Database, Reads, reconcile_ownership, target_node}
use jaydb.Db.Ownership.Purging.{IsOwned}
use jaydb.Db.Answers.{DbError, forwarded_delete}
use jaydb.Db.Calls.{request, in_world, changed_key, put, delete, delete_here}
use jaydb.Db.Calls.Owned.{
  own, IsOwned→WorldIn, WorldIn→IsOwned, IsReady, reconciled-Kept, put-IsOwned,
}

module _ (config : ℕ → Bool) (show_int : ℕ → Str) {D : Type 0} (driver : Driver D) {V : Type 0}
    (codec : Codec V) (ask : Str → Req → Result MeshError Resp) (ring : Ring) (self : Str) where
  delete_here-Kept :
      (key etag : Str) (disk : D) (d : Database)
      → IsOwned ring self d
      → IsOwned ring self (delete_here config show_int driver codec ask key etag disk d).2
  unfolding Cache.delete_object
  delete_here-Kept key etag disk d h =
      let w = Cache.invalidate d.number key d.world in
      let k =
        invalidate-WorldIn (own ring self) d.number d.number key d.world
          (IsOwned→WorldIn ring self d h) in
      elim (Option-cases (driver.delete key etag disk).0) [
        | inl r ↦
            rw (delete_here, r)
              (WorldIn→IsOwned ring self (changed_key show_int key (in_world w d)) k)
        | inr (e, r) ↦ rw (delete_here, r) (WorldIn→IsOwned ring self (in_world w d) k)
      ]

  pub delete-IsOwned :
      (inflight : ℕ) (reads : Reads) (key etag : Str) (disk : D) (d : Database)
      → IsReady config show_int driver codec ask ring self inflight reads d
      → IsOwned ring self (delete config show_int driver codec ask reads key etag disk d).2
  unfolding delete
  delete-IsOwned inflight reads key etag disk d v =
      let d' = reconcile_ownership reads d in
      let h = reconciled-Kept config show_int driver codec ask ring self inflight reads d v in
      elim (Option-cases (target_node reads.routed d' key)) [
        | inl t ↦ rw (delete, t) (delete_here-Kept key etag disk d' h)
        | inr (target, t) ↦
            elim (Option-cases
              (forwarded_delete (ask target (request op_delete d'.namespace key [] etag)))) [
                | inl f ↦ rw (delete, t, f) h
                | inr (e, f) ↦ rw (delete, t, f) h
              ]
      ]

  -- `Delete`, and a `Put` that returns, leave no key in the cache that another node owns, whether they change the key
  -- themselves, have the owner change it, or fail.
  pub changes-IsOwned :
      (inflight fuel : ℕ) (reads : Reads) (key : Str) (doc : Doc V) (etag : Str) (now : ℕ)
      (disk : D) (d : Database)
      → IsReady config show_int driver codec ask ring self inflight reads d
      → Ends
          (λ (x : Result DbError Meta × D × Database). IsOwned ring self x.2)
          (put config show_int driver codec ask fuel reads key doc etag now disk d)
        × IsOwned ring self (delete config show_int driver codec ask reads key etag disk d).2
  changes-IsOwned inflight fuel reads key doc etag now disk d v = (
    put-IsOwned config show_int driver codec ask ring self inflight fuel reads key doc etag now disk
        d v,
    delete-IsOwned inflight reads key etag disk d v,
  )
