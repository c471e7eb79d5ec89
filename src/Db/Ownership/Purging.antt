-- ===== src/Db/Ownership/Purging.antt =====
-- What `reconcileOwnership` leaves in the caches of a database.
use jaydb.Base.{
  sym, if◌then◌else◌, subst, arith, ◌||◌, ℕ, ◌≡◌, refl, ◌∙◌, ap, inl, inr, Str, Bool, true, false,
  ◌&&◌, not, Option, none, some, ◌==◌, Bool-cases,
}
use jaydb.Sharding.Ring.{Ring}
use jaydb.Cache.Shard.Places.{has_key}
use jaydb.Cache.Manager.{shard_at}
use jaydb.Cache.Calls.{purge_if}
use jaydb.Cache.Calls.Accounts.{IsExact}
use jaydb.Cache.Calls.Purge.{purge_if-Purged}
use jaydb.Cache.ListCache as C
use jaydb.Db.Ownership.{
  Database, Reads, is_foreign, purge_lists, everything, purge_everything, purge_foreign, purge_for,
  skipped_generations, reconcile_ownership,
}

-- The database's cache holds the key in the shard `i`.
abbrev pub holds : Database → ℕ → Str → Bool
holds d i key = has_key key (shard_at (d.world.pool d.number).shards i).lru

-- No key is cached that the ring gives to another node.
abbrev pub IsOwned : Ring → Str → Database → Type 0
IsOwned ring self d = (i : ℕ) (key : Str) → is_foreign ring self key ≡ true → holds d i key ≡ false

-- The generation moved by one step and did not move again, so the ring's answers stand.
abbrev pub is_settled : Reads → Database → Bool
is_settled reads d =
    not (skipped_generations reads.first.generation d.reconciled_gen)
    && (reads.after.generation == reads.first.generation)

module _ (config : ℕ → Bool) (inflight : ℕ) where
  -- From `d` to `d'`, exactly the cached keys stay that `keep` says, and all listings go.
  pub record Left (keep : Str → Bool) (d d' : Database) : Type 0 where
    pub exact : IsExact config inflight d'.number d'.world
    pub lists_purged : d'.lists ≡ purge_lists d.lists
    pub keys : (i : ℕ) (key : Str) → holds d' i key ≡ (keep key && holds d i key)
    pub others : (e : ℕ) → (e == d.number) ≡ false → d'.world.pool e ≡ d.world.pool e
    pub same_number : d'.number ≡ d.number

  purge_by-Left :
      (pred : Str → Bool) (d : Database)
      → IsExact config inflight d.number d.world
      → Left
          (λ key. not (pred key))
          d
          (record d { world = (purge_if d.number pred d.world).1; lists = purge_lists d.lists })
  purge_by-Left pred d x =
      let p = purge_if-Purged config inflight d.number pred d.world x in
      record {
        exact = p.exact;
        lists_purged = refl;
        keys = p.keys_left;
        others = p.others;
        same_number = refl;
      }

  purge_everything-Left :
      (d : Database)
      → IsExact config inflight d.number d.world
      → Left (λ key. false) d (purge_everything d)
  unfolding purge_everything
  purge_everything-Left d x = purge_by-Left everything d x

  purge_lists-purge_lists : (c : Option C.ListCache) → purge_lists (purge_lists c) ≡ purge_lists c
  unfolding C.purge
  purge_lists-purge_lists none = refl
  purge_lists-purge_lists (some c) = refl

  -- A purge of everything, after another purge.
  everything-Left :
      (keep : Str → Bool) (d d' : Database)
      → Left keep d d'
      → Left (λ key. false) d (purge_everything d')
  unfolding purge_everything
  everything-Left keep d d' l =
      let r = purge_everything-Left d' l.exact in
      record {
        exact = r.exact;
        lists_purged = ap purge_lists l.lists_purged ∙ purge_lists-purge_lists d.lists;
        keys = λ i key. r.keys i key;
        others = λ e q. r.others e (ap (λ (n : ℕ). e == n) l.same_number ∙ q) ∙ l.others e q;
        same_number = l.same_number;
      }

  foreign-Left :
      (live : Str → Ring) (self : Str) (d : Database)
      → IsExact config inflight d.number d.world
      → Left (λ key. not (is_foreign (live key) self key)) d (purge_foreign live self d)
  unfolding purge_foreign
  foreign-Left live self d x = purge_by-Left (λ key. is_foreign (live key) self key) d x

  purge_foreign-Left :
      (ring : Ring) (live : Str → Ring) (self : Str) (d : Database)
      → ((key : Str) → live key ≡ ring)
      → IsExact config inflight d.number d.world
      → Left (λ key. not (is_foreign ring self key)) d (purge_foreign live self d)
  purge_foreign-Left ring live self d h x =
      let l = foreign-Left live self d x in
      record {
        exact = l.exact;
        lists_purged = l.lists_purged;
        keys = λ i key.
            l.keys i key ∙ ap (λ (r : Ring). not (is_foreign r self key) && holds d i key) (h key);
        others = l.others;
        same_number = l.same_number;
      }

  purge_for-Left :
      (reads : Reads) (self : Str) (d : Database)
      → ((key : Str) → is_settled reads d ≡ true → reads.live key ≡ reads.first)
      → IsExact config inflight d.number d.world
      → Left
          (λ key. is_settled reads d && not (is_foreign reads.first self key))
          d
          (purge_for reads self d)
  unfolding purge_for
  purge_for-Left reads self d h x =
      elim (Bool-cases (skipped_generations reads.first.generation d.reconciled_gen)) [
        | inl e ↦ rw (e, purge_for) (purge_everything-Left d x)
        | inr e ↦ elim (Bool-cases (reads.after.generation == reads.first.generation)) [
          | inl g ↦
              rw (e, g, purge_for)
                (purge_foreign-Left reads.first reads.live self d (λ key. h key (rw (e, g) refl)) x)
          | inr g ↦
              rw (e, g, purge_for)
                (everything-Left (λ key. not (is_foreign (reads.live key) self key)) d
                  (purge_foreign reads.live self d) (foreign-Left reads.live self d x))
        ]
      ]

  pub reconcile-due :
      (reads : Reads) (self : Str) (d : Database)
      → d.node ≡ some self
      → d.has_ring ≡ true
      → (d.reconciled_gen == reads.first.generation) ≡ false
      → reconcile_ownership reads d
        ≡ record (purge_for reads self d) { reconciled_gen = reads.first.generation }
  unfolding reconcile_ownership
  reconcile-due reads self d n r g =
      let skip : (not d.has_ring || (d.reconciled_gen == reads.first.generation)) ≡ false =
        rw (r, g) refl in
      ap
        (λ (o : Option Str). elim o [
          | none ↦ d
          | some name ↦
              if not d.has_ring || (d.reconciled_gen == reads.first.generation)
              then d
              else record (purge_for reads name d) { reconciled_gen = reads.first.generation }
        ])
        n
      ∙ ap
          (λ (t : Bool).
            if t
            then d
            else record (purge_for reads self d) { reconciled_gen = reads.first.generation })
          skip

  -- The first call at a new generation purges all listings and exactly the cached keys that other
  -- nodes own, or every key where generations were skipped or the ring moved during the purge; it
  -- records the generation that it read, touches no other database's cache and keeps the budget exact.
  pub reconcile_ownership-Left :
      (reads : Reads) (self : Str) (d : Database)
      → d.node ≡ some self
      → d.has_ring ≡ true
      → (d.reconciled_gen == reads.first.generation) ≡ false
      → ((key : Str) → is_settled reads d ≡ true → reads.live key ≡ reads.first)
      → IsExact config inflight d.number d.world
      → Left
          (λ key. is_settled reads d && not (is_foreign reads.first self key))
          d
          (reconcile_ownership reads d)
        × ((reconcile_ownership reads d).reconciled_gen ≡ reads.first.generation)
  reconcile_ownership-Left reads self d n r g h x =
      let l = purge_for-Left reads self d h x in
      subst
        (λ (d' : Database).
          Left (λ key. is_settled reads d && not (is_foreign reads.first self key)) d d'
          × (d'.reconciled_gen ≡ reads.first.generation))
        (sym (reconcile-due reads self d n r g))
        (
          record {
            exact = l.exact;
            lists_purged = l.lists_purged;
            keys = l.keys;
            others = l.others;
            same_number = l.same_number;
          },
          refl,
        )

  pub reconcile-done :
      (reads : Reads) (d : Database)
      → (d.reconciled_gen == reads.first.generation) ≡ true
      → reconcile_ownership reads d ≡ d
  unfolding reconcile_ownership
  reconcile-done reads d g = ground (arith, g)

  -- If nothing foreign is cached at the recorded generation, then nothing foreign is cached after the
  -- reconciliation, whatever the generation is by now and however many were skipped.
  pub reconcile_ownership-IsOwned :
      (reads : Reads) (self : Str) (d : Database)
      → d.node ≡ some self
      → d.has_ring ≡ true
      → ((key : Str) → is_settled reads d ≡ true → reads.live key ≡ reads.first)
      → IsExact config inflight d.number d.world
      → ((d.reconciled_gen == reads.first.generation) ≡ true → IsOwned reads.first self d)
      → IsOwned reads.first self (reconcile_ownership reads d)
  reconcile_ownership-IsOwned reads self d n r h x o =
      elim (Bool-cases (d.reconciled_gen == reads.first.generation)) [
        | inl g ↦ subst (IsOwned reads.first self) (sym (reconcile-done reads d g)) (o g)
        | inr g ↦ λ i key f.
            (reconcile_ownership-Left reads self d n r g h x).0.keys i key
            ∙ ap (λ (t : Bool). (is_settled reads d && not t) && holds d i key) f
            ∙ ground (arith)
      ]
