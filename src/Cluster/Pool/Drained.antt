-- ===== src/Cluster/Pool/Drained.antt =====
-- What `Close` leaves of a pool.
use jaydb.Base.{ℕ, ◌+◌, ◌≡◌, ◌<◌, refl, ap, List, [], ◌∷◌, true, false, ℤ, arith}
use jaydb.Cluster.Pool.{
  PeerPool, new_peer_pool, count, take_idle, dialed, check_put, drop_conn, begin_close, drain_idle,
  Step, get, select, warm, dial, fail, give, send, drop, close, drain, Reach, here, next,
}
use jaydb.Cluster.Pool.Conserved.{Reach-IsConserved}

-- A closed pool to which no connection is on its way back, and which holds idle ones only while a run
-- of `Close` drains it.
record IsDrained (p : PeerPool) : Type 0 where
  is_closed : p.closed ≡ true
  none_returning : p.returning ≡ []
  none_left : p.draining ≡ 0 → p.conns ≡ []

take_idle-IsDrained :
    (p : PeerPool) (cs : List ℕ) → p.conns ≡ cs → IsDrained p → IsDrained (take_idle p)
unfolding take_idle
take_idle-IsDrained p [] e v =
    rw e
      (record { is_closed = v.is_closed; none_returning = v.none_returning; none_left = λ z. refl })
take_idle-IsDrained p (c ∷ cs) e v = rw e (record {
  is_closed = v.is_closed;
  none_returning = v.none_returning;
  none_left = λ z. ground (arith, v.none_left z, e);
})

drain_idle-IsDrained :
    (p : PeerPool) (cs : List ℕ)
    → p.conns ≡ cs
    → 0 < p.draining
    → IsDrained p
    → IsDrained (drain_idle p)
unfolding drain_idle
drain_idle-IsDrained p [] e h v =
    rw e
      (record { is_closed = v.is_closed; none_returning = v.none_returning; none_left = λ z. refl })
drain_idle-IsDrained p (c ∷ cs) e h v = rw e (record {
  is_closed = v.is_closed;
  none_returning = v.none_returning;
  none_left = λ z. absurd (omega (arith, h, z));
})

none_to_send : (c : ℕ) (xs : List ℕ) → xs ≡ [] → count c xs ≡ 0
unfolding count
none_to_send c xs e = ap (count c) e

Step-IsDrained : {p q : PeerPool} → Step p q → IsDrained p → IsDrained q
unfolding dialed check_put drop_conn begin_close
Step-IsDrained (get p h) v = record {
  is_closed = v.is_closed;
  none_returning = v.none_returning;
  none_left = v.none_left;
}
Step-IsDrained (select p h) v = take_idle-IsDrained p p.conns refl v
Step-IsDrained (warm p h k) v = record {
  is_closed = v.is_closed;
  none_returning = v.none_returning;
  none_left = v.none_left;
}
Step-IsDrained (dial p h) v = record {
  is_closed = v.is_closed;
  none_returning = v.none_returning;
  none_left = v.none_left;
}
Step-IsDrained (fail p h) v = record {
  is_closed = v.is_closed;
  none_returning = v.none_returning;
  none_left = v.none_left;
}
Step-IsDrained (give p c h) v =
    rw v.is_closed
      (record { is_closed = refl; none_returning = v.none_returning; none_left = v.none_left })
Step-IsDrained (send p c h) v =
    absurd (omega (arith, h, none_to_send c p.returning v.none_returning))
Step-IsDrained (drop p c h) v = record {
  is_closed = v.is_closed;
  none_returning = v.none_returning;
  none_left = v.none_left;
}
Step-IsDrained (close p) v =
    rw v.is_closed
      (record { is_closed = refl; none_returning = v.none_returning; none_left = v.none_left })
Step-IsDrained (drain p h) v = drain_idle-IsDrained p p.conns refl h v

Reach-IsDrained : {p q : PeerPool} → Reach p q → IsDrained p → IsDrained q
Reach-IsDrained here v = v
Reach-IsDrained (next r s) v = Step-IsDrained s (Reach-IsDrained r v)

begin_close-IsDrained :
    (p : PeerPool) → p.closed ≡ false → p.returning ≡ [] → IsDrained (begin_close p)
unfolding begin_close
begin_close-IsDrained p e h =
    rw e
      (record { is_closed = refl; none_returning = h; none_left = λ z. absurd (omega (arith, z)) })

Reach-Reach : {p q r : PeerPool} → Reach p q → Reach q r → Reach p r
Reach-Reach a here = a
Reach-Reach a (next b s) = next (Reach-Reach a b) s

-- If no connection is on its way back when `Close` begins, then whatever follows the pool stays
-- closed, and as soon as the loop of `Close` has ended every connection that was ever dialed is closed
-- or in the hands of a caller, and stays so.
pub close-drained :
    (size : ℤ) {p q : PeerPool}
    → Reach (new_peer_pool size) p
    → p.closed ≡ false
    → p.returning ≡ []
    → Reach (begin_close p) q
    → (q.closed ≡ true)
      × (q.draining ≡ 0 → (c : ℕ) → c < q.dials → count c q.lent + count c q.shut ≡ 1)
unfolding count
close-drained size {p} {q} a e h b =
    let v = Reach-IsDrained b (begin_close-IsDrained p e h) in
    let w = Reach-IsConserved size (Reach-Reach (next a (close p)) b) in
    (
      v.is_closed,
      λ z c k.
          ground (arith, w.once c, ap (count c) (v.none_left z), ap (count c) v.none_returning, k),
    )
