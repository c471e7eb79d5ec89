-- ===== src/Cluster/Pool/Conserved.antt =====
-- Every connection that was dialed is in exactly one place.
use jaydb.Base.{
  length-append, ℕ, ◌+◌, ◌≡◌, ◌<◌, ◌≤◌, refl, ap, List, [], ◌∷◌, ◌++◌, if◌then◌else◌, ltb, ◌==◌,
  length, ℤ, arith, Bool-cases, inl, inr,
}
use jaydb.Cluster.Pool.{
  PeerPool, new_peer_pool, count, without, take_idle, dialed, check_put, send_conn, drop_conn,
  begin_close, drain_idle, Step, get, select, warm, dial, fail, give, send, drop, close, drain,
  Reach, here, next,
}

-- In how many places a connection is.
abbrev pub places : ℕ → PeerPool → ℕ
places c p = count c p.conns + count c p.lent + count c p.returning + count c p.shut

pub record IsConserved (p : PeerPool) : Type 0 where
  pub once : (c : ℕ) → places c p ≡ (if ltb c p.dials then 1 else 0)
  pub in_size : length p.conns ≤ p.pool_size

count-without :
    (c d : ℕ) (xs : List ℕ)
    → 0 < count c xs
    → count d (without c xs) + (if d == c then 1 else 0) ≡ count d xs
unfolding count without
count-without c d [] h = ground arith
count-without c d (x ∷ xs) h = elim (Bool-cases (c == x)) [
  | inl e ↦ ground (arith, e)
  | inr e ↦ let r = count-without c d xs (ground (arith, e, h)) in ground (arith, e, r)
]

count-append : (c : ℕ) (xs ys : List ℕ) → count c (xs ++ ys) ≡ count c xs + count c ys
unfolding count
count-append c [] ys = omega arith
count-append c (x ∷ xs) ys = omega (arith, count-append c xs ys)

take_idle-IsConserved :
    (p : PeerPool) (cs : List ℕ) → p.conns ≡ cs → IsConserved p → IsConserved (take_idle p)
unfolding take_idle count
take_idle-IsConserved p [] e v =
    rw e (record { once = λ c. ground (arith, v.once c, e); in_size = ground (arith, e) })
take_idle-IsConserved p (c ∷ cs) e v = rw e (record {
  once = λ d. omega (arith, v.once d, ap (count d) e);
  in_size = ground (arith, v.in_size, e);
})

-- A connection that leaves one place for another.
moved-IsConserved :
    (p : PeerPool) (c : ℕ)
    → 0 < count c p.lent
    → IsConserved p
    → (d : ℕ)
    → count d p.conns + count d (without c p.lent) + count d p.returning + (count d (c ∷ p.shut))
      ≡ (if ltb d p.dials then 1 else 0)
unfolding count
moved-IsConserved p c h v d = omega (arith, v.once d, count-without c d p.lent h)

drop_conn-IsConserved :
    (p : PeerPool) (c : ℕ) → 0 < count c p.lent → IsConserved p → IsConserved (drop_conn c p)
unfolding drop_conn
drop_conn-IsConserved p c h v = record { once = moved-IsConserved p c h v; in_size = v.in_size }

check_put-IsConserved :
    (p : PeerPool) (c : ℕ) → 0 < count c p.lent → IsConserved p → IsConserved (check_put c p)
unfolding check_put count
check_put-IsConserved p c h v = elim (Bool-cases p.closed) [
  | inl e ↦ rw e (record { once = moved-IsConserved p c h v; in_size = v.in_size })
  | inr e ↦ rw e (record {
    once = λ d. omega (arith, v.once d, count-without c d p.lent h);
    in_size = v.in_size;
  })
]

send_conn-IsConserved :
    (p : PeerPool) (c : ℕ) → 0 < count c p.returning → IsConserved p → IsConserved (send_conn c p)
unfolding send_conn count
send_conn-IsConserved p c h v = elim (Bool-cases (ltb (length p.conns) p.pool_size)) [
  | inl e ↦ rw e (record {
    once = λ d.
        omega (arith, v.once d, count-without c d p.returning h, count-append d p.conns (c ∷ []));
    in_size = ground (arith, e, length-append {A = ℕ} p.conns (c ∷ []));
  })
  | inr e ↦ rw e (record {
    once = λ d. omega (arith, v.once d, count-without c d p.returning h);
    in_size = v.in_size;
  })
]

dialed-IsConserved : (p : PeerPool) → IsConserved p → IsConserved (dialed p)
unfolding dialed count
dialed-IsConserved p v = record { once = λ d. ground (arith, v.once d); in_size = v.in_size }

begin_close-IsConserved : (p : PeerPool) → IsConserved p → IsConserved (begin_close p)
unfolding begin_close
begin_close-IsConserved p v = elim (Bool-cases p.closed) [
  | inl e ↦ rw e (record { once = v.once; in_size = v.in_size })
  | inr e ↦ rw e (record { once = v.once; in_size = v.in_size })
]

drain_idle-IsConserved :
    (p : PeerPool) (cs : List ℕ) → p.conns ≡ cs → IsConserved p → IsConserved (drain_idle p)
unfolding drain_idle count
drain_idle-IsConserved p [] e v =
    rw e (record { once = λ c. ground (arith, v.once c, e); in_size = ground (arith, e) })
drain_idle-IsConserved p (c ∷ cs) e v = rw e (record {
  once = λ d. omega (arith, v.once d, ap (count d) e);
  in_size = ground (arith, v.in_size, e);
})

pub Step-IsConserved : {p q : PeerPool} → Step p q → IsConserved p → IsConserved q
Step-IsConserved (get p h) v = record { once = v.once; in_size = v.in_size }
Step-IsConserved (select p h) v = take_idle-IsConserved p p.conns refl v
Step-IsConserved (warm p h k) v = record { once = v.once; in_size = v.in_size }
Step-IsConserved (dial p h) v = dialed-IsConserved p v
Step-IsConserved (fail p h) v = record { once = v.once; in_size = v.in_size }
Step-IsConserved (give p c h) v = check_put-IsConserved p c h v
Step-IsConserved (send p c h) v = send_conn-IsConserved p c h v
Step-IsConserved (drop p c h) v = drop_conn-IsConserved p c h v
Step-IsConserved (close p) v = begin_close-IsConserved p v
Step-IsConserved (drain p h) v = drain_idle-IsConserved p p.conns refl v

new_peer_pool-IsConserved : (size : ℤ) → IsConserved (new_peer_pool size)
unfolding count
new_peer_pool-IsConserved size = record { once = λ c. ground arith; in_size = ground arith }

-- However the goroutines of a pool interleave, every connection that was ever dialed is in exactly one
-- place: idle, with one caller, on its way back, or closed; so no connection has two users, and none
-- that is closed is given out. No more are idle than the pool's size.
pub Reach-IsConserved : (size : ℤ) {p : PeerPool} → Reach (new_peer_pool size) p → IsConserved p
Reach-IsConserved size here = new_peer_pool-IsConserved size
Reach-IsConserved size (next r s) = Step-IsConserved s (Reach-IsConserved size r)
