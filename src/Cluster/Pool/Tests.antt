-- ===== src/Cluster/Pool/Tests.antt =====
-- Tests and witnesses for the pool of a peer.
use jaydb.Base.{ℕ, ◌≡◌, ◌<◌, ◌+◌, refl, [], ◌∷◌, true, pos, arith}
use jaydb.Cluster.Pool.{
  PeerPool, new_peer_pool, count, without, take_idle, dialed, check_put, send_conn, drop_conn,
  begin_close, drain_idle, get, select, dial, give, send, close, drain, Reach, here, next,
}
use jaydb.Cluster.Pool.Conserved.{IsConserved, Reach-IsConserved}
use jaydb.Cluster.Pool.Drained.{close-drained}

program : Unit {0}
unfolding count without take_idle dialed check_put send_conn drop_conn begin_close drain_idle
program = tt

abbrev start : PeerPool
start = new_peer_pool (pos 1)

-- One caller has dialed a connection.
abbrev busy : PeerPool
busy = record start { dials = 1; lent = 0 ∷ [] }

busy-Reach : Reach start busy
unfolding program
busy-Reach =
    next (next (next here (get start refl)) (select _ (omega arith))) (dial _ (omega arith))

Reach-IsConserved_example : IsConserved busy
Reach-IsConserved_example = Reach-IsConserved (pos 1) busy-Reach

-- The pool is closed and drained, and the caller gives its connection back.
abbrev ended : PeerPool
ended = record start { dials = 1; closed = true; shut = 0 ∷ [] }

ended-Reach : Reach (begin_close busy) ended
unfolding program
ended-Reach = next (next here (drain _ (omega arith))) (give _ 0 (omega arith))

close-drained_example :
    (ended.closed ≡ true)
    × (ended.draining ≡ 0 → (c : ℕ) → c < ended.dials → count c ended.lent + count c ended.shut ≡ 1)
close-drained_example = close-drained (pos 1) busy-Reach refl refl ended-Reach

-- A connection whose return has passed the check when the pool closes is left behind, open, in the
-- channel of a pool that is closed and drained.
leak : Reach start (record start { dials = 1; closed = true; conns = 0 ∷ [] })
unfolding program
leak =
    next (next (next (next busy-Reach (give _ 0 (omega arith))) (close _)) (drain _ (omega arith)))
      (send _ 0 (omega arith))
