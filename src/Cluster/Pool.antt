-- ===== src/Cluster/Pool.antt =====
-- pkg/cluster/pool.go: the connections to one peer. The goroutines that
-- use a pool interleave: each of its steps is one critical section, one select on the channel of
-- idle connections, or the end of a dial. A connection is the number of the dial that made it.
pub mod Conserved
pub mod Drained
mod Tests
use jaydb.Base.{
  ℕ, zero, suc, ◌+◌, ◌-◌, ◌≡◌, ◌<◌, ◌≤◌, List, [], ◌∷◌, ◌++◌, Bool, true, false, if◌then◌else◌, ltb,
  leb, ◌==◌, length, ℤ, pos_part,
}

-- `DefaultPoolSize`
abbrev pub default_pool_size : ℕ
default_pool_size = 8

-- `PeerPool`, with what its goroutines have in hand: the calls of GetConn and EnsureConnected that
-- found the pool open (`getting`), those that dial (`dialing`), the connections that a caller holds
-- (`lent`), those that PutConn or EnsureConnected is about to send because it found the pool open
-- (`returning`), and the runs of Close that drain (`draining`). `shut` are the closed connections.
pub record PeerPool : Type 0 where
  pub pool_size : ℕ
  pub closed : Bool
  pub conns : List ℕ
  pub getting : ℕ
  pub dialing : ℕ
  pub dials : ℕ
  pub lent : List ℕ
  pub returning : List ℕ
  pub draining : ℕ
  pub shut : List ℕ

-- `NewPeerPool`; the goroutine that warms it up is the steps of EnsureConnected.
abbrev pub new_peer_pool : ℤ → PeerPool
new_peer_pool size = record {
  pool_size = if leb (pos_part size) 0 then default_pool_size else pos_part size;
  closed = false;
  conns = [];
  getting = 0;
  dialing = 0;
  dials = 0;
  lent = [];
  returning = [];
  draining = 0;
  shut = [];
}

-- How often a connection is on a list, and the list without it.
unfoldable pub count : ℕ → List ℕ → ℕ
count c [] = 0
count c (x ∷ xs) = (if c == x then 1 else 0) + count c xs

unfoldable pub without : ℕ → List ℕ → List ℕ
without c [] = []
without c (x ∷ xs) = if c == x then xs else x ∷ without c xs

-- `GetConn` behind its check of `closed`: an idle connection, or a dial.
unfoldable pub take_idle : PeerPool → PeerPool
take_idle p = elim p.conns [
  | [] ↦ record p { getting = p.getting - 1; dialing = p.dialing + 1 }
  | c ∷ cs ↦ record p { getting = p.getting - 1; conns = cs; lent = c ∷ p.lent }
]

-- A dial that succeeds.
unfoldable pub dialed : PeerPool → PeerPool
dialed p = record p { dialing = p.dialing - 1; dials = p.dials + 1; lent = p.dials ∷ p.lent }

-- `PutConn`'s check of `closed`, and the one of EnsureConnected behind its dial.
unfoldable pub check_put : ℕ → PeerPool → PeerPool
check_put c p =
    if p.closed
    then record p { lent = without c p.lent; shut = c ∷ p.shut }
    else record p { lent = without c p.lent; returning = c ∷ p.returning }

-- The select behind that check: into the channel, or closed if it is full.
unfoldable pub send_conn : ℕ → PeerPool → PeerPool
send_conn c p =
    if ltb (length p.conns) p.pool_size
    then record p { returning = without c p.returning; conns = p.conns ++ (c ∷ []) }
    else record p { returning = without c p.returning; shut = c ∷ p.shut }

-- `DropConn`
unfoldable pub drop_conn : ℕ → PeerPool → PeerPool
drop_conn c p = record p { lent = without c p.lent; shut = c ∷ p.shut }

-- `Close` up to its loop
unfoldable pub begin_close : PeerPool → PeerPool
begin_close p = if p.closed then p else record p { closed = true; draining = p.draining + 1 }

-- One round of the loop of `Close`
unfoldable pub drain_idle : PeerPool → PeerPool
drain_idle p = elim p.conns [
  | [] ↦ record p { draining = p.draining - 1 }
  | c ∷ cs ↦ record p { conns = cs; shut = c ∷ p.shut }
]

pub data Step : PeerPool → PeerPool → Type 0 where
  get : (p : PeerPool) → p.closed ≡ false → Step p (record p { getting = p.getting + 1 })
  select : (p : PeerPool) → 0 < p.getting → Step p (take_idle p)
  warm :
      (p : PeerPool)
      → p.closed ≡ false
      → length p.conns < p.pool_size
      → Step p (record p { dialing = p.dialing + 1 })
  dial : (p : PeerPool) → 0 < p.dialing → Step p (dialed p)
  fail : (p : PeerPool) → 0 < p.dialing → Step p (record p { dialing = p.dialing - 1 })
  give : (p : PeerPool) (c : ℕ) → 0 < count c p.lent → Step p (check_put c p)
  send : (p : PeerPool) (c : ℕ) → 0 < count c p.returning → Step p (send_conn c p)
  drop : (p : PeerPool) (c : ℕ) → 0 < count c p.lent → Step p (drop_conn c p)
  close : (p : PeerPool) → Step p (begin_close p)
  drain : (p : PeerPool) → 0 < p.draining → Step p (drain_idle p)

-- The pools that steps lead to.
pub data Reach (s : PeerPool) : PeerPool → Type 0 where
  here : Reach s s
  next : {t u : PeerPool} → Reach s t → Step t u → Reach s u
