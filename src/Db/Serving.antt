-- ===== src/Db/Serving.antt =====
-- pkg/db/db.go: how `Open` and `Close` of a database tell the cluster node that it shares with
-- others, and what `Close` does in all. The handler of a database is a parameter.
pub mod Closed
mod Tests
use jaydb.Base.{ℕ, List, [], ◌∷◌, Str, Bool, Option, none, some, if◌then◌else◌, str_eq}
use jaydb.Storage.{Error}
use jaydb.Cache.Budget.{Run, done, stuck, panicked}
use jaydb.Cluster.Members.{Event}
use jaydb.Cluster.Mesh.{Handler, Node, register_handler, unregister_handler}
use jaydb.Cluster.Start.{Net, Running, close_node}
use jaydb.Db.Ownership.{Options, Database, open_db}
use jaydb.Db.Calls.{close}
use jaydb.Cache.Calls.{World}

-- A cluster node: what it serves, and what it has open.
pub record Host (S : Type 0) : Type 0 where
  pub serves : Node S
  pub runs : Running

-- `Open` or `Close` of some database on the node; `Close` with the events that the node sends when it
-- leaves.
pub data Life (S : Type 0) : Type 0 where
  opened : Str → Handler S → Life S
  closed : Str → List Event → Life S

module _ {S : Type 0} where
  -- `Open` at a node.
  unfoldable pub open_on : Str → Handler S → Host S → Host S
  open_on namespace d h = record h { serves = register_handler namespace d h.serves }

  abbrev pub open_at : Str → Handler S → Option (Host S) → Option (Host S)
  open_at namespace d none = none
  open_at namespace d (some h) = some (open_on namespace d h)

  -- `Open`
  abbrev pub open_database :
      ℕ → Options → Handler S → World → Option (Host S) → Database × Option (Host S)
  open_database number opts d w host = (open_db number opts w, open_at opts.namespace d host)

  module _ (net : Net) where
    -- `Close` at a node, which it closes too if the database has no namespace.
    unfoldable pub close_on : Str → List Event → Host S → Host S
    close_on namespace es h = record {
      serves = unregister_handler namespace h.serves;
      runs = if str_eq namespace [] then close_node net es h.runs else h.runs;
    }

    abbrev pub close_at : Str → List Event → Option (Host S) → Option (Host S)
    close_at namespace es none = none
    close_at namespace es (some h) = some (close_on namespace es h)

    -- `Close`, with what the storage makes of its own `Close`. The node drops the handler before the
    -- storage is closed.
    unfoldable pub close_database :
        {D : Type 0}
        → (ℕ → Bool)
        → ℕ
        → (D → Option Error × D)
        → List Event
        → D
        → Database
        → Option (Host S)
        → Run (Option Error × D × Database × Option (Host S))
    close_database config fuel close_driver es disk d host =
        let host' = close_at d.namespace es host in
        elim (close config fuel d) [
          | stuck ↦ stuck
          | panicked ↦ panicked
          | done d' ↦ let (r, disk') = close_driver disk in done (r, disk', d', host')
        ]

    unfoldable pub run_lives : List (Life S) → Host S → Host S
    run_lives [] h = h
    run_lives (opened namespace d ∷ ls) h = run_lives ls (open_on namespace d h)
    run_lives (closed namespace es ∷ ls) h = run_lives ls (close_on namespace es h)
