-- ===== src/Store/Roll.antt =====
-- The events of a worker read back. The log of one handle is: registered, then heartbeats, then at
-- most one deregistered; the table workers shows where in it the worker is.
pub mod Writes
pub mod Operations
use coworker.Prelude.{String, ◌≡◌, Bool, Option, none, some, List, [], ◌∷◌, if◌then◌else◌}
use coworker.Core.{
  EventKind, worker_registered, worker_heartbeat, worker_deregistered, WorkerState, live, stale,
  evicted,
}
use coworker.Store.Schema.{EventRow, WorkerRow, Db, worker_handle}
use coworker.Store.Rows.{row, IsKeyed}
use coworker.Store.Replay.{about}

-- `broken` is a log that no life of a worker gives: a heartbeat of a worker that is not
-- registered, a second registration, a second eviction.
pub data Life : Type 0 where
  unknown up down broken : Life

abbrev pub live_on : EventKind → Life → Life
live_on worker_registered unknown = up
live_on worker_registered _ = broken
live_on worker_heartbeat up = up
live_on worker_heartbeat _ = broken
live_on worker_deregistered up = down
live_on worker_deregistered _ = broken
live_on _ l = l

unfoldable pub life_from : Life → String → List EventRow → Life
life_from l handle [] = l
life_from l handle (e ∷ events) =
    life_from (if about handle e then live_on e.kind l else l) handle events

abbrev pub life : String → List EventRow → Life
life handle events = life_from unknown handle events

abbrev pub life_in : WorkerState → Life
life_in live = up
life_in stale = up
life_in evicted = down

abbrev pub life_of : Option WorkerRow → Life
life_of none = unknown
life_of (some r) = life_in r.state

-- The table has one row for a handle, and says of every handle what the log says.
pub record IsTracked (db : Db) : Type 0 where
  pub keyed : IsKeyed worker_handle db.workers
  pub agrees :
      (handle : String) → life handle db.events ≡ life_of (row worker_handle handle db.workers)
