-- ===== src/Store/Replay.antt =====
-- The event log read back: the state of a dispatch that its events tell of, and the table
-- dispatches as the projection of the log.
pub mod Writes
pub mod Operations
use coworker.Prelude.{
  String, ◌≡◌, Bool, Option, none, some, List, [], ◌∷◌, ◌++◌, ◌==◌, if◌then◌else◌,
}
use coworker.Core.{
  EventKind, dispatch_queued, dispatch_leased, dispatch_completed, dispatch_expired, DispatchState,
  pending, leased, completed,
}
use coworker.Store.Schema.{equals, EventRow, DispatchRow, Db, dispatch_id}
use coworker.Store.Rows.{row, IsKeyed}
use coworker.Store.Dispatches.{is_null}

-- The life of a dispatch: queued, leased, and then completed or back in the queue. An event that
-- does not fit the state changes nothing.
abbrev pub advance : EventKind → Option DispatchState → Option DispatchState
advance dispatch_queued none = some pending
advance dispatch_leased (some pending) = some leased
advance dispatch_completed (some leased) = some completed
advance dispatch_expired (some leased) = some pending
advance _ s = s

-- The event is correlated with the id.
unfoldable pub about : String → EventRow → Bool
unfolding is_null equals
about id e = if id == "" then is_null e.correlation_id else equals e.correlation_id id

unfoldable pub replay_from : Option DispatchState → String → List EventRow → Option DispatchState
replay_from s id [] = s
replay_from s id (e ∷ events) = replay_from (if about id e then advance e.kind s else s) id events

abbrev pub replay : String → List EventRow → Option DispatchState
replay id events = replay_from none id events

abbrev pub state_of : Option DispatchRow → Option DispatchState
state_of none = none
state_of (some r) = some r.state

-- The state in the table, `none` where there is no row.
abbrev pub status : String → Db → Option DispatchState
status id db = state_of (row dispatch_id id db.dispatches)

-- The table has one row for a key, and says of every id what the log says.
pub record IsProjected (db : Db) : Type 0 where
  pub keyed : IsKeyed dispatch_id db.dispatches
  pub agrees : (id : String) → replay id db.events ≡ status id db
