-- ===== src/Store/Leases.antt =====
-- store/dispatch_store.go, from ExpireLeases to RequeueByWorker: leases that are taken back.
use coworker.Prelude.{
  ℕ, ◌-◌, String, Bool, false, ◌&&◌, Option, none, some, List, [], ◌∷◌, ◌==◌, leb, if◌then◌else◌,
  select, update_where, Result, ok, err,
}
use coworker.Core.{dispatch_expired, Payload, Event, pending, seconds}
use coworker.Store.Schema.{
  equals, DispatchRow, Db, Faults, LoopEnv, Error, select_rows, write_row, dispatch_id, Outcome,
  after,
}
use coworker.Store.Events.{write_event_then_row}
use coworker.Store.Dispatches.{is_pending, is_leased, dispatch_event}

-- `UPDATE dispatches SET state = 'pending', worker_handle = NULL, leased_at = NULL
--  WHERE id = ? AND state = 'leased'`. The number of rows affected is not looked at.
unfoldable pub release : DispatchRow → DispatchRow
release r = record r { state = pending; worker_handle = none; leased_at = none }

unfoldable pub release_dispatch : Faults → String → Db → Result Error Db
unfolding is_leased release
release_dispatch f id db =
    if f.row
    then err write_row
    else ok (record db {
      dispatches =
          update_where (λ r. dispatch_id r == id && is_leased r.state) release db.dispatches;
    })

unfoldable pub expired_event : String → ℕ → Payload → String → String → Event
unfolding dispatch_event
expired_event event_id now payload id run_id =
    dispatch_event event_id dispatch_expired id run_id payload now

-- One round of the loops of ExpireLeases and RequeueByWorker, with the event's payload.
unfoldable pub release_one : LoopEnv → ℕ → Payload → String → String → Db → Outcome
unfolding expired_event
release_one env now payload id run_id db =
    write_event_then_row (env.faults id) (expired_event (env.event_id id) now payload id run_id)
      (release_dispatch (env.faults id) id) db

-- The loop: the first error ends it, and what was written before stays.
unfoldable pub release_each :
    LoopEnv → ℕ → (DispatchRow → Payload) → List DispatchRow → Db → Outcome
release_each env now payload [] db = (ok tt, db)
release_each env now payload (r ∷ rest) db =
    after (release_one env now (payload r) r.id r.run_id db)
      (λ db'. release_each env now payload rest db')

leased_before : ℕ → Option ℕ → Bool
leased_before cutoff none = false
leased_before cutoff (some t) = leb t cutoff

-- `WHERE state = 'leased' AND leased_at <= ?`.
unfoldable pub lease_expired : ℕ → DispatchRow → Bool
unfolding is_leased leased_before
lease_expired cutoff r = is_leased r.state && leased_before cutoff r.leased_at

abbrev pub expired_payload : DispatchRow → Payload
expired_payload r = ("dispatch_id", r.id) ∷ ("run_id", r.run_id) ∷ []

-- The cutoff is taken from the clock before the query, the events' time after it.
unfoldable pub expire_leases : Faults → LoopEnv → ℕ → ℕ → ℕ → Db → Outcome
expire_leases f env now later timeout db =
    if f.select
    then (err select_rows, db)
    else release_each env later expired_payload
        (select (lease_expired (seconds (now - timeout))) db.dispatches) db

-- `WHERE state = 'leased' AND worker_handle = ?`.
unfoldable pub leased_by : String → DispatchRow → Bool
unfolding is_leased equals
leased_by handle r = is_leased r.state && equals r.worker_handle handle

abbrev pub evicted_payload : String → DispatchRow → Payload
evicted_payload handle r =
    ("dispatch_id", r.id)
    ∷ ("reason", "worker_evicted")
    ∷ ("run_id", r.run_id)
    ∷ ("worker_handle", handle)
    ∷ []

-- `UPDATE dispatches SET worker_handle = NULL WHERE worker_handle = ? AND state = 'pending'`.
unfoldable pub pending_for : String → DispatchRow → Bool
unfolding is_pending equals
pending_for handle r = equals r.worker_handle handle && is_pending r.state

unfoldable pub untarget : DispatchRow → DispatchRow
untarget r = record r { worker_handle = none }

unfoldable pub clear_targets : Faults → String → Db → Outcome
unfolding pending_for untarget
clear_targets f handle db = if f.row then (err write_row, db) else (
  ok tt,
  record db { dispatches = update_where (pending_for handle) untarget db.dispatches },
)

unfoldable pub requeue_by_worker : Faults → LoopEnv → ℕ → String → Db → Outcome
requeue_by_worker f env now handle db =
    if f.select
    then (err select_rows, db)
    else after
        (release_each env now (evicted_payload handle) (select (leased_by handle) db.dispatches) db)
        (clear_targets f handle)
