-- ===== src/Store/History/Consistency.antt =====
-- The invariant of the store, and that each operation keeps it.
use coworker.Prelude.{ℕ, String, ◌≡◌, refl, Option, none, some, [], ◌∷◌, arith, Result, select}
use coworker.Core.{Event, DispatchState, Payload, Dispatch, Worker}
use coworker.Store.Schema.{
  DispatchRow, Db, Faults, LoopEnv, Error, dispatch_id, worker_not_found, skip_eviction,
}
use coworker.Store.Rows.{row}
use coworker.Store.Events.{write_event_then_row}
use coworker.Store.Events.Log.{IsNumbered, write-IsNumbered}
use coworker.Store.Dispatches.{
  QueueOrder, prepared, queued_row, queued_event, insert_dispatch, enqueue_dispatch, leased_event,
  lease_dispatch, claim_found, claim_next_dispatch, eligible, completed_event, finish_dispatch,
  complete_found, complete_dispatch,
}
use coworker.Store.Leases.{release_dispatch, expired_event, release_one, clear_targets}
use coworker.Store.Workers
use coworker.Store.Workers.{
  registration_time, registered_row, registered_event, insert_worker, register, heartbeat_event,
  not_evicted, refreshed, update_worker, heartbeat, deregistered_event, deregister, mark_stale,
  stale_row, evict_one,
}
use coworker.Store.Replay.{replay, status, IsProjected}
use coworker.Store.Replay.Operations.{
  enqueue-IsProjected, claimed-db, claim_found-IsProjected, complete_found-IsProjected,
  release_one-IsProjected, clear_targets-IsProjected,
}
use coworker.Store.Roll.{life, life_of, broken, IsTracked}
use coworker.Store.Roll.Operations.{
  register-IsTracked, heartbeat-IsTracked, deregister-IsTracked, mark_stale-IsTracked,
  evict_one-IsTracked,
}
use coworker.Store.History.Footprint.{
  OnlyDispatches, OnlyWorkers, insert_dispatch-OnlyDispatches, lease-OnlyDispatches,
  finish-OnlyDispatches, release-OnlyDispatches, insert_worker-OnlyWorkers,
  update_worker-OnlyWorkers, write_off_roll, write_off_queue, same_roll, same_queue,
  clear_targets_keeps, mark_stale_keeps,
}

pub record IsConsistent (db : Db) : Type 0 where
  pub numbered : IsNumbered db.events
  pub projected : IsProjected db
  pub tracked : IsTracked db

-- A write of the queue that keeps the queue in step keeps all three.
queue_write :
    (f : Faults) (e : Event) (apply_fn : Db → Result Error Db) (db : Db)
    → OnlyDispatches apply_fn
    → ((l : _) → coworker.Store.Roll.live_on e.kind l ≡ l)
    → IsProjected (write_event_then_row f e apply_fn db).1
    → IsConsistent db
    → IsConsistent (write_event_then_row f e apply_fn db).1
queue_write f e apply_fn db only quiet p h = record {
  numbered = write-IsNumbered f e apply_fn db (λ s t a. (only s t a).0) h.numbered;
  projected = p;
  tracked = write_off_roll f e apply_fn db quiet only h.tracked;
}

registry_write :
    (f : Faults) (e : Event) (apply_fn : Db → Result Error Db) (db : Db)
    → OnlyWorkers apply_fn
    → ((s : Option DispatchState) → coworker.Store.Replay.advance e.kind s ≡ s)
    → IsTracked (write_event_then_row f e apply_fn db).1
    → IsConsistent db
    → IsConsistent (write_event_then_row f e apply_fn db).1
registry_write f e apply_fn db only quiet t h = record {
  numbered = write-IsNumbered f e apply_fn db (λ s t a. (only s t a).0) h.numbered;
  projected = write_off_queue f e apply_fn db quiet only h.projected;
  tracked = t;
}

pub enqueue-IsConsistent :
    (f : Faults) (now : ℕ) (fresh_id event_id : String) (d : Dispatch) (db : Db)
    → IsConsistent db
    → IsConsistent (enqueue_dispatch f now fresh_id event_id d db).1
unfolding enqueue_dispatch
enqueue-IsConsistent f now fresh_id event_id d db h =
    let d' = prepared fresh_id now d in
    let r = queued_row now d' in
    queue_write f (queued_event event_id now d') (insert_dispatch f r) db
      (insert_dispatch-OnlyDispatches f r) (λ l. refl)
      (enqueue-IsProjected f now fresh_id event_id d db h.projected) h

pub claim_found-IsConsistent :
    (f : Faults) (now : ℕ) (event_id : String) (o : Option DispatchRow) (db : Db)
    → IsConsistent db
    → IsConsistent (claim_found f now event_id o db).1
unfolding claim_found
claim_found-IsConsistent f now event_id none db h = h
claim_found-IsConsistent f now event_id (some r) db h = rw claimed-db (
    queue_write f (leased_event event_id now r) (lease_dispatch f now r.id) db
      (lease-OnlyDispatches f now r.id) (λ l. refl)
      (rw claimed-db at (claim_found-IsProjected f now event_id (some r) db h.projected)) h)

pub claim-IsConsistent :
    (order : QueueOrder) (f : Faults) (now : ℕ) (event_id role handle : String) (db : Db)
    → IsConsistent db
    → IsConsistent (claim_next_dispatch order f now event_id role handle db).1
unfolding claim_next_dispatch
claim-IsConsistent order f now event_id role handle db h = grind (
  arith,
  claim_found-IsConsistent f now event_id
      (order.oldest (select (eligible role handle) db.dispatches)) db h,
  h,
)

pub complete_found-IsConsistent :
    (f : Faults) (now : ℕ) (event_id id outputs : String) (o : Option DispatchRow) (db : Db)
    → IsConsistent db
    → IsConsistent (complete_found f now event_id id outputs o db).1
unfolding complete_found
complete_found-IsConsistent f now event_id id outputs none db h = h
complete_found-IsConsistent f now event_id id outputs (some r) db h =
    queue_write f (completed_event event_id now id outputs r.run_id) (finish_dispatch f now id) db
      (finish-OnlyDispatches f now id) (λ l. refl)
      (complete_found-IsProjected f now event_id id outputs (some r) db h.projected) h

pub complete-IsConsistent :
    (f : Faults) (now : ℕ) (event_id id outputs : String) (db : Db)
    → IsConsistent db
    → IsConsistent (complete_dispatch f now event_id id outputs db).1
unfolding complete_dispatch
complete-IsConsistent f now event_id id outputs db h = grind (
  arith,
  complete_found-IsConsistent f now event_id id outputs (row dispatch_id id db.dispatches) db h,
  h,
)

pub release-IsConsistent :
    (env : LoopEnv) (now : ℕ) (payload : Payload) (id run_id : String) (db : Db)
    → IsConsistent db
    → IsConsistent (release_one env now payload id run_id db).1
unfolding release_one
release-IsConsistent env now payload id run_id db h =
    queue_write (env.faults id) (expired_event (env.event_id id) now payload id run_id)
      (release_dispatch (env.faults id) id) db (release-OnlyDispatches (env.faults id) id)
      (λ l. refl) (release_one-IsProjected env now payload id run_id db h.projected) h

pub clear-IsConsistent :
    (f : Faults) (handle : String) (db : Db)
    → IsConsistent db
    → IsConsistent (clear_targets f handle db).1
clear-IsConsistent f handle db h =
    let (same_log, rows) = clear_targets_keeps f handle db in
    record {
      numbered = rw same_log h.numbered;
      projected = clear_targets-IsProjected f handle db h.projected;
      tracked = same_roll db (clear_targets f handle db).1 same_log rows h.tracked;
    }

pub stale-IsConsistent :
    (f : Faults) (cutoff : ℕ) (db : Db) → IsConsistent db → IsConsistent (mark_stale f cutoff db).1
stale-IsConsistent f cutoff db h =
    let (same_log, rows) = mark_stale_keeps f cutoff db in
    record {
      numbered = rw same_log h.numbered;
      projected = same_queue db (mark_stale f cutoff db).1 same_log rows h.projected;
      tracked = mark_stale-IsTracked f cutoff db h.tracked;
    }

pub register-IsConsistent :
    (f : Faults) (now : ℕ) (event_id : String) (w : Worker) (db : Db)
    → IsConsistent db
    → IsConsistent (register f now event_id w db).1
unfolding register
register-IsConsistent f now event_id w db h =
    let t = registration_time now w in
    registry_write f (registered_event event_id t w) (insert_worker f (registered_row t w)) db
      (insert_worker-OnlyWorkers f (registered_row t w)) (λ s. refl)
      (register-IsTracked f now event_id w db h.tracked) h

pub heartbeat-IsConsistent :
    (f : Faults) (now : ℕ) (event_id handle : String) (db : Db)
    → IsConsistent db
    → IsConsistent (heartbeat f now event_id handle db).1
unfolding heartbeat
heartbeat-IsConsistent f now event_id handle db h =
    registry_write f (heartbeat_event event_id now handle)
      (update_worker f worker_not_found not_evicted (refreshed now) handle) db
      (update_worker-OnlyWorkers f worker_not_found not_evicted (refreshed now) handle) (λ s. refl)
      (heartbeat-IsTracked f now event_id handle db h.tracked) h

pub deregister-IsConsistent :
    (f : Faults) (now : ℕ) (event_id handle : String) (db : Db)
    → IsConsistent db
    → IsConsistent (deregister f now event_id handle db).1
unfolding deregister
deregister-IsConsistent f now event_id handle db h =
    registry_write f (deregistered_event event_id now handle (("handle", handle) ∷ []))
      (update_worker f worker_not_found not_evicted Workers.evict handle) db
      (update_worker-OnlyWorkers f worker_not_found not_evicted Workers.evict handle) (λ s. refl)
      (deregister-IsTracked f now event_id handle db h.tracked) h

pub evict_one-IsConsistent :
    (env : LoopEnv) (now : ℕ) (handle : String) (db : Db)
    → IsConsistent db
    → IsConsistent (evict_one env now handle db).1
unfolding evict_one
evict_one-IsConsistent env now handle db h =
    registry_write (env.faults handle)
      (deregistered_event (env.event_id handle) now handle
        (("handle", handle) ∷ ("reason", "heartbeat_timeout") ∷ []))
      (update_worker (env.faults handle) skip_eviction stale_row Workers.evict handle) db
      (update_worker-OnlyWorkers (env.faults handle) skip_eviction stale_row Workers.evict handle)
      (λ s. refl) (evict_one-IsTracked env now handle db h.tracked) h
