-- ===== src/Store/History/Footprint.antt =====
-- What each operation does not touch: a write of the queue keeps the registry in step with the
-- log, a write of the registry the queue, and all of them the numbering of the log.
use coworker.Prelude.{ℕ, String, ◌≡◌, Bool, Option, arith, ◌==◌, if_same, Result, ok}
use coworker.Core.{Event, DispatchState}
use coworker.Store.Schema.{DispatchRow, WorkerRow, Db, Faults, Error, worker_handle}
use coworker.Store.Rows.{row}
use coworker.Store.Events.{write_event_then_row}
use coworker.Store.Events.Log.{logged}
use coworker.Store.Dispatches.{insert_dispatch, lease_dispatch, finish_dispatch}
use coworker.Store.Leases.{release_dispatch, clear_targets}
use coworker.Store.Workers.{insert_worker, update_worker, mark_stale}
use coworker.Store.Replay.{advance, status, IsProjected}
use coworker.Store.Replay.Writes.{replay-logged, write-IsProjected}
use coworker.Store.Roll.{Life, live_on, life_of, IsTracked}
use coworker.Store.Roll.Writes.{life-logged, write-IsTracked}

-- The projection writes the table dispatches alone.
abbrev pub OnlyDispatches : (Db → Result Error Db) → Type 0
OnlyDispatches apply_fn =
    (db p : Db) → apply_fn db ≡ ok p → (p.events ≡ db.events) × (p.workers ≡ db.workers)

-- The projection writes the table workers alone.
abbrev pub OnlyWorkers : (Db → Result Error Db) → Type 0
OnlyWorkers apply_fn =
    (db p : Db) → apply_fn db ≡ ok p → (p.events ≡ db.events) × (p.dispatches ≡ db.dispatches)

module _ (f : Faults) where
  pub insert_dispatch-OnlyDispatches : (r : DispatchRow) → OnlyDispatches (insert_dispatch f r)
  unfolding insert_dispatch
  insert_dispatch-OnlyDispatches r db p a = ground arith

  pub lease-OnlyDispatches : (now : ℕ) (id : String) → OnlyDispatches (lease_dispatch f now id)
  unfolding lease_dispatch
  lease-OnlyDispatches now id db p a = ground arith

  pub finish-OnlyDispatches : (now : ℕ) (id : String) → OnlyDispatches (finish_dispatch f now id)
  unfolding finish_dispatch
  finish-OnlyDispatches now id db p a = ground arith

  pub release-OnlyDispatches : (id : String) → OnlyDispatches (release_dispatch f id)
  unfolding release_dispatch
  release-OnlyDispatches id db p a = ground arith

  pub insert_worker-OnlyWorkers : (r : WorkerRow) → OnlyWorkers (insert_worker f r)
  unfolding insert_worker
  insert_worker-OnlyWorkers r db p a = ground arith

  pub update_worker-OnlyWorkers :
      (missing : Error) (q : WorkerRow → Bool) (g : WorkerRow → WorkerRow) (handle : String)
      → OnlyWorkers (update_worker f missing q g handle)
  unfolding update_worker
  update_worker-OnlyWorkers missing q g handle db p a = ground arith

  module _ (e : Event) (apply_fn : Db → Result Error Db) (db : Db) where
    -- A write about anything but a worker, which leaves the registry alone.
    pub write_off_roll :
        ((l : Life) → live_on e.kind l ≡ l)
        → OnlyDispatches apply_fn
        → IsTracked db
        → IsTracked (write_event_then_row f e apply_fn db).1
    write_off_roll quiet only h = write-IsTracked f e apply_fn db h (λ p a.
        let (log, rows) = only (logged e db) p a in
        record {
          keyed = rw rows h.keyed;
          agrees = λ j.
              rw (log, rows)
                (rw life-logged (
                  rw (h.agrees, quiet)
                    (if_same (e.correlation_id == j) (life_of (row worker_handle j db.workers)))));
        })

    -- A write about anything but a dispatch, which leaves the queue alone.
    pub write_off_queue :
        ((s : Option DispatchState) → advance e.kind s ≡ s)
        → OnlyWorkers apply_fn
        → IsProjected db
        → IsProjected (write_event_then_row f e apply_fn db).1
    write_off_queue quiet only h = write-IsProjected f e apply_fn db h (λ p a.
        let (log, rows) = only (logged e db) p a in
        record {
          keyed = rw rows h.keyed;
          agrees = λ j.
              rw (log, rows)
                (rw replay-logged
                  (rw (h.agrees, quiet) (if_same (e.correlation_id == j) (status j db))));
        })

-- What depends on two tables alone.
pub same_roll :
    (db p : Db) → p.events ≡ db.events → p.workers ≡ db.workers → IsTracked db → IsTracked p
same_roll db p log rows h = record {
  keyed = rw rows h.keyed;
  agrees = λ j. rw (log, rows) (h.agrees j);
}

pub same_queue :
    (db p : Db)
    → p.events ≡ db.events
    → p.dispatches ≡ db.dispatches
    → IsProjected db
    → IsProjected p
same_queue db p log rows h = record {
  keyed = rw rows h.keyed;
  agrees = λ j. rw (log, rows) (h.agrees j);
}

pub clear_targets_keeps :
    (f : Faults) (handle : String) (db : Db)
    → ((clear_targets f handle db).1.events ≡ db.events)
      × ((clear_targets f handle db).1.workers ≡ db.workers)
unfolding clear_targets
clear_targets_keeps f handle db = ground arith

pub mark_stale_keeps :
    (f : Faults) (cutoff : ℕ) (db : Db)
    → ((mark_stale f cutoff db).1.events ≡ db.events)
      × ((mark_stale f cutoff db).1.dispatches ≡ db.dispatches)
unfolding mark_stale
mark_stale_keeps f cutoff db = ground arith
