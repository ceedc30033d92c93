-- ===== src/Store/Jobs.antt =====
-- store/job_store.go: the jobs of a run and their states.
pub mod States
use coworker.Prelude.{
  ℕ, ◌*◌, String, Bool, true, false, Option, none, some, List, [], ◌∷◌, ◌++◌, ◌==◌, if◌then◌else◌,
  any, update_where, Result, ok, err,
}
use coworker.Core.{
  EventKind, job_created, job_leased, job_completed, job_failed, job_state_changed, Event, seconds,
}
use coworker.Core.Jobs.{Job, JobState, pending, dispatched, running, complete, failed, cancelled}
use coworker.Store.Schema.{
  JobRow, Db, Faults, Error, select_rows, write_row, duplicate_key, missing_run, job_not_found,
  job_key, run_exists, Outcome,
}
use coworker.Store.Rows.{row}
use coworker.Store.Events.{write_event_then_row}
use coworker.Store.Runs.{run_event}

abbrev pub job_state_text : JobState → String
job_state_text pending = "pending"
job_state_text dispatched = "dispatched"
job_state_text running = "running"
job_state_text complete = "complete"
job_state_text failed = "failed"
job_state_text cancelled = "cancelled"

unfoldable pub job_row : Job → JobRow
job_row job = record {
  id = job.id;
  run_id = job.run_id;
  role = job.role;
  state = job.state;
  dispatched_by = job.dispatched_by;
  cli = job.cli;
  started_at = seconds job.started_at;
  ended_at = none;
  plan_id = job.plan_id;
  phase_index = job.phase_index;
}

-- `INSERT INTO jobs`, under PRIMARY KEY(id) and the reference to runs.
unfoldable pub insert_job : Faults → JobRow → Db → Result Error Db
insert_job f r db =
    if f.row
    then err write_row
    else if any (λ o. job_key o == r.id) db.jobs
    then err duplicate_key
    else if run_exists db r.run_id
    then ok (record db { jobs = db.jobs ++ r ∷ [] })
    else err missing_run

unfoldable pub job_created_event : String → Job → Event
unfolding run_event
job_created_event event_id job =
    run_event event_id job_created job.run_id job.id
      (("cli", job.cli) ∷ ("job_id", job.id) ∷ ("role", job.role) ∷ ("run_id", job.run_id) ∷ [])
      job.started_at

unfoldable pub create_job : Faults → String → Job → Db → Outcome
unfolding job_created_event job_row insert_job
create_job f event_id job db =
    write_event_then_row f (job_created_event event_id job) (insert_job f (job_row job)) db

-- The kind of the event that a new state is logged under.
unfoldable pub job_event_kind : JobState → EventKind
job_event_kind complete = job_completed
job_event_kind failed = job_failed
job_event_kind dispatched = job_leased
job_event_kind _ = job_state_changed

unfoldable pub is_final : JobState → Bool
is_final complete = true
is_final failed = true
is_final cancelled = true
is_final _ = false

-- `SET state = ?`, and the time of the end with a final state.
unfoldable pub moved : ℕ → JobState → JobRow → JobRow
unfolding is_final
moved now state r =
    if is_final state
    then record r { state = state; ended_at = some (seconds now) }
    else record r { state = state }

-- The UPDATE is not checked for the rows it reaches.
unfoldable pub set_job_state : Faults → ℕ → String → JobState → Db → Result Error Db
unfolding moved
set_job_state f now job_id state db =
    if f.row
    then err write_row
    else ok (record db { jobs = update_where (λ r. job_key r == job_id) (moved now state) db.jobs })

unfoldable pub job_state_event : String → ℕ → String → String → JobState → Event
unfolding run_event job_event_kind
job_state_event event_id now run_id job_id state =
    run_event event_id (job_event_kind state) run_id job_id
      (("job_id", job_id) ∷ ("state", job_state_text state) ∷ []) now

-- The run of the event is that of the job's row; without one the Scan fails.
unfoldable pub update_found : Faults → ℕ → String → String → JobState → Option JobRow → Db → Outcome
unfolding job_state_event set_job_state
update_found f now event_id job_id state none db = (err job_not_found, db)
update_found f now event_id job_id state (some r) db =
    write_event_then_row f (job_state_event event_id now r.run_id job_id state)
      (set_job_state f now job_id state) db

unfoldable pub update_job_state : Faults → ℕ → String → String → JobState → Db → Outcome
unfolding update_found
update_job_state f now event_id job_id state db =
    if f.select
    then (err select_rows, db)
    else update_found f now event_id job_id state (row job_key job_id db.jobs) db
