-- ===== src/Store/Runs.antt =====
-- store/run_store.go: the runs, whose two changes are logged before they are made.
use coworker.Prelude.{
  ℕ, ◌*◌, String, Option, none, some, [], ◌∷◌, ◌++◌, ◌==◌, if◌then◌else◌, any, update_where, Result,
  ok, err,
}
use coworker.Core.{EventKind, run_created, run_completed, Payload, Event, seconds}
use coworker.Core.Jobs.{Run, RunState, active, completed, failed, aborted}
use coworker.Store.Schema.{
  RunRow, Db, Faults, Error, select_rows, write_row, duplicate_key, run_not_found, run_key, Outcome,
}
use coworker.Store.Rows.{row}
use coworker.Store.Events.{write_event_then_row}

abbrev pub run_state_text : RunState → String
run_state_text active = "active"
run_state_text completed = "completed"
run_state_text failed = "failed"
run_state_text aborted = "aborted"

-- An event of a run as the stores write it, with the id of what it is about, if any.
unfoldable pub run_event : String → EventKind → String → String → Payload → ℕ → Event
run_event event_id kind run_id about payload now = record {
  id = event_id;
  run_id = run_id;
  sequence = 0;
  kind = kind;
  schema_version = 1;
  idempotency_key = "";
  causation_id = "";
  correlation_id = about;
  payload = payload;
  created_at = now;
}

unfoldable pub run_row : Run → RunRow
run_row run = record {
  id = run.id;
  mode = run.mode;
  state = run.state;
  started_at = seconds run.started_at;
  ended_at = none;
  prd_path = run.prd_path;
  spec_path = run.spec_path;
}

-- `INSERT INTO runs`.
unfoldable pub insert_run : Faults → RunRow → Db → Result Error Db
insert_run f r db =
    if f.row
    then err write_row
    else if any (λ o. run_key o == r.id) db.runs
    then err duplicate_key
    else ok (record db { runs = db.runs ++ r ∷ [] })

unfoldable pub run_created_event : String → Run → Event
unfolding run_event
run_created_event event_id run =
    run_event event_id run_created run.id "" (("mode", run.mode) ∷ ("run_id", run.id) ∷ [])
      run.started_at

unfoldable pub create_run : Faults → String → Run → Db → Outcome
unfolding run_created_event run_row insert_run
create_run f event_id run db =
    write_event_then_row f (run_created_event event_id run) (insert_run f (run_row run)) db

-- `SET state = ?, ended_at = ?`.
unfoldable pub ended : ℕ → RunState → RunRow → RunRow
ended now state r = record r { state = state; ended_at = some (seconds now) }

-- The UPDATE is not checked for the rows it reaches.
unfoldable pub set_run_state : Faults → ℕ → String → RunState → Db → Result Error Db
unfolding ended
set_run_state f now run_id state db =
    if f.row
    then err write_row
    else ok (record db { runs = update_where (λ r. run_key r == run_id) (ended now state) db.runs })

unfoldable pub run_completed_event : String → ℕ → String → RunState → Event
unfolding run_event
run_completed_event event_id now run_id state =
    run_event event_id run_completed run_id ""
      (("run_id", run_id) ∷ ("state", run_state_text state) ∷ []) now

unfoldable pub complete_run : Faults → ℕ → String → String → RunState → Db → Outcome
unfolding run_completed_event set_run_state
complete_run f now event_id run_id state db =
    write_event_then_row f (run_completed_event event_id now run_id state)
      (set_run_state f now run_id state) db

abbrev nanoseconds : Option ℕ → Option ℕ
nanoseconds none = none
nanoseconds (some t) = some (t * 1_000_000_000)

unfoldable pub scan_run : RunRow → Run
scan_run r = record {
  id = r.id;
  mode = r.mode;
  state = r.state;
  started_at = r.started_at * 1_000_000_000;
  ended_at = nanoseconds r.ended_at;
  prd_path = r.prd_path;
  spec_path = r.spec_path;
}

abbrev pub found_run : Option RunRow → Result Error Run
found_run none = err run_not_found
found_run (some r) = ok (scan_run r)

unfoldable pub get_run : Faults → String → Db → Result Error Run
unfolding scan_run
get_run f id db = if f.select then err select_rows else found_run (row run_key id db.runs)
