-- ===== src/Store/Schema.antt =====
-- The tables of store/migrations/*.sql that the modelled stores write, the SQL statements over
-- them, and the ways in which a call of the database can fail.
use coworker.Prelude.{
  ℕ, String, Bool, false, Option, none, some, List, ◌==◌, if◌then◌else◌, any, Result, ok, err, ◌≡◌,
  refl, ap,
}
use coworker.Core.{EventKind, Payload, Event, DispatchState, WorkerState}
use coworker.Core.Jobs.{RunState, JobState}
use coworker.Manifest.Integers.{ℤ}

-- A TEXT column that may be NULL.
abbrev pub NullString : Type 0
NullString = Option String

-- `nullableString` of store/event_store.go.
unfoldable pub nullable_string : String → NullString
nullable_string s = if s == "" then none else some s

-- `sql.NullString` read into a Go string.
unfoldable pub string_or_empty : NullString → String
string_or_empty none = ""
string_or_empty (some s) = s

-- The SQL test `column = s`, which no NULL passes.
unfoldable pub equals : NullString → String → Bool
equals none s = false
equals (some t) s = t == s

pub record EventRow : Type 0 where
  pub id : String
  pub run_id : String
  pub sequence : ℕ
  pub kind : EventKind
  pub schema_version : ℕ
  pub idempotency_key : NullString
  pub causation_id : NullString
  pub correlation_id : NullString
  pub payload : Payload
  pub created_at : ℕ  -- seconds

pub record DispatchRow : Type 0 where
  pub id : String
  pub run_id : String
  pub role : String
  pub job_id : NullString
  pub prompt : NullString
  pub inputs : String
  pub state : DispatchState
  pub worker_handle : NullString
  pub leased_at : Option ℕ  -- seconds
  pub completed_at : Option ℕ  -- seconds
  pub created_at : ℕ  -- seconds
  pub mode : String

pub record WorkerRow : Type 0 where
  pub handle : String
  pub role : String
  pub pid : ℕ
  pub session_id : String
  pub cli : String
  pub registered_at : ℕ  -- seconds
  pub last_heartbeat_at : ℕ  -- seconds
  pub state : WorkerState

pub record RunRow : Type 0 where
  pub id : String
  pub mode : String
  pub state : RunState
  pub started_at : ℕ  -- seconds
  pub ended_at : Option ℕ  -- seconds
  pub prd_path : String
  pub spec_path : String

pub record JobRow : Type 0 where
  pub id : String
  pub run_id : String
  pub role : String
  pub state : JobState
  pub dispatched_by : String
  pub cli : String
  pub started_at : ℕ  -- seconds
  pub ended_at : Option ℕ  -- seconds
  pub plan_id : String
  pub phase_index : ℤ

pub record FindingRow : Type 0 where
  pub id : String
  pub run_id : String
  pub job_id : String
  pub path : String
  pub line : ℤ
  pub severity : String
  pub body : String
  pub fingerprint : String
  pub resolved_by_job_id : NullString
  pub resolved_at : Option ℕ  -- seconds
  pub plan_id : String
  pub phase_index : ℤ
  pub reviewer_handle : String

pub record SupervisorRow : Type 0 where
  pub id : String
  pub run_id : String
  pub job_id : String
  pub verdict : String
  pub rule_id : String
  pub message : String
  pub created_at : ℕ

-- The columns of lists hold their JSON.
pub record AttentionRow : Type 0 where
  pub id : String
  pub run_id : String
  pub kind : String
  pub source : String
  pub job_id : String
  pub question : String
  pub options : List String
  pub presented_on : List String
  pub answered_on : List String
  pub answered_by : NullString
  pub answer : NullString
  pub created_at : ℕ  -- seconds
  pub resolved_at : Option ℕ  -- seconds

-- The database, and the subscribers' side of `EventStore.Bus`: what was published, in order, or
-- `none` where no bus is set.
pub record Db : Type 0 where
  pub runs : List RunRow
  pub jobs : List JobRow
  pub findings : List FindingRow
  pub supervisor_events : List SupervisorRow
  pub attention : List AttentionRow
  pub events : List EventRow
  pub dispatches : List DispatchRow
  pub workers : List WorkerRow
  pub bus : Option (List Event)

-- Which SQL call of an operation fails for a reason outside the program: a lock, the disk, a
-- cancelled context. `select` is a query of rows, `row` the statement that writes a projection.
pub record Faults : Type 0 where
  pub begin : Bool
  pub select : Bool
  pub sequence : Bool
  pub insert : Bool
  pub row : Bool
  pub commit : Bool

abbrev pub no_faults : Faults
no_faults = record {
  begin = false;
  select = false;
  sequence = false;
  insert = false;
  row = false;
  commit = false;
}

-- A loop writes one event for each row that it selected: the fresh event's id and the faults of
-- the write, by the key of the row.
pub record LoopEnv : Type 0 where
  pub event_id : String → String
  pub faults : String → Faults

pub data Error : Type 0 where
  begin_tx select_rows compute_sequence insert_event write_row commit_tx : Error
  duplicate_key missing_run : Error
  dispatch_not_found dispatch_not_leased claim_lost worker_not_found skip_eviction : Error
  empty_idempotency_key unknown_concurrency : Error
  missing_job job_not_found run_not_found finding_not_found already_resolved : Error
  attention_not_found : Error

abbrev pub run_exists : Db → String → Bool
run_exists db run_id = any (λ (r : RunRow). r.id == run_id) db.runs

abbrev pub job_exists : Db → String → Bool
job_exists db job_id = any (λ (r : JobRow). r.id == job_id) db.jobs

-- The columns by which rows are looked up.
abbrev pub dispatch_id : DispatchRow → String
dispatch_id r = r.id

abbrev pub worker_handle : WorkerRow → String
worker_handle r = r.handle

abbrev pub run_key : RunRow → String
run_key r = r.id

abbrev pub job_key : JobRow → String
job_key r = r.id

abbrev pub finding_key : FindingRow → String
finding_key r = r.id

abbrev pub attention_key : AttentionRow → String
attention_key r = r.id

-- What an operation that returns only an error leaves behind.
abbrev pub Outcome : Type 0
Outcome = Result Error (Unit {0}) × Db

-- `if err := m; err != nil { return err }`, and then the rest on the database as it is by then.
abbrev pub after : Outcome → (Db → Outcome) → Outcome
after (ok _, db) rest = rest db
after (err x, db) rest = (err x, db)

pub after_rule {ℓ} :
    (P : Db → Type ℓ) (m : Outcome) (rest : Db → Outcome)
    → P m.1
    → ((db : Db) → P db → P (rest db).1)
    → P (after m rest).1
after_rule P (ok _, db) rest h k = k db h
after_rule P (err x, db) rest h k = h

pub after_ok :
    (m : Outcome) (rest : Db → Outcome) (db' : Db)
    → after m rest ≡ (ok tt, db')
    → (db : Db) × (m ≡ (ok tt, db)) × (rest db ≡ (ok tt, db'))
after_ok (ok _, db) rest db' h = (db, refl, h)
after_ok (err x, db) rest db' h = absurd (cc (ap (λ (o : Outcome). o.0) h))
