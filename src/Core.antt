-- ===== src/Core.antt =====
-- core/event.go, core/dispatch.go, core/worker.go: the data that the stores exchange. A time is a
-- number of nanoseconds since an epoch, and the zero `time.Time` is `none`.
pub mod Jobs
use coworker.Prelude.{ℕ, ◌/◌, String, Option, List}

pub data EventKind : Type 0 where
  run_created run_completed job_created job_leased job_completed job_failed finding_created
        artifact_created dispatch_queued dispatch_leased dispatch_completed dispatch_expired
        worker_registered worker_heartbeat worker_deregistered attention_created attention_resolved
        cost_delta job_skipped phase_started phase_completed phase_failed phase_clean plan_shipped
        plan_created plan_state_changed checkpoint_opened checkpoint_resolved supervisor_verdict
        supervisor_retry compliance_breach quality_verdict quality_gate :
      EventKind
  -- The kinds that store/job_store.go and store/finding_store.go make up, outside the catalog.
  job_state_changed finding_resolved : EventKind

-- The object that `json.Marshal` writes from a `map[string]string`, by its members in key order.
abbrev pub Payload : Type 0
Payload = List (String × String)

pub record Event : Type 0 where
  pub id : String
  pub run_id : String
  pub sequence : ℕ
  pub kind : EventKind
  pub schema_version : ℕ
  pub idempotency_key : String
  pub causation_id : String
  pub correlation_id : String
  pub payload : Payload
  pub created_at : ℕ

pub data DispatchState : Type 0 where
  pending leased completed : DispatchState

pub record Dispatch : Type 0 where
  pub id : String
  pub run_id : String
  pub role : String
  pub job_id : String
  pub prompt : String
  pub inputs : String  -- the JSON of the inputs
  pub state : DispatchState
  pub worker_handle : String
  pub leased_at : Option ℕ
  pub completed_at : Option ℕ
  pub created_at : Option ℕ
  pub mode : String

pub data WorkerState : Type 0 where
  live stale evicted : WorkerState

pub record Worker : Type 0 where
  pub handle : String
  pub role : String
  pub pid : ℕ
  pub session_id : String
  pub cli : String
  pub registered_at : Option ℕ
  pub last_heartbeat : Option ℕ
  pub state : WorkerState

abbrev pub dispatch_mode_persistent : String
dispatch_mode_persistent = "persistent"

abbrev pub dispatch_mode_ephemeral : String
dispatch_mode_ephemeral = "ephemeral"

-- The formats of a stored time keep whole seconds.
abbrev pub seconds : ℕ → ℕ
seconds t = t / 1_000_000_000
