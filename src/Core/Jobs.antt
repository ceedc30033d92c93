-- ===== src/Core/Jobs.antt =====
-- core/run.go, core/job.go, core/finding.go, core/attention.go: runs, their jobs and what the
-- jobs find or ask. The amounts in dollars, which are floating-point numbers, are left out.
use coworker.Prelude.{ℕ, String, Option, List}
use coworker.Manifest.Integers.{ℤ}

pub data RunState : Type 0 where
  active completed failed aborted : RunState

pub data JobState : Type 0 where
  pending dispatched running complete failed cancelled : JobState

pub record Run : Type 0 where
  pub id : String
  pub mode : String
  pub state : RunState
  pub started_at : ℕ
  pub ended_at : Option ℕ
  pub prd_path : String
  pub spec_path : String

pub record Job : Type 0 where
  pub id : String
  pub run_id : String
  pub role : String
  pub state : JobState
  pub dispatched_by : String
  pub cli : String
  pub started_at : ℕ
  pub ended_at : Option ℕ
  pub plan_id : String
  pub phase_index : ℤ

-- `source_job_ids` is kept in memory alone.
pub record Finding : Type 0 where
  pub id : String
  pub run_id : String
  pub job_id : String
  pub path : String
  pub line : ℤ
  pub severity : String
  pub body : String
  pub fingerprint : String
  pub resolved_by_job_id : String
  pub resolved_at : Option ℕ
  pub plan_id : String
  pub phase_index : Option ℤ
  pub reviewer_handle : String
  pub source_job_ids : List String

pub record Artifact : Type 0 where
  pub id : String
  pub job_id : String
  pub kind : String
  pub path : String

pub record JobResult : Type 0 where
  pub findings : List Finding
  pub artifacts : List Artifact
  pub exit_code : ℤ

pub record AttentionItem : Type 0 where
  pub id : String
  pub run_id : String
  pub kind : String
  pub source : String
  pub job_id : String
  pub question : String
  pub options : List String
  pub presented_on : List String
  pub answered_on : List String
  pub answered_by : String
  pub answer : String
  pub created_at : Option ℕ
  pub resolved_at : Option ℕ
