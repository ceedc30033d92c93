-- ===== src/Tests/Phases.antt =====
-- A phase whose developer fails once and whose reviewers find nothing.
use coworker.Prelude.{ℕ, zero, suc, String, false, none, List, [], ◌∷◌, ok}
use coworker.Manifest.Integers.{pos}
use coworker.Core.Jobs.{Finding}
use coworker.Phase.Fanin.{DispatchResult}
use coworker.Phase.Loop.{PhaseExecutor, Orchestrator}

abbrev executor : PhaseExecutor
executor = record {
  limit = none;
  developer_role = "";
  reviewer_roles = none;
  tester_roles = none;
  filter = record {
    work_dir = "";
    role_dir = "";
    predicates = record {
      changes_touch_in_dir = λ dir globs. ok false;
      commit_msg_contains = λ dir text. ok false;
      phase_index_in = λ i range. ok false;
    };
    load_role = λ name. ok none;
  };
  compute_fingerprint = λ (f : Finding). f.body;
  attention_store = false;
  attention_ok = false;
  checkpoint_writer = false;
}

-- The first job exits with 1, the others with 0; the state counts the jobs.
abbrev exit_at : ℕ → DispatchResult
exit_at n = record {
  run_id = "run";
  job_id = "job";
  findings = [];
  artifacts = [];
  exit_code = pos (elim n [ zero ↦ 1 | suc k ↦ 0 ]);
}

abbrev agents : Orchestrator ℕ
agents = record { orchestrate = λ role feedback n. (ok (exit_at n), suc n) }

-- A finding whose fingerprint is the text, from a job.
abbrev pub reported_by : String → String → Finding
reported_by job text = record {
  id = "";
  run_id = "";
  job_id = job;
  path = "main.go";
  line = pos 1;
  severity = "minor";
  body = text;
  fingerprint = "";
  resolved_by_job_id = "";
  resolved_at = none;
  plan_id = "";
  phase_index = none;
  reviewer_handle = "";
  source_job_ids = [];
}

abbrev reports : List Finding
reports = reported_by "a" "leak" ∷ reported_by "a" "race" ∷ reported_by "b" "leak" ∷ []
