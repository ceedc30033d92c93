-- ===== src/Tests/Dispatching.antt =====
-- The theorems on permissions and on the dispatcher, at small inputs.
use Prim.Native.String
use coworker.Prelude.{
  arith, ℕ, zero, suc, ◌+◌, ◌≤◌, String, ◌≡◌, ◌↔◌, ◌⊎◌, ap, refl, true, false, none, some, List, [],
  ◌∷◌, ◌==◌, All, Result, ok, err,
}
use coworker.Manifest.Integers.{pos}
use coworker.Core.Jobs.{JobState, JobResult}
use coworker.Store.Schema.{JobRow, no_faults, job_key}
use coworker.Store.Rows.{row}
use coworker.Store.History.{fresh, history, Operation}
use coworker.Permissions.{
  Permission, RolePermissions, parse_permission, parse_permissions, match_permission, matches_any,
  evaluate_action, hard_deny,
}
use coworker.Supervisor.{SupervisorVerdict}
use coworker.Store.Runs.{run_row}
use coworker.Orchestration.{new_run, orchestrate, DispatchResult, max_retries, rejected, agent_for}
use coworker.Orchestration.Permission.{run_binary}
use coworker.Orchestration.Effects.{
  Role, Agent, Dispatcher, DispatchInput, Call, AttemptCalls, Calls, World, Failure,
}
use coworker.Orchestration.Histories.{May}
use coworker.Orchestration.Histories.Whole.{orchestrate-history}
use coworker.Orchestration.Launches.Denied.{Forbids, denied_never_launched}
use coworker.Orchestration.Launches.Bound.{Counts, launches_bounded}
use coworker.Orchestration.Results.Settled.{retries_exhausted, job_settled}
use coworker.Tests.Samples.{sample_order}

abbrev reviewer : RolePermissions → Role
reviewer p = record {
  name = "reviewer.arch";
  cli = "codex";
  required = "diff" ∷ [];
  permissions = p;
}

abbrev allowing : RolePermissions
allowing = record {
  allowed_tools = "read" ∷ "bash:codex" ∷ [];
  never = "bash:rm" ∷ [];
  requires_human = [];
}

abbrev forbidding : RolePermissions
forbidding = record {
  allowed_tools = "bash:*" ∷ [];
  never = "bash:codex" ∷ [];
  requires_human = [];
}

-- An agent that counts its launches and exits with code 0.
abbrev counting : Agent ℕ
counting = record {
  binary_basename = some "codex";
  dispatch = λ job prompt n.
      (ok (λ m. (ok (record { findings = []; artifacts = []; exit_code = pos 0 }), m)), suc n);
}

abbrev verdict : SupervisorVerdict
verdict = record {
  pass = false;
  results =
      record { rule_name = "branch"; passed = false; skipped = false; message = "wrong branch" }
      ∷ [];
}

abbrev dispatcher : RolePermissions → Dispatcher ℕ
dispatcher p = record {
  load_role = λ name. ok (reviewer p);
  render_prompt = λ role inputs. ok "review";
  agent = counting;
  cli_agents = [];
  supervisor = some (λ ctx. ok verdict);
  supervisor_writer = true;
  max_retries = pos 1;
  work_dir = "";
  policy = none;
  attention_store = true;
  equal_fold = λ a b. a == b;
  base = λ name. name;
  atoi = λ s. none;
  itoa = λ n. "1";
  fingerprint = λ path line severity body. body;
}

abbrev call : String → Call
call id = record { faults = no_faults; event_id = id; now = 1_000_000_000 }

abbrev nth : String → ℕ → String
nth s zero = s
nth s (suc n) = String.◌++◌ s (nth "'" n)

abbrev attempt_calls : ℕ → AttemptCalls
attempt_calls n = record {
  done = false;
  job_id = nth "j" n;
  create = call (nth "c" n);
  lease = call (nth "l" n);
  ask = call (nth "a" n);
  fail = call (nth "f" n);
  verdict = λ k. call (nth (nth "v" n) k);
  verdict_id = λ k. nth (nth "s" n) k;
  event = call (nth "e" n);
}

abbrev calls : Calls
calls = record {
  run_id = "run";
  create = call "r";
  attempt = attempt_calls;
  finding = λ n. call (nth "x" n);
  finding_id = λ n. nth "y" n;
  finish = call "done";
  close = call "closed";
}

abbrev input : DispatchInput
input = record { role_name = "reviewer.arch"; inputs = ("diff", "a.patch") ∷ []; run_id = "" }

abbrev world : World ℕ
world = record { db = fresh [] (some []); outside = 0 }

abbrev result : DispatchResult
result = record {
  run_id = "run";
  job_id = "j'";
  findings = [];
  artifacts = [];
  exit_code = pos 0;
  supervisor_verdict = some verdict;
  retry_count = 1;
}

abbrev done : World ℕ
done = (orchestrate (dispatcher allowing) calls input world).1

run_done : orchestrate (dispatcher allowing) calls input world ≡ (ok result, done)
unfolding orchestrate coworker.Store.Runs.create_run coworker.Store.Events.write_event_then_row
    coworker.Store.Events.append_event coworker.Store.Events.violates
    coworker.Store.Events.event_row coworker.Store.Jobs.create_job
    coworker.Store.Events.next_sequence coworker.Store.Jobs.update_job_state
    coworker.Orchestration.Permission.check_permission evaluate_action coworker.Permissions.holds
    coworker.Permissions.has_colon match_permission coworker.Store.Findings.record_verdict
    coworker.Store.Runs.complete_run
run_done = refl

orchestrate-history_example :
    (ops : List Operation) × All (May (input.run_id == "")) ops
    × (history sample_order ops world.db
        ≡ (orchestrate (dispatcher allowing) calls input world).1.db)
orchestrate-history_example =
    orchestrate-history sample_order (dispatcher allowing) calls input world

abbrev attached : DispatchInput
attached = record input { run_id = "run" }

abbrev with_run : World ℕ
with_run = record { db = fresh (run_row (new_run calls) ∷ []) (some []); outside = 0 }

retries_exhausted_example :
    (result.retry_count ≤ max_retries (dispatcher allowing))
    × (rejected result.supervisor_verdict ≡ true
        → result.retry_count ≡ max_retries (dispatcher allowing))
retries_exhausted_example =
    retries_exhausted (dispatcher allowing) calls input world done result run_done

job_settled_example :
    (r : JobRow) × (row job_key "j'" done.db.jobs ≡ some r)
    × ((r.state ≡ JobState.complete) ↔ ((pos 0 ≡ pos 0) × (rejected (some verdict) ≡ false)))
    × ((r.state ≡ JobState.complete) ⊎ (r.state ≡ JobState.failed))
job_settled_example = job_settled (dispatcher allowing) calls input world done result run_done

agent-Counts : Counts (λ n. n) (agent_for (dispatcher allowing) (reviewer allowing))
unfolding agent_for
agent-Counts = record {
  launch = λ job prompt n. omega arith;
  wait = λ job prompt n handle e t.
      let exit : ℕ → Result String JobResult × ℕ =
        λ m. (ok (record { findings = []; artifacts = []; exit_code = pos 0 }), m) in
      let same : exit ≡ handle = cc e in
      omega (arith, ap (λ (h : ℕ → Result String JobResult × ℕ). (h t).1) same);
}

launches_bounded_example :
    (orchestrate (dispatcher allowing) calls input world).1.outside
    ≤ (1 + max_retries (dispatcher allowing)) + 0
launches_bounded_example =
    launches_bounded (λ n. n) (dispatcher allowing) (reviewer allowing) agent-Counts calls input
      world refl

no_codex : Forbids none (evaluate_action (λ a b. a == b) forbidding (run_binary "codex"))
unfolding Forbids evaluate_action match_permission run_binary coworker.Permissions.holds
    coworker.Permissions.has_colon
no_codex = tt

named : (agent_for (dispatcher forbidding) (reviewer forbidding)).binary_basename ≡ some "codex"
unfolding agent_for
named = refl

denied_never_launched_example :
    (x : Failure) × (w' : World ℕ) × (orchestrate (dispatcher forbidding) calls input world
      ≡ (err x, w'))
    × (w'.outside ≡ 0)
denied_never_launched_example =
    denied_never_launched (dispatcher forbidding) (reviewer forbidding) "codex" named refl no_codex
      calls input world refl
