-- ===== src/Orchestration.antt =====
-- coding/dispatch.go: a job from its role to its result, with the retries that the supervisor asks
-- for.
pub mod Effects
pub mod Permission
pub mod Feedback
pub mod Attempt
pub mod Loop
pub mod Histories
pub mod Launches
pub mod Results
use coworker.Prelude.{
  ℕ, zero, suc, ◌+◌, String, Bool, true, false, ◌&&◌, not, Option, none, some, List, [], ◌∷◌, ◌==◌,
  if◌then◌else◌, any, find, Result, ok, err,
}
use coworker.Manifest.Integers.{ℤ, pos, negsuc, eqz}
use coworker.Core.Jobs.{Run, RunState, Job, JobState, Finding, Artifact, JobResult}
use coworker.Supervisor.{SupervisorVerdict}
use coworker.Store.Runs.{create_run, complete_run}
use coworker.Store.Jobs.{update_job_state}
use coworker.Orchestration.Effects.{
  Call, Calls, Failure, load_role_failed, missing_input, render_failed, Flow, pure, lift, stored,
  ◌>>=◌, ◌>>◌, Role, Agent, Dispatcher, DispatchInput,
}
use coworker.Orchestration.Loop.{Finished, attempt_loop, persist_findings}
use coworker.Orchestration.Permission.{reject}

-- `d.CLIAgents[role.CLI]`, with the default agent for any other role.
abbrev or_default : {S : Type 0} → Agent S → Option (String × Agent S) → Agent S
or_default agent none = agent
or_default agent (some (cli, a)) = a

unfoldable pub agent_for : {S : Type 0} → Dispatcher S → Role → Agent S
agent_for d role =
    if not (role.cli == "")
    then or_default d.agent (find (λ entry. entry.0 == role.cli) d.cli_agents)
    else d.agent

unfoldable pub max_retries : {S : Type 0} → Dispatcher S → ℕ
max_retries d = elim d.max_retries [ negsuc _ ↦ 0 | pos n ↦ elim n [ zero ↦ 3 | suc k ↦ suc k ] ]

-- The first required input that is not given.
unfoldable pub missing : List String → List (String × String) → Option String
missing [] inputs = none
missing (r ∷ required) inputs =
    let rest = missing required inputs in
    if any (λ (entry : String × String). entry.0 == r) inputs then rest else some r

-- What Orchestrate returns.
pub record DispatchResult : Type 0 where
  pub run_id : String
  pub job_id : String
  pub findings : List Finding
  pub artifacts : List Artifact
  pub exit_code : ℤ
  pub supervisor_verdict : Option SupervisorVerdict
  pub retry_count : ℕ

abbrev pub rejected : Option SupervisorVerdict → Bool
rejected none = false
rejected (some v) = not v.pass

-- `finalState`, of a result and the last verdict.
unfoldable pub final_state : ℤ → Option SupervisorVerdict → JobState
final_state exit_code verdict =
    if rejected verdict
    then JobState.failed
    else if not (eqz exit_code (pos 0))
    then JobState.failed
    else JobState.complete

unfoldable pub run_state_for : JobState → RunState
run_state_for JobState.failed = RunState.failed
run_state_for _ = RunState.completed

-- The run that is made for a job on its own.
unfoldable pub new_run : Calls → Run
new_run calls = record {
  id = calls.run_id;
  mode = "interactive";
  state = RunState.active;
  started_at = calls.create.now;
  ended_at = none;
  prd_path = "";
  spec_path = "";
}

module _ {S : Type 0} (d : Dispatcher S) (calls : Calls) (input : DispatchInput) where
  abbrev pub require : Role → Option String → Flow S (Unit {0})
  require role none = pure tt
  require role (some name) = reject (missing_input name)

  -- The caller's run, or a new one.
  unfoldable pub open_run : Flow S String
  unfolding new_run
  open_run = if not (input.run_id == "") then pure input.run_id else (do
    stored (create_run calls.create.faults calls.create.event_id (new_run calls))
    pure calls.run_id)

  -- The run is closed by the one who made it.
  unfoldable pub close_run : String → JobState → Flow S (Unit {0})
  unfolding run_state_for
  close_run run_id state =
      if not (input.run_id == "")
      then pure tt
      else stored (
          complete_run calls.close.faults calls.close.now calls.close.event_id run_id
            (run_state_for state))

  -- From the last attempt to the result.
  unfoldable pub conclude : Role → String → Finished → Flow S DispatchResult
  unfolding close_run final_state persist_findings
  conclude role run_id last = do
    let state = final_state last.result.exit_code last.verdict
    findings ← persist_findings d calls input role run_id last.job_id 0 last.result.findings
    stored (
        update_job_state calls.finish.faults calls.finish.now calls.finish.event_id last.job_id
          state)
    close_run run_id state
    pure (record {
      run_id = run_id;
      job_id = last.job_id;
      findings = findings;
      artifacts = last.result.artifacts;
      exit_code = last.result.exit_code;
      supervisor_verdict = last.verdict;
      retry_count = last.retry_count;
    })

  -- The attempts and the conclusion, in a run.
  unfoldable pub run_attempts : Role → String → String → Flow S DispatchResult
  unfolding conclude attempt_loop agent_for max_retries
  run_attempts role run_id prompt = do
    let retries = max_retries d
    last ←
        attempt_loop d calls input role run_id (agent_for d role) prompt retries retries 0 0 prompt
    conclude role run_id last

  unfoldable pub orchestrate : Flow S DispatchResult
  unfolding missing open_run run_attempts
  orchestrate = do
    role ← lift load_role_failed (d.load_role input.role_name)
    require role (missing role.required input.inputs)
    run_id ← open_run
    prompt ← lift render_failed (d.render_prompt role input.inputs)
    run_attempts role run_id prompt
