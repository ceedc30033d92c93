-- ===== src/Orchestration/Attempt.antt =====
-- executeAttempt and recordSupervisorResults of coding/dispatch.go: one job, from its row to the
-- verdict on its result. Costs are not recorded here.
use Prim.Native.String
use coworker.Prelude.{
  ℕ, suc, String, Bool, true, false, ◌&&◌, not, Option, none, some, List, [], ◌∷◌, ◌==◌, ltb,
  if◌then◌else◌, Result, ok,
}
use coworker.Manifest.Integers.{pos}
use coworker.Core.{EventKind, supervisor_retry, compliance_breach, Event}
use coworker.Core.Jobs.{Job, pending, dispatched, failed, JobResult}
use coworker.Supervisor.{RuleResult, SupervisorVerdict}
use coworker.Supervisor.Predicates.{EvalContext}
use coworker.Store.Schema.{Db, Outcome}
use coworker.Store.Events.{write_event_then_row}
use coworker.Store.Runs.{run_event}
use coworker.Store.Jobs.{create_job, update_job_state}
use coworker.Store.Findings.{record_verdict}
use coworker.Orchestration.Effects.{
  Role, Agent, Dispatcher, AttemptCalls, dispatch_failed, wait_failed, evaluate_failed, Flow, pure,
  lift, stored, tried, on_error, act, ◌>>=◌, ◌>>◌,
}
use coworker.Orchestration.Permission.{check_permission}
use coworker.Orchestration.Feedback.{build_retry_feedback}

pub record AttemptResult : Type 0 where
  pub job_id : String
  pub result : JobResult
  pub verdict : Option SupervisorVerdict
  pub next_prompt : String
  pub should_retry : Bool

-- The job of an attempt.
unfoldable pub new_job : AttemptCalls → String → Role → ℕ → Job
new_job c run_id role attempt = record {
  id = c.job_id;
  run_id = run_id;
  role = role.name;
  state = pending;
  dispatched_by = if ltb 0 attempt then "supervisor-retry" else "user";
  cli = role.cli;
  started_at = c.create.now;
  ended_at = none;
  plan_id = "";
  phase_index = pos 0;
}

abbrev pub fail_job : AttemptCalls → Db → Outcome
fail_job c = update_job_state c.fail.faults c.fail.now c.fail.event_id c.job_id failed

abbrev pub write_event : AttemptCalls → Event → Db → Outcome
write_event c e = write_event_then_row c.event.faults e ok

module _ {S : Type 0} (d : Dispatcher S) (c : AttemptCalls) (run_id : String) (role : Role) where
  -- The check is for agents that name a binary.
  abbrev pub may_launch : Option String → Flow S (Unit {0})
  may_launch none = pure tt
  may_launch (some binary_name) =
      if not (binary_name == "") then check_permission d c.ask run_id role binary_name else pure tt

  abbrev pub record_result : ℕ → RuleResult → Flow S (Unit {0})
  record_result n r =
      if r.rule_name == "" && r.message == ""
      then pure tt
      else tried (
          record_verdict (c.verdict n).faults (c.verdict n).now (c.verdict n).event_id
            (c.verdict_id n) run_id c.job_id r)

  unfoldable pub record_each : ℕ → List RuleResult → Flow S (Unit {0})
  record_each n [] = pure tt
  record_each n (r ∷ results) = do record_result n r; record_each (suc n) results

  unfoldable pub record_supervisor_results : SupervisorVerdict → Flow S (Unit {0})
  unfolding record_each
  record_supervisor_results verdict =
      if d.supervisor_writer then record_each 0 verdict.results else pure tt

  -- The events of a retry and of a breach. Of the members of the payload only single texts are
  -- kept.
  unfoldable pub attempt_event : EventKind → List (String × String) → Event
  unfolding run_event
  attempt_event kind payload = run_event c.event.event_id kind run_id c.job_id payload c.event.now

  -- A rejected result is tried again while attempts are left.
  unfoldable pub after_verdict :
      String → ℕ → ℕ → JobResult → SupervisorVerdict → Flow S AttemptResult
  unfolding attempt_event
  after_verdict original_prompt attempt max_retries result verdict =
      let settled : AttemptResult = record {
        job_id = c.job_id;
        result = result;
        verdict = some verdict;
        next_prompt = "";
        should_retry = false;
      } in
      let feedback = build_retry_feedback d.itoa verdict in
      if verdict.pass
      then pure settled
      else if ltb attempt max_retries
      then (do
        tried (fail_job c)
        tried (
            write_event c
              (attempt_event supervisor_retry (("feedback", feedback) ∷ ("job_id", c.job_id) ∷ [])))
        pure (record settled {
          next_prompt = String.◌++◌ feedback (String.◌++◌ "\n\n" original_prompt);
          should_retry = true;
        }))
      else (do
        tried (
            write_event c
              (attempt_event compliance_breach (("job_id", c.job_id) ∷ ("role", role.name) ∷ [])))
        pure settled)

  abbrev pub eval_context : JobResult → EvalContext
  eval_context result = record {
    result = some result;
    role_name = some role.name;
    work_dir = d.work_dir;
  }

  unfoldable pub supervise :
      String
      → ℕ
      → ℕ
      → JobResult
      → Option (EvalContext → Result String SupervisorVerdict)
      → Flow S AttemptResult
  unfolding record_supervisor_results after_verdict
  supervise original_prompt attempt max_retries result none = pure (record {
    job_id = c.job_id;
    result = result;
    verdict = none;
    next_prompt = "";
    should_retry = false;
  })
  supervise original_prompt attempt max_retries result (some evaluate) = do
    verdict ← on_error (fail_job c) (lift evaluate_failed (evaluate (eval_context result)))
    record_supervisor_results verdict
    after_verdict original_prompt attempt max_retries result verdict

  -- The first half: the job's rows, and the permission to launch the agent.
  unfoldable pub prepare : Agent S → ℕ → Flow S (Unit {0})
  unfolding new_job
  prepare agent attempt = do
    stored (create_job c.create.faults c.create.event_id (new_job c run_id role attempt))
    stored (update_job_state c.lease.faults c.lease.now c.lease.event_id c.job_id dispatched)
    on_error (fail_job c) (may_launch agent.binary_basename)

  -- The agent's run.
  unfoldable pub launch : Agent S → String → ℕ → Flow S JobResult
  launch agent prompt attempt = do
    wait ←
        on_error (fail_job c)
          (act dispatch_failed (agent.dispatch (new_job c run_id role attempt) prompt))
    on_error (fail_job c) (act wait_failed wait)

  unfoldable pub execute_attempt : Agent S → String → String → ℕ → ℕ → Flow S AttemptResult
  unfolding prepare launch supervise
  execute_attempt agent prompt original_prompt attempt max_retries = do
    prepare agent attempt
    result ← launch agent prompt attempt
    supervise original_prompt attempt max_retries result d.supervisor
