-- ===== src/Orchestration/Launches/Quiet.antt =====
-- All that a dispatch does but launching the agent leaves the world outside alone.
use coworker.Prelude.{
  ℕ, suc, String, ◌&&◌, Option, none, some, List, [], ◌∷◌, ◌==◌, not, Result, ltb,
}
use coworker.Core.Jobs.{JobResult, Finding, JobState, dispatched}
use coworker.Permissions.{PermissionDecision, allow, hard_deny, requires_human, undeclared}
use coworker.Supervisor.{RuleResult, SupervisorVerdict}
use coworker.Supervisor.Predicates.{EvalContext}
use coworker.Store.Attention.{insert_attention}
use coworker.Store.Runs.{create_run, complete_run}
use coworker.Store.Jobs.{create_job, update_job_state}
use coworker.Store.Findings.{record_verdict, insert_finding}
use coworker.Orchestration
use coworker.Orchestration.{
  new_run, missing, DispatchResult, final_state, run_state_for, agent_for, max_retries, conclude,
  run_attempts, orchestrate, require,
}
use coworker.Orchestration.Effects.{
  Role, Agent, Dispatcher, DispatchInput, Call, Calls, AttemptCalls, stored, tried, missing_input,
  needs_approval, never_allowed, not_declared, evaluate_failed,
}
use coworker.Orchestration.Permission.{
  request_approval, decide, check_permission, approval_item, warns,
}
use coworker.Orchestration.Attempt.{
  new_job, fail_job, may_launch, record_result, record_each, record_supervisor_results, write_event,
  after_verdict, eval_context, supervise, prepare,
}
use coworker.Orchestration.Loop.{Finished, attributed, persist_findings}
use coworker.Orchestration.Launches.{
  Unmoved, pure-Unmoved, reject-Unmoved, if-Unmoved, then-Unmoved, also-Unmoved, tried-Unmoved,
  stored-Unmoved, on_error-Unmoved, lift-Unmoved,
}

module _ {S : Type 0} (d : Dispatcher S) where
  module _ (c : AttemptCalls) (run_id : String) (role : Role) where
    request_approval-Unmoved :
        (k : Call) (raw : String) → Unmoved S (request_approval d k run_id role raw)
    unfolding request_approval
    request_approval-Unmoved k raw =
        if-Unmoved S d.attention_store _ _
          (also-Unmoved S
            (tried (
              insert_attention k.faults k.now k.event_id
                (approval_item run_id role k.event_id raw)))
            _
            (tried-Unmoved S (
              insert_attention k.faults k.now k.event_id
                (approval_item run_id role k.event_id raw)))
            (reject-Unmoved S (Unit {0}) needs_approval))
          (reject-Unmoved S (Unit {0}) needs_approval)

    decide-Unmoved :
        (k : Call) (raw : String) (x : PermissionDecision)
        → Unmoved S (decide d k run_id role raw x)
    unfolding decide
    decide-Unmoved k raw allow = pure-Unmoved S tt
    decide-Unmoved k raw hard_deny = reject-Unmoved S (Unit {0}) never_allowed
    decide-Unmoved k raw requires_human = request_approval-Unmoved k raw
    decide-Unmoved k raw undeclared =
        if-Unmoved S (warns d.policy) _ _ (pure-Unmoved S tt)
          (reject-Unmoved S (Unit {0}) not_declared)

    may_launch-Unmoved : (o : Option String) → Unmoved S (may_launch d c run_id role o)
    unfolding check_permission
    may_launch-Unmoved none = pure-Unmoved S tt
    may_launch-Unmoved (some name) =
        if-Unmoved S (not (name == "")) _ _ (decide-Unmoved c.ask _ _) (pure-Unmoved S tt)

    pub prepare-Unmoved :
        (agent : Agent S) (attempt : ℕ) → Unmoved S (prepare d c run_id role agent attempt)
    unfolding prepare
    prepare-Unmoved agent attempt =
        also-Unmoved S
          (stored (create_job c.create.faults c.create.event_id (new_job c run_id role attempt))) _
          (stored-Unmoved S
            (create_job c.create.faults c.create.event_id (new_job c run_id role attempt)))
          (also-Unmoved S
            (stored
              (update_job_state c.lease.faults c.lease.now c.lease.event_id c.job_id dispatched))
            _
            (stored-Unmoved S
              (update_job_state c.lease.faults c.lease.now c.lease.event_id c.job_id dispatched))
            (on_error-Unmoved S (fail_job c) _ (may_launch-Unmoved agent.binary_basename)))

    record_result-Unmoved : (n : ℕ) (r : RuleResult) → Unmoved S (record_result d c run_id role n r)
    record_result-Unmoved n r =
        if-Unmoved S (r.rule_name == "" && r.message == "") _ _ (pure-Unmoved S tt) (
          tried-Unmoved S (
            record_verdict (c.verdict n).faults (c.verdict n).now (c.verdict n).event_id
              (c.verdict_id n) run_id c.job_id r))

    record_each-Unmoved :
        (n : ℕ) (rs : List RuleResult) → Unmoved S (record_each d c run_id role n rs)
    unfolding record_each
    record_each-Unmoved n [] = pure-Unmoved S tt
    record_each-Unmoved n (r ∷ rs) =
        also-Unmoved S _ _ (record_result-Unmoved n r) (record_each-Unmoved (suc n) rs)

    record_results-Unmoved :
        (v : SupervisorVerdict) → Unmoved S (record_supervisor_results d c run_id role v)
    unfolding record_supervisor_results
    record_results-Unmoved v =
        if-Unmoved S d.supervisor_writer _ _ (record_each-Unmoved 0 v.results) (pure-Unmoved S tt)

    after_verdict-Unmoved :
        (original : String) (attempt retries : ℕ) (result : JobResult) (v : SupervisorVerdict)
        → Unmoved S (after_verdict d c run_id role original attempt retries result v)
    unfolding after_verdict
    after_verdict-Unmoved original attempt retries result v =
        if-Unmoved S v.pass _ _ (pure-Unmoved S _) (
          if-Unmoved S (ltb attempt retries) _ _
            (also-Unmoved S (tried (fail_job c)) _ (tried-Unmoved S (fail_job c)) (
              also-Unmoved S (tried (write_event c _)) _ (tried-Unmoved S (write_event c _))
                (pure-Unmoved S _)))
            (also-Unmoved S (tried (write_event c _)) _ (tried-Unmoved S (write_event c _))
              (pure-Unmoved S _)))

    pub supervise-Unmoved :
        (original : String) (attempt retries : ℕ) (result : JobResult)
        (o : Option (EvalContext → Result String SupervisorVerdict))
        → Unmoved S (supervise d c run_id role original attempt retries result o)
    unfolding supervise
    supervise-Unmoved original attempt retries result none = pure-Unmoved S _
    supervise-Unmoved original attempt retries result (some evaluate) =
        then-Unmoved S _ _
          (on_error-Unmoved S (fail_job c) _
            (lift-Unmoved S evaluate_failed (evaluate (eval_context d c run_id role result))))
          (λ v.
            also-Unmoved S _ _ (record_results-Unmoved v)
              (after_verdict-Unmoved original attempt retries result v))

  module _ (calls : Calls) (input : DispatchInput) (role : Role) where
    pub require-Unmoved : (o : Option String) → Unmoved S (require d calls input role o)
    require-Unmoved none = pure-Unmoved S tt
    require-Unmoved (some name) = reject-Unmoved S (Unit {0}) (missing_input name)

    module _ (run_id : String) where
      persist-Unmoved :
          (job_id : String) (n : ℕ) (findings : List Finding)
          → Unmoved S (persist_findings d calls input role run_id job_id n findings)
      unfolding persist_findings
      persist-Unmoved job_id n [] = pure-Unmoved S []
      persist-Unmoved job_id n (f ∷ findings) =
          let c = calls.finding n in
          let f' = attributed d calls input role run_id job_id (calls.finding_id n) f in
          also-Unmoved S (tried (insert_finding d.fingerprint c.faults c.now c.event_id f')) _
            (tried-Unmoved S (insert_finding d.fingerprint c.faults c.now c.event_id f'))
            (then-Unmoved S _ _ (persist-Unmoved job_id (suc n) findings)
              (λ rest. pure-Unmoved S _))

      close_run-Unmoved :
          (state : JobState) → Unmoved S (Orchestration.close_run d calls input run_id state)
      unfolding Orchestration.close_run
      close_run-Unmoved state = if-Unmoved S (not (input.run_id == "")) _ _ (pure-Unmoved S tt) (
          stored-Unmoved S (
            complete_run calls.close.faults calls.close.now calls.close.event_id run_id
              (run_state_for state)))

      pub conclude-Unmoved : (last : Finished) → Unmoved S (conclude d calls input role run_id last)
      unfolding conclude
      conclude-Unmoved last =
          let state = final_state last.result.exit_code last.verdict in
          then-Unmoved S _ _ (persist-Unmoved last.job_id 0 last.result.findings) (λ findings.
            also-Unmoved S
              (stored (
                update_job_state calls.finish.faults calls.finish.now calls.finish.event_id
                  last.job_id state))
              _
              (stored-Unmoved S (
                update_job_state calls.finish.faults calls.finish.now calls.finish.event_id
                  last.job_id state))
              (also-Unmoved S _ _ (close_run-Unmoved state) (pure-Unmoved S _)))

  pub open_run-Unmoved :
      (calls : Calls) (input : DispatchInput) → Unmoved S (Orchestration.open_run d calls input)
  unfolding Orchestration.open_run
  open_run-Unmoved calls input =
      if-Unmoved S (not (input.run_id == "")) _ _ (pure-Unmoved S input.run_id) (
        also-Unmoved S
          (stored (create_run calls.create.faults calls.create.event_id (new_run calls))) _
          (stored-Unmoved S (create_run calls.create.faults calls.create.event_id (new_run calls)))
          (pure-Unmoved S calls.run_id))
