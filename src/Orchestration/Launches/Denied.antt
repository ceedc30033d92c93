-- ===== src/Orchestration/Launches/Denied.antt =====
-- A role that may not run its agent's binary: the dispatch fails, and the agent is never launched.
use coworker.Prelude.{ℕ, zero, suc, String, ◌≡◌, false, Option, some, ◌==◌, ok, err}
use coworker.Core.Jobs.{dispatched}
use coworker.Permissions.{
  PermissionDecision, allow, hard_deny, requires_human, undeclared, evaluate_action,
}
use coworker.Store.Attention.{insert_attention}
use coworker.Store.Jobs.{create_job, update_job_state}
use coworker.Orchestration
use coworker.Orchestration.{
  new_run, missing, DispatchResult, agent_for, max_retries, conclude, run_attempts, orchestrate,
  require,
}
use coworker.Orchestration.Effects.{
  World, Failure, Role, Dispatcher, DispatchInput, Call, Calls, AttemptCalls, lift, stored, tried,
  context_done, render_failed, needs_approval, never_allowed, not_declared, ◌>>=◌, ◌>>◌,
}
use coworker.Orchestration.Permission.{
  reject, request_approval, decide, check_permission, approval_item, warns, run_binary,
}
use coworker.Orchestration.Attempt.{
  AttemptResult, new_job, fail_job, may_launch, prepare, execute_attempt,
}
use coworker.Orchestration.Loop.{close_failed, attempt_once, attempt_loop}
use coworker.Orchestration.Launches.Quiet.{require-Unmoved, open_run-Unmoved}
use coworker.Orchestration.Launches.{
  tried-Unmoved, stored-Unmoved, lift-Unmoved, Refuses, reject-Refuses, if-Refuses, then-Refuses,
  after-Refuses, on_error-Refuses,
}

-- The decisions on which checkPermission fails, by the policy on undeclared actions.
unfoldable pub Forbids : Option String → PermissionDecision → Type 0
Forbids policy allow = ⊥
Forbids policy hard_deny = Unit
Forbids policy requires_human = Unit
Forbids policy undeclared = warns policy ≡ false

module _ {S : Type 0} (d : Dispatcher S) (role : Role) where
  module _ (c : Call) (run_id raw : String) where
    request_approval-Refuses : Refuses S (request_approval d c run_id role raw)
    unfolding request_approval
    request_approval-Refuses =
        if-Refuses S d.attention_store _ _
          (after-Refuses S
            (tried (
              insert_attention c.faults c.now c.event_id
                (approval_item run_id role c.event_id raw)))
            (λ _. reject needs_approval)
            (tried-Unmoved S (
              insert_attention c.faults c.now c.event_id
                (approval_item run_id role c.event_id raw)))
            (λ _. reject-Refuses S (Unit {0}) needs_approval))
          (reject-Refuses S (Unit {0}) needs_approval)

    decide-Refuses :
        (x : PermissionDecision) → Forbids d.policy x → Refuses S (decide d c run_id role raw x)
    unfolding decide Forbids
    decide-Refuses allow h = absurd h
    decide-Refuses hard_deny h = reject-Refuses S (Unit {0}) never_allowed
    decide-Refuses requires_human h = request_approval-Refuses
    decide-Refuses undeclared h = rw h (reject-Refuses S (Unit {0}) not_declared)

  module _ (binary : String) (named : (agent_for d role).binary_basename ≡ some binary)
      (nonempty : (binary == "") ≡ false)
      (forbidden : Forbids d.policy
        (evaluate_action d.equal_fold role.permissions (run_binary (d.base binary)))) where
    may_launch-Refuses :
        (c : AttemptCalls) (run_id : String)
        → Refuses S (may_launch d c run_id role (agent_for d role).binary_basename)
    unfolding check_permission
    may_launch-Refuses c run_id = rw named (rw nonempty (decide-Refuses c.ask run_id _ _ forbidden))

    execute-Refuses :
        (c : AttemptCalls) (run_id prompt original : String) (attempt retries : ℕ)
        → Refuses S
            (execute_attempt d c run_id role (agent_for d role) prompt original attempt retries)
    unfolding execute_attempt prepare
    execute-Refuses c run_id prompt original attempt retries =
        then-Refuses S (prepare d c run_id role (agent_for d role) attempt) _ (
          after-Refuses S
            (stored (create_job c.create.faults c.create.event_id (new_job c run_id role attempt)))
            _
            (stored-Unmoved S
              (create_job c.create.faults c.create.event_id (new_job c run_id role attempt)))
            (λ _.
              after-Refuses S
                (stored (
                  update_job_state c.lease.faults c.lease.now c.lease.event_id c.job_id dispatched))
                _
                (stored-Unmoved S (
                  update_job_state c.lease.faults c.lease.now c.lease.event_id c.job_id dispatched))
                (λ _. on_error-Refuses S (fail_job c) _ (may_launch-Refuses c run_id))))

    module _ (calls : Calls) (input : DispatchInput) where
      attempt_once-Refuses :
          (run_id original : String) (retries attempt : ℕ) (prompt : String)
          → Refuses S (
              attempt_once d calls input role run_id
                (agent_for d role)
                original
                retries
                attempt
                prompt)
      unfolding attempt_once
      attempt_once-Refuses run_id original retries attempt prompt =
          if-Refuses S (calls.attempt attempt).done _ _
            (reject-Refuses S AttemptResult context_done)
            (on_error-Refuses S (close_failed d calls input role run_id) _
              (execute-Refuses (calls.attempt attempt) run_id prompt original attempt retries))

      attempt_loop-Refuses :
          (run_id original : String) (retries left attempt count : ℕ) (prompt : String)
          → Refuses S (
              attempt_loop d calls input role run_id
                (agent_for d role)
                original
                retries
                left
                attempt
                count
                prompt)
      unfolding attempt_loop
      attempt_loop-Refuses run_id original retries zero attempt count prompt =
          then-Refuses S
            (attempt_once d calls input role run_id (agent_for d role) original retries attempt
              prompt)
            _ (attempt_once-Refuses run_id original retries attempt prompt)
      attempt_loop-Refuses run_id original retries (suc left) attempt count prompt =
          then-Refuses S
            (attempt_once d calls input role run_id (agent_for d role) original retries attempt
              prompt)
            _ (attempt_once-Refuses run_id original retries attempt prompt)

      with_role-Refuses : Refuses S (do
        require d calls input role (missing role.required input.inputs)
        run_id ← Orchestration.open_run d calls input
        prompt ← lift render_failed (d.render_prompt role input.inputs)
        run_attempts d calls input role run_id prompt)
      unfolding run_attempts
      with_role-Refuses =
          after-Refuses S (require d calls input role (missing role.required input.inputs)) _
            (require-Unmoved d calls input role (missing role.required input.inputs))
            (λ _.
              after-Refuses S (Orchestration.open_run d calls input) _
                (open_run-Unmoved d calls input)
                (λ run_id.
                  after-Refuses S (lift render_failed (d.render_prompt role input.inputs)) _
                    (lift-Unmoved S render_failed (d.render_prompt role input.inputs))
                    (λ prompt. then-Refuses S _ _ (
                      attempt_loop-Refuses run_id prompt (max_retries d) (max_retries d) 0 0
                        prompt))))

      -- Where the role's agent names a binary and the role's permissions, under the policy on
      -- undeclared actions, do not let it run that binary, a dispatch ends in an error, whatever
      -- else happens, and has not acted on the agent's world: the agent was never launched.
      pub denied_never_launched :
          (w : World S)
          → d.load_role input.role_name ≡ ok role
          → (x : Failure) × (w' : World S) × (orchestrate d calls input w ≡ (err x, w'))
            × (w'.outside ≡ w.outside)
      unfolding orchestrate Refuses
      denied_never_launched w loaded = rw loaded (with_role-Refuses w)
