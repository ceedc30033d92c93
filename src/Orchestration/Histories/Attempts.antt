-- ===== src/Orchestration/Histories/Attempts.antt =====
-- The steps of an attempt, of the loop and of the whole dispatch.
use coworker.Prelude.{
  ℕ, suc, String, refl, Bool, true, false, ◌&&◌, Option, none, some, List, [], ◌∷◌, ◌==◌,
  if◌then◌else◌, not, Result, ltb,
}
use coworker.Core.{Event}
use coworker.Core.Jobs.{JobState, dispatched, JobResult}
use coworker.Permissions.{PermissionDecision, allow, hard_deny, requires_human, undeclared}
use coworker.Supervisor.{RuleResult, SupervisorVerdict}
use coworker.Supervisor.Predicates.{EvalContext}
use coworker.Store.Schema.{Db}
use coworker.Store.Runs.{run_event}
use coworker.Store.Jobs.{create_job, update_job_state}
use coworker.Store.Attention.{insert_attention}
use coworker.Store.Findings.{record_verdict}
use coworker.Store.Dispatches.{QueueOrder}
use coworker.Store.History.{IsForeign, open_job, move_job, judge, ask, log, perform}
use coworker.Orchestration.Effects.{
  Flow, Failure, Role, Agent, Dispatcher, Call, AttemptCalls, Preserves, bind-Preserves, pure,
  tried, evaluate_failed, dispatch_failed, wait_failed, needs_approval, never_allowed, not_declared,
  ◌>>=◌, ◌>>◌,
}
use coworker.Orchestration.Permission.{
  reject, request_approval, decide, check_permission, approval_item, warns,
}
use coworker.Orchestration.Attempt.{
  new_job, fail_job, may_launch, record_result, record_each, record_supervisor_results,
  attempt_event, write_event, after_verdict, eval_context, supervise, prepare, launch,
  execute_attempt,
}
use coworker.Orchestration.Histories.{
  IsOperation, Reached-step, Stays, At, stored-At, tried-At, on_error-At, act-At, lift-At,
}

module _ {S : Type 0} (own : Bool) (order : QueueOrder) (db0 : Db) (d : Dispatcher S) where
  abbrev pub Safe : {A : Type 0} → Flow S A → Type 0
  Safe m = Preserves (At S own order db0) m

  pub if-Safe :
      {A : Type 0} (b : Bool) (m k : Flow S A) → Safe m → Safe k → Safe (if b then m else k)
  if-Safe true m k p q = p
  if-Safe false m k p q = q

  pub then-Safe :
      {A B : Type 0} (m : Flow S A) (k : A → Flow S B)
      → Safe m
      → ((a : A) → Safe (k a))
      → Safe (m >>= k)
  then-Safe m k = bind-Preserves (At S own order db0) m k

  pub also-Safe :
      {B : Type 0} (m : Flow S (Unit {0})) (k : Flow S B) → Safe m → Safe k → Safe (m >> k)
  also-Safe m k p q = bind-Preserves (At S own order db0) m (λ _. k) p (λ _. q)

  pub pure-Safe : {A : Type 0} (a : A) → Safe (pure a)
  unfolding Preserves
  pure-Safe a w h = h

  pub reject-Safe : (A : Type 0) (x : Failure) → Safe (reject {S = S} {A = A} x)
  unfolding Preserves
  reject-Safe A x w h = h

  fail_job-IsOperation : (c : AttemptCalls) → IsOperation own order (fail_job c)
  unfolding perform
  fail_job-IsOperation c db =
      (move_job c.fail.faults c.fail.now c.fail.event_id c.job_id JobState.failed, refl, refl)

  fail_job-Stays : (c : AttemptCalls) → Stays S own order db0 (fail_job c)
  fail_job-Stays c db = Reached-step own order db0 (fail_job c) db (fail_job-IsOperation c)

  module _ (c : AttemptCalls) (run_id : String) (role : Role) where
    request_approval-Safe :
        (ask_call : Call) (raw : String) → Safe (request_approval d ask_call run_id role raw)
    unfolding request_approval perform
    request_approval-Safe k raw =
        if-Safe d.attention_store _ _
          (also-Safe _ _
            (tried-At S own order db0
              (insert_attention k.faults k.now k.event_id
                (approval_item run_id role k.event_id raw))
              (λ db. (
                ask k.faults k.now k.event_id (approval_item run_id role k.event_id raw),
                refl,
                refl,
              )))
            (reject-Safe (Unit {0}) needs_approval))
          (reject-Safe (Unit {0}) needs_approval)

    decide-Safe :
        (k : Call) (raw : String) (x : PermissionDecision) → Safe (decide d k run_id role raw x)
    unfolding decide
    decide-Safe k raw allow = pure-Safe tt
    decide-Safe k raw hard_deny = reject-Safe (Unit {0}) never_allowed
    decide-Safe k raw requires_human = request_approval-Safe k raw
    decide-Safe k raw undeclared =
        if-Safe (warns d.policy) _ _ (pure-Safe tt) (reject-Safe (Unit {0}) not_declared)

    may_launch-Safe : (o : Option String) → Safe (may_launch d c run_id role o)
    unfolding check_permission
    may_launch-Safe none = pure-Safe tt
    may_launch-Safe (some name) =
        if-Safe (not (name == "")) _ _ (decide-Safe c.ask _ _) (pure-Safe _)

    record_result-Safe : (n : ℕ) (r : RuleResult) → Safe (record_result d c run_id role n r)
    unfolding perform
    record_result-Safe n r = if-Safe (r.rule_name == "" && r.message == "") _ _ (pure-Safe _) (
        tried-At S own order db0
          (record_verdict (c.verdict n).faults (c.verdict n).now (c.verdict n).event_id
            (c.verdict_id n) run_id c.job_id r)
          (λ db. (
            judge (c.verdict n).faults (c.verdict n).now (c.verdict n).event_id (c.verdict_id n)
                run_id c.job_id r,
            refl,
            refl,
          )))

    record_each-Safe : (n : ℕ) (rs : List RuleResult) → Safe (record_each d c run_id role n rs)
    unfolding record_each
    record_each-Safe n [] = pure-Safe tt
    record_each-Safe n (r ∷ rs) =
        also-Safe _ _ (record_result-Safe n r) (record_each-Safe (suc n) rs)

    record_results-Safe :
        (v : SupervisorVerdict) → Safe (record_supervisor_results d c run_id role v)
    unfolding record_supervisor_results
    record_results-Safe v =
        if-Safe d.supervisor_writer _ _ (record_each-Safe 0 v.results) (pure-Safe _)

    write_event-Safe : (e : Event) → IsForeign e.kind → Safe (tried (write_event c e))
    unfolding perform
    write_event-Safe e foreign =
        tried-At S own order db0 (write_event c e)
          (λ db. (log c.event.faults e foreign, refl, refl))

    after_verdict-Safe :
        (original : String) (attempt retries : ℕ) (result : JobResult) (v : SupervisorVerdict)
        → Safe (after_verdict d c run_id role original attempt retries result v)
    unfolding after_verdict attempt_event run_event
    after_verdict-Safe original attempt retries result v = if-Safe v.pass _ _ (pure-Safe _) (
        if-Safe (ltb attempt retries) _ _
          (also-Safe _ _ (tried-At S own order db0 (fail_job c) (fail_job-IsOperation c)) (
            also-Safe _ _
              (write_event-Safe _ (record { dispatches = λ _. refl; workers = λ _. refl }))
              (pure-Safe _)))
          (also-Safe _ _
            (write_event-Safe _ (record { dispatches = λ _. refl; workers = λ _. refl }))
            (pure-Safe _)))

    supervise-Safe :
        (original : String) (attempt retries : ℕ) (result : JobResult)
        (o : Option (EvalContext → Result String SupervisorVerdict))
        → Safe (supervise d c run_id role original attempt retries result o)
    unfolding supervise
    supervise-Safe original attempt retries result none = pure-Safe _
    supervise-Safe original attempt retries result (some evaluate) =
        then-Safe _ _
          (on_error-At S own order db0 (fail_job c) _ (fail_job-Stays c) (
            lift-At S own order db0 evaluate_failed
              (evaluate (eval_context d c run_id role result))))
          (λ v.
            also-Safe _ _ (record_results-Safe v)
              (after_verdict-Safe original attempt retries result v))

    prepare-Safe : (agent : Agent S) (attempt : ℕ) → Safe (prepare d c run_id role agent attempt)
    unfolding prepare perform
    prepare-Safe agent attempt =
        also-Safe _ _
          (stored-At S own order db0
            (create_job c.create.faults c.create.event_id (new_job c run_id role attempt))
            (λ db. (
              open_job c.create.faults c.create.event_id (new_job c run_id role attempt),
              refl,
              refl,
            )))
          (also-Safe _ _
            (stored-At S own order db0
              (update_job_state c.lease.faults c.lease.now c.lease.event_id c.job_id dispatched)
              (λ db. (
                move_job c.lease.faults c.lease.now c.lease.event_id c.job_id dispatched,
                refl,
                refl,
              )))
            (on_error-At S own order db0 (fail_job c) _ (fail_job-Stays c)
              (may_launch-Safe agent.binary_basename)))

    launch-Safe :
        (agent : Agent S) (prompt : String) (attempt : ℕ)
        → Safe (launch d c run_id role agent prompt attempt)
    unfolding launch
    launch-Safe agent prompt attempt =
        then-Safe _ _
          (on_error-At S own order db0 (fail_job c) _ (fail_job-Stays c) (
            act-At S own order db0 dispatch_failed
              (agent.dispatch (new_job c run_id role attempt) prompt)))
          (λ wait.
            on_error-At S own order db0 (fail_job c) _ (fail_job-Stays c)
              (act-At S own order db0 wait_failed wait))

    pub execute-Safe :
        (agent : Agent S) (prompt original : String) (attempt retries : ℕ)
        → Safe (execute_attempt d c run_id role agent prompt original attempt retries)
    unfolding execute_attempt
    execute-Safe agent prompt original attempt retries =
        also-Safe _ _ (prepare-Safe agent attempt) (
          then-Safe _ _ (launch-Safe agent prompt attempt)
            (λ result. supervise-Safe original attempt retries result d.supervisor))
