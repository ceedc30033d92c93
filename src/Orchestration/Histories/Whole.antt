-- ===== src/Orchestration/Histories/Whole.antt =====
-- The loop over the attempts, and the whole dispatch.
use coworker.Prelude.{
  ℕ, zero, suc, String, ◌≡◌, refl, Option, none, some, List, [], ◌∷◌, ◌==◌, not, Bool, true, false,
  All, ok, if◌then◌else◌,
}
use coworker.Core.Jobs.{JobState, RunState, Finding}
use coworker.Store.Schema.{Db, Outcome}
use coworker.Store.Runs.{create_run, complete_run}
use coworker.Store.Jobs.{update_job_state}
use coworker.Store.Findings.{insert_finding}
use coworker.Store.Dispatches.{QueueOrder}
use coworker.Store.History.{open_run, close_run, move_job, report, perform, history, Operation}
use coworker.Orchestration
use coworker.Orchestration.{
  new_run, missing, DispatchResult, final_state, run_state_for, agent_for, max_retries, conclude,
  run_attempts, orchestrate, require,
}
use coworker.Orchestration.Effects.{
  World, Flow, Role, Agent, Dispatcher, DispatchInput, Calls, Preserves, missing_input,
  context_done, load_role_failed, render_failed,
}
use coworker.Orchestration.Attempt.{AttemptResult}
use coworker.Orchestration.Loop.{
  Finished, attributed, persist_findings, close_failed, attempt_once, attempt_loop,
}
use coworker.Orchestration.Histories.{
  May, IsOperation, Reached, Reached-step, Stays, At, stored-At, tried-At, on_error-At, lift-At,
}
use coworker.Orchestration.Histories.Attempts.{
  if-Safe, then-Safe, also-Safe, pure-Safe, reject-Safe, execute-Safe,
}

module _ {S : Type 0} (order : QueueOrder) (db0 : Db) (d : Dispatcher S) (calls : Calls)
    (input : DispatchInput) where
  -- Whether the run is the dispatch's own.
  abbrev own : Bool
  own = input.run_id == ""

  abbrev Kept : {A : Type 0} → Flow S A → Type 0
  Kept m = Preserves (At S own order db0) m

  if_attached-Kept :
      {A : Type 0} (b : Bool) (m k : Flow S A)
      → Kept m
      → (b ≡ true → Kept k)
      → Kept (if not b then m else k)
  if_attached-Kept true m k p q = q refl
  if_attached-Kept false m k p q = p

  if_own-Reached :
      (b : Bool) (p q : Outcome)
      → (b ≡ true → Reached own order db0 p.1)
      → Reached own order db0 q.1
      → Reached own order db0 (if b then p else q).1
  if_own-Reached true p q h k = h refl
  if_own-Reached false p q h k = k

  module _ (role : Role) (run_id : String) where
    persist-Kept :
        (job_id : String) (n : ℕ) (findings : List Finding)
        → Kept (persist_findings d calls input role run_id job_id n findings)
    unfolding persist_findings perform
    persist-Kept job_id n [] = pure-Safe own order db0 d []
    persist-Kept job_id n (f ∷ findings) =
        let c = calls.finding n in
        let f' = attributed d calls input role run_id job_id (calls.finding_id n) f in
        also-Safe own order db0 d _ _
          (tried-At S own order db0 (insert_finding d.fingerprint c.faults c.now c.event_id f')
            (λ db. (report d.fingerprint c.faults c.now c.event_id f', refl, refl)))
          (then-Safe own order db0 d _ _ (persist-Kept job_id (suc n) findings)
            (λ rest. pure-Safe own order db0 d _))

    closing-IsOperation :
        (state : RunState)
        → own ≡ true
        → IsOperation own order
            (complete_run calls.close.faults calls.close.now calls.close.event_id run_id state)
    unfolding perform
    closing-IsOperation state is_own s = (
      close_run calls.close.faults calls.close.now calls.close.event_id run_id state,
      is_own,
      refl,
    )

    close_failed-Stays : Stays S own order db0 (close_failed d calls input role run_id)
    unfolding close_failed
    close_failed-Stays db h =
        let f =
          complete_run calls.close.faults calls.close.now calls.close.event_id run_id
            RunState.failed in
        if_own-Reached own (f db) (ok tt, db)
          (λ is_own. Reached-step own order db0 f db (closing-IsOperation RunState.failed is_own) h)
          h

    attempt_once-Kept :
        (agent : Agent S) (original : String) (retries attempt : ℕ) (prompt : String)
        → Kept (attempt_once d calls input role run_id agent original retries attempt prompt)
    unfolding attempt_once
    attempt_once-Kept agent original retries attempt prompt =
        if-Safe own order db0 d (calls.attempt attempt).done _ _
          (reject-Safe own order db0 d AttemptResult context_done)
          (on_error-At S own order db0 (close_failed d calls input role run_id) _ close_failed-Stays
            (execute-Safe own order db0 d (calls.attempt attempt) run_id role agent prompt original
              attempt retries))

    attempt_loop-Kept :
        (agent : Agent S) (original : String) (retries left attempt count : ℕ) (prompt : String)
        → Kept (
            attempt_loop d calls input role run_id agent original retries left attempt count prompt)
    unfolding attempt_loop
    attempt_loop-Kept agent original retries zero attempt count prompt =
        then-Safe own order db0 d _ _ (attempt_once-Kept agent original retries attempt prompt)
          (λ r. pure-Safe own order db0 d _)
    attempt_loop-Kept agent original retries (suc left) attempt count prompt =
        then-Safe own order db0 d _ _ (attempt_once-Kept agent original retries attempt prompt)
          (λ r.
            if-Safe own order db0 d r.should_retry _ _
              (attempt_loop-Kept agent original retries left (suc attempt) (suc count)
                r.next_prompt)
              (pure-Safe own order db0 d _))

    close_run-Kept : (state : JobState) → Kept (Orchestration.close_run d calls input run_id state)
    unfolding Orchestration.close_run
    close_run-Kept state =
        if_attached-Kept own _ _ (pure-Safe own order db0 d tt)
          (λ is_own. stored-At S own order db0 _ (closing-IsOperation (run_state_for state) is_own))

    conclude-Kept : (last : Finished) → Kept (conclude d calls input role run_id last)
    unfolding conclude perform
    conclude-Kept last =
        let state = final_state last.result.exit_code last.verdict in
        then-Safe own order db0 d _ _ (persist-Kept last.job_id 0 last.result.findings) (λ findings.
          also-Safe own order db0 d _ _
            (stored-At S own order db0
              (update_job_state calls.finish.faults calls.finish.now calls.finish.event_id
                last.job_id state)
              (λ s. (
                move_job calls.finish.faults calls.finish.now calls.finish.event_id last.job_id
                    state,
                refl,
                refl,
              )))
            (also-Safe own order db0 d _ _ (close_run-Kept state) (pure-Safe own order db0 d _)))

    run_attempts-Kept : (prompt : String) → Kept (run_attempts d calls input role run_id prompt)
    unfolding run_attempts
    run_attempts-Kept prompt =
        then-Safe own order db0 d _ _
          (attempt_loop-Kept (agent_for d role) prompt (max_retries d) (max_retries d) 0 0 prompt)
          (λ last. conclude-Kept last)

  require-Kept : (role : Role) (o : Option String) → Kept (require d calls input role o)
  require-Kept role none = pure-Safe own order db0 d tt
  require-Kept role (some name) = reject-Safe own order db0 d (Unit {0}) (missing_input name)

  open_run-Kept : Kept (Orchestration.open_run d calls input)
  unfolding Orchestration.open_run perform
  open_run-Kept = if_attached-Kept own _ _ (pure-Safe own order db0 d input.run_id) (λ is_own.
      also-Safe own order db0 d _ _
        (stored-At S own order db0
          (create_run calls.create.faults calls.create.event_id (new_run calls))
          (λ s. (open_run calls.create.faults calls.create.event_id (new_run calls), is_own, refl)))
        (pure-Safe own order db0 d calls.run_id))

  orchestrate-Kept : Kept (orchestrate d calls input)
  unfolding orchestrate
  orchestrate-Kept =
      then-Safe own order db0 d _ _
        (lift-At S own order db0 load_role_failed (d.load_role input.role_name))
        (λ role.
          also-Safe own order db0 d _ _ (require-Kept role (missing role.required input.inputs)) (
            then-Safe own order db0 d _ _ open_run-Kept (λ run_id.
              then-Safe own order db0 d _ _
                (lift-At S own order db0 render_failed (d.render_prompt role input.inputs))
                (λ prompt. run_attempts-Kept role run_id prompt))))

-- However a dispatch ends and whatever fails in it, the database that it leaves behind is the one
-- that some sequence of the store's operations leads to from where it began. None of them is of the
-- queue or of the registry, resolves a finding or answers a question, and they open or close a run
-- only if the caller gave none.
pub orchestrate-history :
    {S : Type 0} (order : QueueOrder) (d : Dispatcher S) (calls : Calls) (input : DispatchInput)
    (w : World S)
    → (ops : List Operation) × All (May (input.run_id == "")) ops
      × (history order ops w.db ≡ (orchestrate d calls input w).1.db)
unfolding Reached Preserves history
orchestrate-history order d calls input w =
    orchestrate-Kept order w.db d calls input w ([], tt, refl)
