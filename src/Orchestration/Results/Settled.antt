-- ===== src/Orchestration/Results/Settled.antt =====
-- What a dispatch that returns a result says of its retries, its verdict and its job.
use coworker.Prelude.{
  ℕ, ◌≤◌, String, ◌≡◌, ◌↔◌, refl, eq_refl, ◌∙◌, ap, subst, arith, true, false, Option, some, ◌==◌,
  not, Result, ok, err, Bool-cases, inl, inr, ◌⊎◌,
}
use coworker.Manifest.Integers.{ℤ, pos, eqz, eqz_iff}
use coworker.Core.Jobs.{JobState}
use coworker.Supervisor.{SupervisorVerdict}
use coworker.Store.Schema.{JobRow, Db, Outcome, job_key}
use coworker.Store.Rows.{row}
use coworker.Store.Jobs.{moved, update_job_state}
use coworker.Store.Jobs.States.{moved-state, update_job_state_lem, complete_run-jobs}
use coworker.Orchestration
use coworker.Orchestration.{
  missing, DispatchResult, rejected, final_state, run_state_for, agent_for, max_retries, conclude,
  run_attempts, orchestrate, require,
}
use coworker.Orchestration.Effects.{
  World, Failure, Role, Dispatcher, DispatchInput, Calls, next, pure, lift, with_outcome, stored,
  load_role_failed, render_failed,
}
use coworker.Orchestration.Loop.{Finished, persist_findings}
use coworker.Orchestration.Results.{
  Gives, then-Gives, last-Gives, value-Gives, also-Gives, Counted, attempt_loop-Counted,
}

-- The job has the state in the table.
InState : String → JobState → Db → Type 0
InState job_id state db = (r : JobRow) × (row job_key job_id db.jobs ≡ some r) × (r.state ≡ state)

InState-same :
    (job_id : String) (state : JobState) (db p : Db)
    → p.jobs ≡ db.jobs
    → InState job_id state db
    → InState job_id state p
unfolding InState
InState-same job_id state db p h (r, e, k) = (r, ap (row job_key job_id) h ∙ e, k)

updated-InState :
    (f : _) (now : ℕ) (event_id job_id : String) (state : JobState) (db db' : Db)
    → update_job_state f now event_id job_id state db ≡ (ok tt, db')
    → InState job_id state db'
unfolding InState
updated-InState f now event_id job_id state db db' h =
    let (r, found, rows) = update_job_state_lem f now event_id job_id state db db' h in
    (moved now state r, rows job_id ∙ rw (eq_refl job_id) refl, moved-state now state r)

module _ {S : Type 0} where
  outcome_ok :
      (s : S) (o : Outcome) (w : World S) → with_outcome s o ≡ (ok tt, w) → o ≡ (ok tt, w.db)
  outcome_ok s (ok _, db) w h = λ i. (ok tt, (h i).1.db)
  outcome_ok s (err x, db) w h = absurd (cc (ap (λ (r : Result Failure _ × World S). r.0) h))

  with_outcome-jobs : (s : S) (o : Outcome) → (with_outcome s o).1.db.jobs ≡ o.1.jobs
  with_outcome-jobs s (ok _, db) = refl
  with_outcome-jobs s (err x, db) = refl

  -- The value that ends a sequence, in the world that the steps before it leave.
  returned :
      {A : Type 0} (Q : A → World S → Type 0) (o : Result Failure (Unit {0}) × World S) (a b : A)
      (w' : World S)
      → Q a o.1
      → next o (λ _. pure a) ≡ (ok b, w')
      → Q b w'
  returned Q (ok _, w) a b w' q e =
      let same : a ≡ b = cc (ap (λ (r : Result Failure _ × World S). r.0) e) in
      subst (λ v. Q b v) (λ i. (e i).1) (subst (λ c. Q c w) same q)
  returned Q (err x, w) a b w' q e = absurd (cc (ap (λ (r : Result Failure _ × World S). r.0) e))

-- What a result says, and the job that it names.
Concluded : {S : Type 0} → ℕ → DispatchResult → World S → Type 0
Concluded retries out w =
    (out.retry_count ≤ retries)
    × (rejected out.supervisor_verdict ≡ true → out.retry_count ≡ retries)
    × InState out.job_id (final_state out.exit_code out.supervisor_verdict) w.db

module _ {S : Type 0} (d : Dispatcher S) (calls : Calls) (input : DispatchInput) (role : Role)
    (run_id : String) where
  close_run-jobs :
      (state : JobState) (w : World S)
      → (Orchestration.close_run d calls input run_id state w).1.db.jobs ≡ w.db.jobs
  unfolding Orchestration.close_run
  close_run-jobs state w = elim (Bool-cases (not (input.run_id == ""))) [
    | inl e ↦ rw e refl
    | inr e ↦ rw e (
        with_outcome-jobs w.outside _
        ∙ complete_run-jobs calls.close.faults calls.close.now calls.close.event_id run_id
            (run_state_for state) w.db)
  ]

  stored-InState :
      (job_id : String) (state : JobState)
      → Gives S
          (λ _ w. InState job_id state w.db)
          (stored (
            update_job_state calls.finish.faults calls.finish.now calls.finish.event_id job_id
              state))
  unfolding Gives
  stored-InState job_id state w w' _ e =
      updated-InState calls.finish.faults calls.finish.now calls.finish.event_id job_id state w.db
        w'.db
        (outcome_ok w.outside
          (update_job_state calls.finish.faults calls.finish.now calls.finish.event_id job_id state
            w.db)
          w' e)

  conclude-Concluded :
      (retries : ℕ) (last : Finished)
      → Counted retries last
      → Gives S (Concluded retries) (conclude d calls input role run_id last)
  unfolding conclude Concluded Counted
  conclude-Concluded retries last (n, k) =
      let state = final_state last.result.exit_code last.verdict in
      last-Gives S (Concluded retries)
        (persist_findings d calls input role run_id last.job_id 0 last.result.findings) _
        (λ findings.
          then-Gives S (λ _ w. InState last.job_id state w.db) (Concluded retries)
            (stored (
              update_job_state calls.finish.faults calls.finish.now calls.finish.event_id
                last.job_id state))
            _ (stored-InState last.job_id state)
            (λ _ w w' b h e.
              returned (Concluded retries) (Orchestration.close_run d calls input run_id state w) _
                b w' (n, k, InState-same last.job_id state w.db _ (close_run-jobs state w) h) e))

  run_attempts-Concluded :
      (prompt : String)
      → Gives S (Concluded (max_retries d)) (run_attempts d calls input role run_id prompt)
  unfolding run_attempts
  run_attempts-Concluded prompt =
      value-Gives S (Counted (max_retries d)) (Concluded (max_retries d)) _ _
        (attempt_loop-Counted d calls input role run_id (agent_for d role) prompt (max_retries d)
          (max_retries d) 0 prompt (omega arith))
        (λ last h. conclude-Concluded (max_retries d) last h)

orchestrate-Concluded :
    {S : Type 0} (d : Dispatcher S) (calls : Calls) (input : DispatchInput)
    → Gives S (Concluded (max_retries d)) (orchestrate d calls input)
unfolding orchestrate
orchestrate-Concluded {S} d calls input =
    last-Gives S (Concluded (max_retries d)) (lift load_role_failed (d.load_role input.role_name)) _
      (λ role.
        also-Gives S (Concluded (max_retries d))
          (require d calls input role (missing role.required input.inputs)) _
          (last-Gives S (Concluded (max_retries d)) (Orchestration.open_run d calls input) _
            (λ run_id.
              last-Gives S (Concluded (max_retries d))
                (lift render_failed (d.render_prompt role input.inputs)) _
                (λ prompt. run_attempts-Concluded d calls input role run_id prompt))))

-- A dispatch that returns a result has retried at most as often as it may, and if the last verdict
-- rejects the result, it has used all its retries.
pub retries_exhausted :
    {S : Type 0} (d : Dispatcher S) (calls : Calls) (input : DispatchInput) (w w' : World S)
    (out : DispatchResult)
    → orchestrate d calls input w ≡ (ok out, w')
    → (out.retry_count ≤ max_retries d)
      × (rejected out.supervisor_verdict ≡ true → out.retry_count ≡ max_retries d)
unfolding Gives Concluded
retries_exhausted d calls input w w' out h =
    let (n, k, _) = orchestrate-Concluded d calls input w w' out h in (n, k)

final_state-complete :
    (code : ℤ) (v : Option SupervisorVerdict)
    → (final_state code v ≡ JobState.complete) ↔ ((code ≡ pos 0) × (rejected v ≡ false))
unfolding final_state
final_state-complete code v = (
  λ h. (ground (arith, eqz_iff code (pos 0), h), ground (arith, eqz_iff code (pos 0), h)),
  λ (h, k). ground (arith, eqz_iff code (pos 0), h, k),
)

final_state_cases :
    (code : ℤ) (v : Option SupervisorVerdict)
    → (final_state code v ≡ JobState.complete) ⊎ (final_state code v ≡ JobState.failed)
unfolding final_state
final_state_cases code v = elim (Bool-cases (rejected v)) [
  | inl e ↦ rw e (inr refl)
  | inr e ↦ elim (Bool-cases (eqz code (pos 0))) [
    | inl z ↦ rw (e, z) (inl refl)
    | inr z ↦ rw (e, z) (inr refl)
  ]
]

-- A dispatch that returns a result leaves the job that the result names in the table: in state
-- complete if its agent exited with code 0 and no verdict rejects it, and only then, and in state
-- failed otherwise.
pub job_settled :
    {S : Type 0} (d : Dispatcher S) (calls : Calls) (input : DispatchInput) (w w' : World S)
    (out : DispatchResult)
    → orchestrate d calls input w ≡ (ok out, w')
    → (r : JobRow) × (row job_key out.job_id w'.db.jobs ≡ some r)
      × ((r.state ≡ JobState.complete)
          ↔ ((out.exit_code ≡ pos 0) × (rejected out.supervisor_verdict ≡ false)))
      × ((r.state ≡ JobState.complete) ⊎ (r.state ≡ JobState.failed))
unfolding Gives Concluded InState
job_settled d calls input w w' out h =
    let (_, _, (r, e, s)) = orchestrate-Concluded d calls input w w' out h in
    (
      r,
      e,
      rw s (final_state-complete out.exit_code out.supervisor_verdict),
      rw s (final_state_cases out.exit_code out.supervisor_verdict),
    )
