-- ===== src/Orchestration/Results.antt =====
-- What the loop over the attempts says of the retries and the verdict.
pub mod Settled
use coworker.Prelude.{
  ℕ, zero, suc, ◌+◌, ◌≤◌, ◌<◌, String, ◌≡◌, ◌↔◌, refl, sym, ◌∙◌, ap, subst, arith, Bool, true,
  false, Option, none, some, List, [], ◌∷◌, ◌==◌, if◌then◌else◌, not, Result, ok, err, ltb,
  Bool-cases, inl, inr,
}
use coworker.Manifest.Integers.{ℤ, pos, eqz, eqz_iff}
use coworker.Core.Jobs.{JobState, JobResult, Finding}
use coworker.Supervisor.{SupervisorVerdict}
use coworker.Supervisor.Predicates.{EvalContext}
use coworker.Store.Schema.{JobRow, Db, Outcome, job_key}
use coworker.Store.Rows.{row}
use coworker.Store.Runs.{complete_run}
use coworker.Store.Jobs.{moved, update_job_state}
use coworker.Store.Jobs.States.{moved-state, update_job_state_lem, complete_run-jobs}
use coworker.Orchestration
use coworker.Orchestration.{
  missing, DispatchResult, rejected, final_state, run_state_for, agent_for, max_retries, conclude,
  run_attempts, orchestrate, require,
}
use coworker.Orchestration.Effects.{
  World, Flow, Failure, Role, Agent, Dispatcher, DispatchInput, Calls, AttemptCalls, next, pure,
  lift, recovered, with_outcome, stored, tried, on_error, load_role_failed, render_failed,
  evaluate_failed, ◌>>=◌, ◌>>◌,
}
use coworker.Orchestration.Permission.{reject}
use coworker.Orchestration.Attempt.{
  AttemptResult, fail_job, record_supervisor_results, write_event, after_verdict, eval_context,
  supervise, prepare, launch, execute_attempt,
}
use coworker.Orchestration.Loop.{
  Finished, finished, persist_findings, close_failed, attempt_once, retry_or_break, last_round,
  attempt_loop,
}

module _ (S : Type 0) where
  -- What holds of the value of a step that has one, and of the world it is returned in.
  unfoldable pub Gives : {A : Type 0} → (A → World S → Type 0) → Flow S A → Type 0
  Gives {A = A} Q m = (w w' : World S) (a : A) → m w ≡ (ok a, w') → Q a w'

  pub pure-Gives :
      {A : Type 0} (Q : A → World S → Type 0) (a : A) → ((w : World S) → Q a w) → Gives Q (pure a)
  unfolding Gives
  pure-Gives Q a h w w' b e =
      let same : a ≡ b = cc (ap (λ (o : Result Failure _ × World S). o.0) e) in
      subst (λ c. Q c w') same (h w')

  pub reject-Gives : {A : Type 0} (Q : A → World S → Type 0) (x : Failure) → Gives Q (reject x)
  unfolding Gives
  reject-Gives Q x w w' b e = absurd (cc (ap (λ (o : Result Failure _ × World S). o.0) e))

  pub if-Gives :
      {A : Type 0} (Q : A → World S → Type 0) (b : Bool) (m k : Flow S A)
      → (b ≡ true → Gives Q m)
      → (b ≡ false → Gives Q k)
      → Gives Q (if b then m else k)
  if-Gives Q true m k p q = p refl
  if-Gives Q false m k p q = q refl

  next-Gives :
      {A B : Type 0} (R : A → World S → Type 0) (Q : B → World S → Type 0)
      (o : Result Failure A × World S) (k : A → Flow S B)
      → ((a : A) (w : World S) → o ≡ (ok a, w) → R a w)
      → ((a : A) (w w' : World S) (b : B) → R a w → k a w ≡ (ok b, w') → Q b w')
      → (w' : World S) (b : B) → next o k ≡ (ok b, w')
      → Q b w'
  next-Gives R Q (ok a, w) k h p w' b e = p a w w' b (h a w refl) e
  next-Gives R Q (err x, w) k h p w' b e =
      absurd (cc (ap (λ (o : Result Failure _ × World S). o.0) e))

  -- The rest of a sequence, by what the first step gives.
  pub then-Gives :
      {A B : Type 0} (R : A → World S → Type 0) (Q : B → World S → Type 0) (m : Flow S A)
      (k : A → Flow S B)
      → Gives R m
      → ((a : A) (w w' : World S) (b : B) → R a w → k a w ≡ (ok b, w') → Q b w')
      → Gives Q (m >>= k)
  unfolding Gives
  then-Gives R Q m k h p w w' b e = next-Gives R Q (m w) k (λ a v. h w v a) p w' b e

  pub last-Gives :
      {A B : Type 0} (Q : B → World S → Type 0) (m : Flow S A) (k : A → Flow S B)
      → ((a : A) → Gives Q (k a))
      → Gives Q (m >>= k)
  unfolding Gives
  last-Gives Q m k p w w' b e =
      next-Gives (λ _ _. Unit) Q (m w) k (λ _ _ _. tt) (λ a v v' c _. p a v v' c) w' b e

  pub value-Gives :
      {A B : Type 0} (R : A → Type 0) (Q : B → World S → Type 0) (m : Flow S A) (k : A → Flow S B)
      → Gives (λ a _. R a) m
      → ((a : A) → R a → Gives Q (k a))
      → Gives Q (m >>= k)
  unfolding Gives
  value-Gives R Q m k h p w w' b e =
      next-Gives (λ a _. R a) Q (m w) k (λ a v. h w v a) (λ a v v' c r. p a r v v' c) w' b e

  pub also-Gives :
      {B : Type 0} (Q : B → World S → Type 0) (m : Flow S (Unit {0})) (k : Flow S B)
      → Gives Q k
      → Gives Q (m >> k)
  also-Gives Q m k p = last-Gives Q m (λ _. k) (λ _. p)

  recovered_value :
      {A : Type 0} (f : Db → Outcome) (o : Result Failure A × World S) (a : A) (w : World S)
      → recovered f o ≡ (ok a, w)
      → o ≡ (ok a, w)
  recovered_value f (ok b, v) a w e = e
  recovered_value f (err x, v) a w e = absurd (cc (ap (λ (o : Result Failure _ × World S). o.0) e))

  on_error-Gives :
      {A : Type 0} (Q : A → World S → Type 0) (f : Db → Outcome) (m : Flow S A)
      → Gives Q m
      → Gives Q (on_error f m)
  unfolding Gives
  on_error-Gives Q f m p w w' a e = p w w' a (recovered_value f (m w) a w' e)

-- What an attempt's result says: a retry is asked for only while attempts are left, and a rejected
-- result without a retry means that none are.
Attempted : ℕ → ℕ → AttemptResult → Type 0
Attempted attempt retries r =
    (r.should_retry ≡ true → attempt < retries)
    × (r.should_retry ≡ false → rejected r.verdict ≡ true → retries ≤ attempt)

-- What the loop's result says.
pub Counted : ℕ → Finished → Type 0
Counted retries f =
    (f.retry_count ≤ retries) × (rejected f.verdict ≡ true → f.retry_count ≡ retries)

settled-Attempted :
    (attempt retries : ℕ) (r : AttemptResult)
    → r.should_retry ≡ false
    → (rejected r.verdict ≡ true → retries ≤ attempt)
    → Attempted attempt retries r
unfolding Attempted
settled-Attempted attempt retries r e h = (λ k. absurd (cc (sym e ∙ k)), λ _. h)

retried-Attempted :
    (attempt retries : ℕ) (r : AttemptResult)
    → r.should_retry ≡ true
    → attempt < retries
    → Attempted attempt retries r
unfolding Attempted
retried-Attempted attempt retries r e h = (λ _. h, λ k. absurd (cc (sym e ∙ k)))

module _ {S : Type 0} (d : Dispatcher S) where
  module _ (c : AttemptCalls) (run_id : String) (role : Role) (original : String)
      (attempt retries : ℕ) where
    abbrev Tried : AttemptResult → World S → Type 0
    Tried r _ = Attempted attempt retries r

    after_verdict-Attempted :
        (result : JobResult) (v : SupervisorVerdict)
        → Gives S Tried (after_verdict d c run_id role original attempt retries result v)
    unfolding after_verdict
    after_verdict-Attempted result v =
        if-Gives S Tried v.pass _ _
          (λ e.
            pure-Gives S Tried _
              (λ _. settled-Attempted attempt retries _ refl (λ h. absurd (ground (arith, e, h)))))
          (λ e.
            if-Gives S Tried (ltb attempt retries) _ _
              (λ l. also-Gives S Tried (tried (fail_job c)) _ (
                also-Gives S Tried (tried (write_event c _)) _ (
                  pure-Gives S Tried _
                    (λ _. retried-Attempted attempt retries _ refl (ground (arith, l))))))
              (λ l. also-Gives S Tried (tried (write_event c _)) _ (
                pure-Gives S Tried _
                  (λ _. settled-Attempted attempt retries _ refl (λ _. ground (arith, l))))))

    supervise-Attempted :
        (result : JobResult) (o : Option (EvalContext → Result String SupervisorVerdict))
        → Gives S Tried (supervise d c run_id role original attempt retries result o)
    unfolding supervise
    supervise-Attempted result none =
        pure-Gives S Tried _ (λ _. settled-Attempted attempt retries _ refl (λ h. absurd (cc (h))))
    supervise-Attempted result (some evaluate) =
        last-Gives S Tried
          (on_error (fail_job c)
            (lift evaluate_failed (evaluate (eval_context d c run_id role result))))
          _
          (λ v.
            also-Gives S Tried (record_supervisor_results d c run_id role v) _
              (after_verdict-Attempted result v))

    execute-Attempted :
        (agent : Agent S) (prompt : String)
        → Gives S Tried (execute_attempt d c run_id role agent prompt original attempt retries)
    unfolding execute_attempt
    execute-Attempted agent prompt = also-Gives S Tried (prepare d c run_id role agent attempt) _ (
        last-Gives S Tried (launch d c run_id role agent prompt attempt) _
          (λ result. supervise-Attempted result d.supervisor))

  module _ (calls : Calls) (input : DispatchInput) (role : Role) (run_id : String) (agent : Agent S)
      (original : String) (retries : ℕ) where
    attempt_once-Attempted :
        (attempt : ℕ) (prompt : String)
        → Gives S
            (λ r _. Attempted attempt retries r)
            (attempt_once d calls input role run_id agent original retries attempt prompt)
    unfolding attempt_once
    attempt_once-Attempted attempt prompt =
        if-Gives S _ (calls.attempt attempt).done _ _ (λ _. reject-Gives S _ _)
          (λ _. on_error-Gives S _ (close_failed d calls input role run_id) _ (
            execute-Attempted (calls.attempt attempt) run_id role original attempt retries agent
              prompt))

    last_round-Counted :
        (attempt : ℕ) (r : AttemptResult)
        → attempt ≡ retries
        → Attempted attempt retries r
        → Counted retries (last_round d calls input role run_id attempt r)
    unfolding Attempted Counted
    last_round-Counted attempt r e (h, k) = elim (Bool-cases r.should_retry) [
      | inl s ↦ absurd (omega (arith, h s, e))
      | inr s ↦ (rw s (omega (arith, e)), λ _. rw s e)
    ]

    break-Counted :
        (attempt : ℕ) (r : AttemptResult)
        → attempt ≤ retries
        → r.should_retry ≡ false
        → Attempted attempt retries r
        → Counted retries (finished attempt r)
    unfolding Attempted Counted
    break-Counted attempt r e s (h, k) = (e, λ j. omega (arith, e, k s j))

    pub attempt_loop-Counted :
        (left attempt : ℕ) (prompt : String)
        → attempt + left ≡ retries
        → Gives S
            (λ f _. Counted retries f)
            (attempt_loop d calls input role run_id agent original retries left attempt attempt
              prompt)
    unfolding attempt_loop
    attempt_loop-Counted zero attempt prompt e =
        value-Gives S (Attempted attempt retries) (λ f _. Counted retries f)
          (attempt_once d calls input role run_id agent original retries attempt prompt) _
          (attempt_once-Attempted attempt prompt)
          (λ r t.
            pure-Gives S (λ f _. Counted retries f) (last_round d calls input role run_id attempt r)
              (λ _. last_round-Counted attempt r (omega (arith, e)) t))
    attempt_loop-Counted (suc left) attempt prompt e =
        value-Gives S (Attempted attempt retries) (λ f _. Counted retries f)
          (attempt_once d calls input role run_id agent original retries attempt prompt) _
          (attempt_once-Attempted attempt prompt)
          (λ r t.
            if-Gives S (λ f _. Counted retries f) r.should_retry _ _
              (λ _. attempt_loop-Counted left (suc attempt) r.next_prompt (omega (arith, e)))
              (λ s.
                pure-Gives S (λ f _. Counted retries f) (finished attempt r)
                  (λ _. break-Counted attempt r (omega (arith, e)) s t)))
