-- ===== src/Orchestration/Launches/Bound.antt =====
-- A dispatch launches its agent at most once more than it may retry.
use coworker.Prelude.{
  ℕ, zero, suc, ◌+◌, ◌≤◌, String, ◌≡◌, refl, ap, arith, Bool, true, false, if◌then◌else◌, Result,
  ok, err,
}
use coworker.Core.Jobs.{JobResult, Job}
use coworker.Store.Schema.{Db, Outcome}
use coworker.Orchestration
use coworker.Orchestration.{
  missing, DispatchResult, agent_for, max_retries, conclude, run_attempts, orchestrate, require,
}
use coworker.Orchestration.Effects.{
  World, Flow, Failure, Role, Agent, Dispatcher, DispatchInput, Calls, AttemptCalls, next, pure,
  lift, recovered, outside_result, act, on_error, render_failed, context_done, dispatch_failed,
  wait_failed, ◌>>=◌, ◌>>◌,
}
use coworker.Orchestration.Permission.{reject}
use coworker.Orchestration.Attempt.{
  AttemptResult, new_job, fail_job, supervise, prepare, launch, execute_attempt,
}
use coworker.Orchestration.Loop.{close_failed, attempt_once, attempt_loop}
use coworker.Orchestration.Launches.{Unmoved, pure-Unmoved, reject-Unmoved, lift-Unmoved}
use coworker.Orchestration.Launches.Quiet.{
  prepare-Unmoved, supervise-Unmoved, require-Unmoved, conclude-Unmoved, open_run-Unmoved,
}

-- A measure of the world that a launch of the agent raises by at most one, and the wait for a
-- launched agent does not raise: the number of launches, say.
pub record Counts {S : Type 0} (measure : S → ℕ) (agent : Agent S) : Type 0 where
  pub launch :
      (job : Job) (prompt : String) (s : S)
      → measure (agent.dispatch job prompt s).1 ≤ suc (measure s)
  pub wait :
      (job : Job) (prompt : String) (s : S) (handle : S → Result String JobResult × S)
      → (agent.dispatch job prompt s).0 ≡ ok handle
      → (t : S) → measure (handle t).1 ≤ measure t

module _ {S : Type 0} (measure : S → ℕ) where
  -- The step raises the measure by at most so much.
  unfoldable Spends : {A : Type 0} → ℕ → Flow S A → Type 0
  Spends n m = (w : World S) → measure (m w).1.outside ≤ n + measure w.outside

  Unmoved-Spends : {A : Type 0} (n : ℕ) (m : Flow S A) → Unmoved S m → Spends n m
  unfolding Unmoved Spends
  Unmoved-Spends n m h w = omega (arith, ap measure (h w))

  next-Spends :
      {A B : Type 0} (k : A → Flow S B) (i j : ℕ) (s : S) (o : Result Failure A × World S)
      → measure o.1.outside ≤ i + measure s
      → ((a : A) → o.0 ≡ ok a → measure (k a o.1).1.outside ≤ j + measure o.1.outside)
      → measure (next o k).1.outside ≤ (i + j) + measure s
  next-Spends k i j s (ok a, w) h p = omega (arith, h, p a refl)
  next-Spends k i j s (err x, w) h p = omega (arith, h)

  then-Spends :
      {A B : Type 0} (i j : ℕ) (m : Flow S A) (k : A → Flow S B)
      → Spends i m
      → ((a : A) → Spends j (k a))
      → Spends (i + j) (m >>= k)
  unfolding Spends
  then-Spends i j m k p q w = next-Spends k i j w.outside (m w) (p w) (λ a e. q a (m w).1)

  recovered-Spends :
      {A : Type 0} (f : Db → Outcome) (o : Result Failure A × World S)
      → measure (recovered f o).1.outside ≡ measure o.1.outside
  recovered-Spends f (ok a, w) = refl
  recovered-Spends f (err x, w) = refl

  on_error-Spends :
      {A : Type 0} (n : ℕ) (f : Db → Outcome) (m : Flow S A) → Spends n m → Spends n (on_error f m)
  unfolding Spends
  on_error-Spends n f m p w = omega (arith, recovered-Spends f (m w), p w)

  if-Spends :
      {A : Type 0} (n : ℕ) (b : Bool) (m k : Flow S A)
      → Spends n m
      → Spends n k
      → Spends n (if b then m else k)
  if-Spends n true m k p q = p
  if-Spends n false m k p q = q

  outside-measure :
      {A : Type 0} (x : String → Failure) (db : Db) (o : Result String A × S)
      → measure (outside_result x db o).1.outside ≡ measure o.1
  outside-measure x db (ok a, s) = refl
  outside-measure x db (err e, s) = refl

  -- A call of the agent that was recovered from and still has a value had it at first.
  recovered_ok :
      {A : Type 0} (f : Db → Outcome) (x : String → Failure) (db : Db) (o : Result String A × S)
      (a : A)
      → (recovered f (outside_result x db o)).0 ≡ ok a
      → o.0 ≡ ok a
  recovered_ok f x db (ok b, s) a h = cc
  recovered_ok f x db (err e, s) a h = absurd (cc)

  act-Spends :
      {A : Type 0} (x : String → Failure) (f : S → Result String A × S)
      → ((t : S) → measure (f t).1 ≤ measure t)
      → Spends 0 (act x f)
  unfolding Spends
  act-Spends x f h w = omega (arith, outside-measure x w.db (f w.outside), h w.outside)

  Spends-le : {A : Type 0} (i j : ℕ) (m : Flow S A) → i ≤ j → Spends i m → Spends j m
  unfolding Spends
  Spends-le i j m h p w = omega (arith, h, p w)

  quiet-Spends :
      {A B : Type 0} (j : ℕ) (m : Flow S A) (k : A → Flow S B)
      → Unmoved S m
      → ((a : A) → Spends j (k a))
      → Spends j (m >>= k)
  quiet-Spends j m k p q =
      Spends-le (0 + j) j (m >>= k) (omega arith) (then-Spends 0 j m k (Unmoved-Spends 0 m p) q)

  module _ (d : Dispatcher S) (role : Role) (counts : Counts measure (agent_for d role)) where
    launch-Spends :
        (c : AttemptCalls) (run_id prompt : String) (attempt : ℕ)
        → Spends 1 (launch d c run_id role (agent_for d role) prompt attempt)
    unfolding launch Spends
    launch-Spends c run_id prompt attempt w =
        let agent = agent_for d role in
        let job = new_job c run_id role attempt in
        let o = agent.dispatch job prompt w.outside in
        next-Spends (λ handle. on_error (fail_job c) (act wait_failed handle)) 1 0 w.outside
          (recovered (fail_job c) (outside_result dispatch_failed w.db o))
          (omega (
            arith,
            recovered-Spends (fail_job c) (outside_result dispatch_failed w.db o),
            outside-measure dispatch_failed w.db o,
            counts.launch job prompt w.outside,
          ))
          (λ handle e.
            on_error-Spends 0 (fail_job c) (act wait_failed handle)
              (act-Spends wait_failed handle (
                counts.wait job prompt w.outside handle
                  (recovered_ok (fail_job c) dispatch_failed w.db o handle e)))
              (recovered (fail_job c) (outside_result dispatch_failed w.db o)).1)

    execute-Spends :
        (c : AttemptCalls) (run_id prompt original : String) (attempt retries : ℕ)
        → Spends 1
            (execute_attempt d c run_id role (agent_for d role) prompt original attempt retries)
    unfolding execute_attempt
    execute-Spends c run_id prompt original attempt retries =
        let agent = agent_for d role in
        then-Spends 0 1 (prepare d c run_id role agent attempt) _
          (Unmoved-Spends 0 (prepare d c run_id role agent attempt)
            (prepare-Unmoved d c run_id role agent attempt))
          (λ _.
            then-Spends 1 0 (launch d c run_id role agent prompt attempt) _
              (launch-Spends c run_id prompt attempt)
              (λ result.
                Unmoved-Spends 0
                  (supervise d c run_id role original attempt retries result d.supervisor)
                  (supervise-Unmoved d c run_id role original attempt retries result d.supervisor)))

    module _ (calls : Calls) (input : DispatchInput) where
      attempt_once-Spends :
          (run_id original : String) (retries attempt : ℕ) (prompt : String)
          → Spends 1 (
              attempt_once d calls input role run_id
                (agent_for d role)
                original
                retries
                attempt
                prompt)
      unfolding attempt_once
      attempt_once-Spends run_id original retries attempt prompt =
          if-Spends 1 (calls.attempt attempt).done _ _
            (Unmoved-Spends 1 (reject context_done) (reject-Unmoved S AttemptResult context_done))
            (on_error-Spends 1 (close_failed d calls input role run_id) _
              (execute-Spends (calls.attempt attempt) run_id prompt original attempt retries))

      attempt_loop-Spends :
          (run_id original : String) (retries left attempt count : ℕ) (prompt : String)
          → Spends (1 + left) (
              attempt_loop d calls input role run_id
                (agent_for d role)
                original
                retries
                left
                attempt
                count
                prompt)
      unfolding attempt_loop
      attempt_loop-Spends run_id original retries zero attempt count prompt =
          then-Spends 1 0 _ _ (attempt_once-Spends run_id original retries attempt prompt)
            (λ r. Unmoved-Spends 0 (pure _) (pure-Unmoved S _))
      attempt_loop-Spends run_id original retries (suc left) attempt count prompt =
          then-Spends 1 (suc left) _ _ (attempt_once-Spends run_id original retries attempt prompt)
            (λ r.
              if-Spends (suc left) r.should_retry _ _
                (Spends-le (1 + left) (suc left) _ (omega arith) (
                  attempt_loop-Spends run_id original retries left (suc attempt) (suc count)
                    r.next_prompt))
                (Unmoved-Spends (suc left) (pure _) (pure-Unmoved S _)))

      run_attempts-Spends :
          (run_id prompt : String)
          → Spends (1 + max_retries d) (run_attempts d calls input role run_id prompt)
      unfolding run_attempts
      run_attempts-Spends run_id prompt =
          Spends-le ((1 + max_retries d) + 0) (1 + max_retries d) _ (omega arith) (
            then-Spends (1 + max_retries d) 0 _ _
              (attempt_loop-Spends run_id prompt (max_retries d) (max_retries d) 0 0 prompt)
              (λ last.
                Unmoved-Spends 0 (conclude d calls input role run_id last)
                  (conclude-Unmoved d calls input role run_id last)))

      with_role-Spends : Spends (1 + max_retries d) (do
        require d calls input role (missing role.required input.inputs)
        run_id ← Orchestration.open_run d calls input
        prompt ← lift render_failed (d.render_prompt role input.inputs)
        run_attempts d calls input role run_id prompt)
      with_role-Spends =
          quiet-Spends (1 + max_retries d)
            (require d calls input role (missing role.required input.inputs)) _
            (require-Unmoved d calls input role (missing role.required input.inputs))
            (λ _.
              quiet-Spends (1 + max_retries d) (Orchestration.open_run d calls input) _
                (open_run-Unmoved d calls input)
                (λ run_id.
                  quiet-Spends (1 + max_retries d)
                    (lift render_failed (d.render_prompt role input.inputs)) _
                    (lift-Unmoved S render_failed (d.render_prompt role input.inputs))
                    (λ prompt. run_attempts-Spends run_id prompt)))

      -- Where each launch of the role's agent raises a measure of its world by at most one and
      -- waiting for it does not raise it, a dispatch raises it by at most one more than the retries
      -- that it is allowed.
      pub launches_bounded :
          (w : World S)
          → d.load_role input.role_name ≡ ok role
          → measure (orchestrate d calls input w).1.outside
            ≤ (1 + max_retries d) + measure w.outside
      unfolding orchestrate Spends
      launches_bounded w loaded = rw loaded (with_role-Spends w)
