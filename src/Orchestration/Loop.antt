-- ===== src/Orchestration/Loop.antt =====
-- The loop over the attempts in Orchestrate of coding/dispatch.go, and the findings of the last one.
use Prim.Native.Char.{code}
use coworker.Prelude.{
  ℕ, zero, suc, String, Bool, true, false, ◌&&◌, Option, none, some, List, [], ◌∷◌, ◌==◌, eqb, find,
  if◌then◌else◌, ok,
}
use coworker.Manifest.Integers.{ℤ}
use coworker.Core.Jobs.{Finding, JobResult}
use coworker.Supervisor.{SupervisorVerdict}
use coworker.Store.Schema.{Db, Outcome}
use coworker.Store.Runs.{complete_run}
use coworker.Store.Findings.{fingerprinted, insert_finding}
use coworker.Orchestration.Effects.{
  Role, Agent, Dispatcher, DispatchInput, Calls, context_done, Flow, pure, tried, on_error, ◌>>=◌,
  ◌>>◌,
}
use coworker.Orchestration.Permission.{reject}
use coworker.Orchestration.Attempt.{AttemptResult, execute_attempt}
use coworker.Core.Jobs

-- The variables of Orchestrate after the loop.
pub record Finished : Type 0 where
  pub job_id : String
  pub result : JobResult
  pub verdict : Option SupervisorVerdict
  pub retry_count : ℕ

abbrev pub finished : ℕ → AttemptResult → Finished
finished retry_count r = record {
  job_id = r.job_id;
  result = r.result;
  verdict = r.verdict;
  retry_count = retry_count;
}

-- `strings.HasPrefix`.
unfoldable pub has_prefix : String → String → Bool
has_prefix String.[] s = true
has_prefix (String.◌∷◌ c p) String.[] = false
has_prefix (String.◌∷◌ c p) (String.◌∷◌ e s) =
    let rest = has_prefix p s in if eqb (code c) (code e) then rest else false

abbrev value_or_empty : Option (String × String) → String
value_or_empty none = ""
value_or_empty (some (key, value)) = value

unfoldable pub input_value : String → List (String × String) → String
input_value key inputs = value_or_empty (find (λ entry. entry.0 == key) inputs)

abbrev index_of : (String → Option ℤ) → Option (String × String) → Option ℤ
index_of atoi none = none
index_of atoi (some (key, value)) = atoi value

abbrev or_else : Option ℤ → Option ℤ → Option ℤ
or_else none j = j
or_else (some i) j = some i

module _ {S : Type 0} (d : Dispatcher S) (calls : Calls) (input : DispatchInput) (role : Role)
    (run_id : String) where
  -- A finding with the ids of its run and job, and the plan, phase and reviewer that it lacks.
  unfoldable pub attributed : String → String → Finding → Finding
  unfolding input_value has_prefix
  attributed job_id fresh_id f = record f {
    run_id = run_id;
    job_id = job_id;
    id = if f.id == "" then fresh_id else f.id;
    plan_id = if f.plan_id == "" then input_value "plan_id" input.inputs else f.plan_id;
    phase_index =
        or_else f.phase_index
          (index_of d.atoi (find (λ entry. entry.0 == "phase_index") input.inputs));
    reviewer_handle =
        if f.reviewer_handle == "" && has_prefix "reviewer." role.name
        then role.name
        else f.reviewer_handle;
  }

  -- An insert that fails is logged. The findings are those that the result is returned with.
  unfoldable pub persist_findings : String → ℕ → List Finding → Flow S (List Finding)
  unfolding attributed
  persist_findings job_id n [] = pure []
  persist_findings job_id n (f ∷ findings) = do
    let c = calls.finding n
    let f' = attributed job_id (calls.finding_id n) f
    tried (insert_finding d.fingerprint c.faults c.now c.event_id f')
    rest ← persist_findings job_id (suc n) findings
    pure (fingerprinted d.fingerprint f' ∷ rest)

  -- A run that was made here is marked failed after the error of an attempt.
  unfoldable pub close_failed : Db → Outcome
  close_failed db =
      if input.run_id == ""
      then complete_run calls.close.faults calls.close.now calls.close.event_id run_id
          Jobs.RunState.failed db
      else (ok tt, db)

  -- One round of the loop.
  unfoldable pub attempt_once : Agent S → String → ℕ → ℕ → String → Flow S AttemptResult
  unfolding execute_attempt close_failed
  attempt_once agent original_prompt max_retries attempt prompt =
      let c = calls.attempt attempt in
      if c.done
      then reject context_done
      else on_error close_failed
          (execute_attempt d c run_id role agent prompt original_prompt attempt max_retries)

  abbrev pub retry_or_break : ℕ → AttemptResult → (String → Flow S Finished) → Flow S Finished
  retry_or_break retry_count r again =
      if r.should_retry then again r.next_prompt else pure (finished retry_count r)

  abbrev pub last_round : ℕ → AttemptResult → Finished
  last_round retry_count r = finished (if r.should_retry then suc retry_count else retry_count) r

  -- `for attempt := 0; attempt <= maxRetries; attempt++`, with the number of rounds that may follow.
  unfoldable pub attempt_loop : Agent S → String → ℕ → ℕ → ℕ → ℕ → String → Flow S Finished
  unfolding attempt_once
  attempt_loop agent original_prompt max_retries zero attempt retry_count prompt = do
    r ← attempt_once agent original_prompt max_retries attempt prompt
    pure (last_round retry_count r)
  attempt_loop agent original_prompt max_retries (suc left) attempt retry_count prompt = do
    r ← attempt_once agent original_prompt max_retries attempt prompt
    retry_or_break retry_count r (λ next.
        attempt_loop agent original_prompt max_retries left (suc attempt) (suc retry_count) next)
