-- ===== src/Phase/Loop.antt =====
-- coding/phaseloop/executor.go and coding/phaseloop/fixloop.go: Execute, runLoop and fanOut. The jobs
-- of a fan-out are run in the order of the roles, which is one of their interleavings. The inputs
-- of a job are left out but for the findings of which BuildFindingFeedback makes the text for the
-- developer.
use coworker.Prelude.{
  ℕ, zero, suc, String, Bool, true, false, ◌&&◌, Option, none, some, List, [], ◌∷◌, ◌++◌, ◌==◌, eqb,
  if◌then◌else◌, length, Result, ok, err,
}
use coworker.Manifest.Integers.{ℤ, pos, negsuc}
use coworker.Core.Jobs.{Finding, Artifact}
use coworker.Phase.Fanin.{DispatchResult, AggregatedResults, aggregate_results, dedupe_findings}
use coworker.Phase.Roles.{RoleFilter, skips, roles_or, default_reviewer_roles, default_tester_roles}

pub record PhaseResult : Type 0 where
  pub findings : List Finding
  pub artifacts : List Artifact
  pub tests_passed : Bool
  pub fix_cycles : ℕ
  pub clean : Bool

-- What the executor writes besides the jobs: the events of a phase with the numbers of their
-- payload, a skipped role, and the item and the row of an exhausted phase. An event that cannot be
-- written is logged, and the phase goes on.
pub data Notice : Type 0 where
  phase_started : Notice
  phase_completed :
      (fix_cycles : ℕ) → (clean : Bool) → (findings : ℕ) → (tests_passed : Bool) → Notice
  phase_failed : Notice
  phase_clean : (fix_cycles findings : ℕ) → (tests_passed : Bool) → Notice
  job_skipped : String → Notice
  attention : (fix_cycles findings : ℕ) → Notice
  checkpoint_row : Notice

-- `Policy.SupervisorLimits.MaxFixCyclesPerPhase`, where a policy is set.
abbrev pub default_max_fix_cycles : ℕ
default_max_fix_cycles = 5

unfoldable pub max_fix_cycles : Option ℤ → ℕ
max_fix_cycles none = default_max_fix_cycles
max_fix_cycles (some (pos n)) = if eqb n 0 then default_max_fix_cycles else n
max_fix_cycles (some (negsuc n)) = default_max_fix_cycles

pub record PhaseExecutor : Type 0 where
  pub limit : Option ℤ
  pub developer_role : String
  pub reviewer_roles : Option (List String)
  pub tester_roles : Option (List String)
  pub filter : RoleFilter
  pub compute_fingerprint : Finding → String
  -- Whether AttentionStore is set, whether its insert succeeds, and whether CheckpointWriter is set.
  pub attention_store : Bool
  pub attention_ok : Bool
  pub checkpoint_writer : Bool

-- The interface Orchestrator: a job of a role, on the state of the world outside.
pub record Orchestrator (S : Type 0) : Type 0 where
  pub orchestrate : String → List Finding → S → Result String DispatchResult × S

abbrev pub empty_result : DispatchResult
empty_result = record { run_id = ""; job_id = ""; findings = []; artifacts = []; exit_code = pos 0 }

abbrev pub developer : PhaseExecutor → String
developer e = if e.developer_role == "" then "developer" else e.developer_role

-- The notices of an exhausted fix loop.
unfoldable pub exhausted : PhaseExecutor → ℕ → List Finding → Bool → List Notice
exhausted e fix_cycles deduped tests_passed =
    phase_clean fix_cycles (length deduped) tests_passed
    ∷ (if e.attention_store && e.attention_ok
        then attention (max_fix_cycles e.limit) (length deduped)
          ∷ (if e.checkpoint_writer then checkpoint_row ∷ [] else [])
        else [])

-- What a run has made of the world and written so far.
abbrev pub Run : Type 0 → Type 0 → Type 0
Run S A = Result String A × (S × List Notice)

module _ {S : Type 0} (o : Orchestrator S) (e : PhaseExecutor) (phase_index : ℕ) where
  abbrev pub then_do : {A B : Type 0} → Run S A → (A → S → List Notice → Run S B) → Run S B
  then_do (ok a, (s, written)) rest = rest a s written
  then_do (err x, out) rest = (err x, out)

  abbrev pub job : String → List Finding → S → List Notice → Run S DispatchResult
  job role feedback s written = let (r, s') = o.orchestrate role feedback s in (r, (s', written))

  unfoldable pub fan_out : List String → S → List Notice → Run S (List DispatchResult)
  fan_out [] s written = (ok [], (s, written))
  fan_out (role ∷ roles) s written =
      if skips e.filter phase_index role
      then then_do (fan_out roles s (written ++ job_skipped role ∷ []))
          (λ rs s' w. (ok (empty_result ∷ rs), (s', w)))
      else then_do (job role [] s written)
          (λ r s' w. then_do (fan_out roles s' w) (λ rs s'' w'. (ok (r ∷ rs), (s'', w'))))

  abbrev pub role_names : List String
  role_names =
      roles_or default_reviewer_roles e.reviewer_roles
      ++ roles_or default_tester_roles e.tester_roles

  -- The developer's job and the fan-out of one cycle, merged.
  unfoldable pub cycle : List Finding → S → List Notice → Run S AggregatedResults
  unfolding fan_out
  cycle feedback s written = then_do (job (developer e) feedback s written) (λ dev s' w.
      then_do (fan_out role_names s' w)
        (λ rs s'' w'. (ok (aggregate_results (dev ∷ rs)), (s'', w'))))

  abbrev pub outcome : AggregatedResults → List Finding → ℕ → Bool → PhaseResult
  outcome agg deduped fix_cycles clean = record {
    findings = deduped;
    artifacts = agg.artifacts;
    tests_passed = agg.tests_passed;
    fix_cycles = fix_cycles;
    clean = clean;
  }

  abbrev pub deduped : AggregatedResults → List Finding
  deduped agg = dedupe_findings e.compute_fingerprint agg.findings

  -- The check for a clean cycle, and what comes after one that is not.
  abbrev pub checked :
      ℕ → Run S PhaseResult → AggregatedResults → S → List Notice → Run S PhaseResult
  checked fix_cycles rest agg s written =
      if eqb (length (deduped agg)) 0 && agg.tests_passed
      then (ok (outcome agg (deduped agg) fix_cycles true), (s, written))
      else rest

  -- The rounds of the loop, where `left` is the number of fix cycles that are left of the budget: 0
  -- where the code has `fixCycles >= maxCycles`.
  unfoldable pub run_loop : ℕ → ℕ → List Finding → S → List Notice → Run S PhaseResult
  unfolding cycle exhausted
  run_loop zero fix_cycles feedback s written = then_do (cycle feedback s written) (λ agg s' w.
      checked fix_cycles
        (
          ok (outcome agg (deduped agg) fix_cycles false),
          (s', w ++ exhausted e fix_cycles (deduped agg) agg.tests_passed),
        )
        agg s' w)
  run_loop (suc left) fix_cycles feedback s written =
      then_do (cycle feedback s written) (λ agg s' w.
        checked fix_cycles (run_loop left (suc fix_cycles) (deduped agg) s' w) agg s' w)

  -- The last event of a phase.
  unfoldable pub ended : Run S PhaseResult → Run S PhaseResult
  ended (ok r, (s, written)) = (
    ok r,
    (s, written ++ phase_completed r.fix_cycles r.clean (length r.findings) r.tests_passed ∷ []),
  )
  ended (err x, (s, written)) = (err x, (s, written ++ phase_failed ∷ []))

  unfoldable pub execute : S → Run S PhaseResult
  unfolding run_loop ended
  execute s = ended (run_loop (max_fix_cycles e.limit) 0 [] s (phase_started ∷ []))
