-- ===== src/Phase/Fanin.antt =====
-- coding/phaseloop/fanin.go: the results of the jobs of one cycle, merged, and its findings without
-- repetition. The fingerprint of a finding is a hash, which is an argument here.
use coworker.Prelude.{
  ℕ, zero, suc, String, Bool, true, false, not, Option, none, some, List, [], ◌∷◌, ◌++◌, ◌==◌,
  if◌then◌else◌, find, length,
}
use coworker.Core.Jobs.{Finding, Artifact}
use coworker.Manifest.Integers.{ℤ, pos, eqz}

pub record DispatchResult : Type 0 where
  pub run_id : String
  pub job_id : String
  pub findings : List Finding
  pub artifacts : List Artifact
  pub exit_code : ℤ

pub record AggregatedResults : Type 0 where
  pub findings : List Finding
  pub artifacts : List Artifact
  pub tests_passed : Bool

unfoldable pub aggregate_from : AggregatedResults → List DispatchResult → AggregatedResults
aggregate_from out [] = out
aggregate_from out (r ∷ results) =
    aggregate_from
      (record {
        findings = out.findings ++ r.findings;
        artifacts = out.artifacts ++ r.artifacts;
        tests_passed = if not (eqz r.exit_code (pos 0)) then false else out.tests_passed;
      })
      results

unfoldable pub aggregate_results : List DispatchResult → AggregatedResults
aggregate_results results =
    aggregate_from (record { findings = []; artifacts = []; tests_passed = true }) results

-- A `*group` of the map `seen`, with its key. The map has them in the order of `out`.
pub record Group : Type 0 where
  pub key : String
  pub idx : ℕ
  pub source_jobs : List String

-- `out[i].SourceJobIDs = jobs`.
unfoldable pub set_sources : ℕ → List String → List Finding → List Finding
set_sources i jobs [] = []
set_sources zero jobs (f ∷ out) = record f { source_job_ids = jobs } ∷ out
set_sources (suc i) jobs (f ∷ out) = f ∷ set_sources i jobs out

unfoldable pub set_jobs : String → List String → List Group → List Group
set_jobs key jobs [] = []
set_jobs key jobs (g ∷ seen) =
    (if g.key == key then record g { source_jobs = jobs } else g) ∷ set_jobs key jobs seen

module _ (compute_fingerprint : Finding → String) where
  unfoldable pub with_fingerprint : Finding → Finding
  with_fingerprint f =
      if f.fingerprint == "" then record f { fingerprint = compute_fingerprint f } else f

  abbrev pub own_job : Finding → List String
  own_job f = if not (f.job_id == "") then f.job_id ∷ [] else []

  -- One round of the loop, on a finding that has its fingerprint, with the group found for it.
  unfoldable pub dedupe_found :
      Finding → Option Group → List Finding → List Group → List Finding × List Group
  dedupe_found f (some g) out seen =
      if not (f.job_id == "")
      then (let jobs = g.source_jobs ++ f.job_id ∷ [] in
          (set_sources g.idx jobs out, set_jobs g.key jobs seen))
      else (out, seen)
  dedupe_found f none out seen = (
    out ++ record f { source_job_ids = own_job f } ∷ [],
    seen ++ record { key = f.fingerprint; idx = length out; source_jobs = own_job f } ∷ [],
  )

  unfoldable pub dedupe_step : Finding → List Finding × List Group → List Finding × List Group
  dedupe_step f (out, seen) = dedupe_found f (find (λ g. g.key == f.fingerprint) seen) out seen

  unfoldable pub dedupe_from : List Finding × List Group → List Finding → List Finding × List Group
  dedupe_from state [] = state
  dedupe_from state (f ∷ findings) = dedupe_from (dedupe_step (with_fingerprint f) state) findings

  unfoldable pub dedupe_findings : List Finding → List Finding
  dedupe_findings findings = (dedupe_from ([], []) findings).0
