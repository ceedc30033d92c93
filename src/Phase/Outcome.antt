-- ===== src/Phase/Outcome.antt =====
-- How a phase ends.
use coworker.Prelude.{
  ℕ, ◌≤◌, String, ◌≡◌, ◌≢◌, ◌⊎◌, Bool, true, false, List, [], ◌∷◌, ◌++◌, length, Result, ok, err,
  All,
}
use coworker.Phase.Loop.{
  PhaseResult, Notice, phase_started, phase_completed, phase_failed, job_skipped, max_fix_cycles,
  PhaseExecutor, Orchestrator, exhausted, Run,
}

-- The notices of the cycles themselves.
abbrev pub is_skip : Notice → Bool
is_skip (job_skipped _) = true
is_skip _ = false

-- Only skipped roles are noted between two lists.
abbrev pub AddsSkips : List Notice → List Notice → Type 0
AddsSkips w w' = (more : List Notice) × All (λ n. is_skip n ≡ true) more × (w' ≡ w ++ more)

-- A phase that is over: clean within the budget, or dirty with the whole budget spent.
pub data Ends (e : PhaseExecutor) (r : PhaseResult) : List Notice → Type 0 where
  clean :
      (w : List Notice)
      → r.clean ≡ true
      → r.findings ≡ []
      → r.tests_passed ≡ true
      → r.fix_cycles ≤ max_fix_cycles e.limit
      → All (λ n. is_skip n ≡ true) w
      → Ends e r w
  dirty :
      (w : List Notice)
      → r.clean ≡ false
      → (r.findings ≢ []) ⊎ (r.tests_passed ≡ false)
      → r.fix_cycles ≡ max_fix_cycles e.limit
      → All (λ n. is_skip n ≡ true) w
      → Ends e r (w ++ exhausted e r.fix_cycles r.findings r.tests_passed)

AllSkips : List Notice → Type 0
AllSkips = All (λ (n : Notice). is_skip n ≡ true)

module _ {S : Type 0} (o : Orchestrator S) (e : PhaseExecutor) (i : ℕ) where
  -- What a run of the loop has written after the notices it started with.
  Finishes : List Notice → Run S PhaseResult → Type 0
  Finishes w (ok r, (s, v)) = (x : List Notice) × Ends e r x × (v ≡ w ++ x)
  Finishes w (err m, (s, v)) = AddsSkips w v

-- The notices of a whole phase, by its result.
abbrev pub Reported : PhaseExecutor → Result String PhaseResult → List Notice → Type 0
Reported e (ok r) w =
    (x : List Notice) × Ends e r x
    × (w
        ≡ phase_started
          ∷ (x ++ phase_completed r.fix_cycles r.clean (length r.findings) r.tests_passed ∷ []))
Reported e (err m) w =
    (x : List Notice) × All (λ n. is_skip n ≡ true) x
    × (w ≡ phase_started ∷ (x ++ phase_failed ∷ []))
