-- ===== src/Orchestration/Feedback.antt =====
-- buildRetryFeedback of coding/dispatch.go: the rules that a job broke, as a text for the next
-- attempt.
use Prim.Native.String.{String, ◌++◌}
use coworker.Prelude.{ℕ, suc, List, [], ◌∷◌}
use coworker.Supervisor.{SupervisorVerdict, failed_messages}

-- `fmt.Fprintf(&sb, "  %d. %s\n", i+1, msg)`, where `itoa` writes a number.
unfoldable pub numbered : (ℕ → String) → ℕ → List String → String
numbered itoa n [] = ""
numbered itoa n (msg ∷ msgs) =
    "  " ++ (itoa (suc n) ++ (". " ++ (msg ++ ("\n" ++ numbered itoa (suc n) msgs))))

unfoldable pub build_retry_feedback : (ℕ → String) → SupervisorVerdict → String
unfolding numbered
build_retry_feedback itoa verdict =
    "SUPERVISOR FEEDBACK: The following contract rules were violated:\n"
    ++ (numbered itoa 0 (failed_messages verdict) ++ "Please fix these issues and try again.")
