-- ===== src/Tests/Contracts.antt =====
-- The theorems on permissions, on the supervisor's rules and on the stores of jobs, findings and
-- questions, at small inputs.
use Prim.Native.String
use coworker.Prelude.{
  String, ◌≡◌, ◌↔◌, ◌⊎◌, refl, Bool, true, false, ◌&&◌, not, Option, none, some, List, [], ◌∷◌,
  ◌==◌, ok, All, map, select,
}
use coworker.Manifest.Integers.{pos}
use coworker.Core.Jobs.{JobState, JobResult, Finding}
use coworker.Store.Schema.{
  Db, JobRow, FindingRow, AttentionRow, no_faults, finding_key, attention_key,
}
use coworker.Store.Rows.{row}
use coworker.Store.Jobs.{update_job_state}
use coworker.Store.Findings.{finding_row, scan_finding, scan-finding_row, unresolved}
use coworker.Store.Attention.{answer_attention, unanswered, answer_attention_lem}
use coworker.Store.History.{fresh, history, Operation, resolve}
use coworker.Store.History.Immutable.Operations.{findings_immutable}
use coworker.Permissions.{
  Permission, RolePermissions, parse_permission, parse_permissions, match_permission, matches_any,
  evaluate_action,
}
use coworker.Permissions.RoundTrip.{
  IsPermission, permission_text, parse_permission-text, parse_permission-IsPermission,
}
use coworker.Permissions.Lists.{ParsedTo, parse_permissions-ParsedTo}
use coworker.Permissions.Evaluate.{Decides, evaluate_action-Decides}
use coworker.Supervisor.{
  Engine, Rule, RuleResult, SupervisorVerdict, rules_for_role, failed_messages, evaluate,
}
use coworker.Supervisor.Verdicts.{evaluate_lem}
use coworker.Supervisor.Predicates.{EvalContext, Library, all_findings_have}
use coworker.Supervisor.Fields.{Has, all_findings_have_iff}
use coworker.Tests.Phases.{reported_by}
use coworker.Tests.Samples.{a_run, sample_order}

abbrev git : Permission
git = record { kind = "bash"; subject = "git"; raw = "bash:git" }

git_fits : IsPermission "bash" "git"
unfolding IsPermission coworker.Permissions.holds coworker.Permissions.has_colon
git_fits = (refl, refl, refl)

parse_permission-text_example :
    parse_permission (permission_text "bash" "git")
    ≡ ok (record { kind = "bash"; subject = "git"; raw = permission_text "bash" "git" })
parse_permission-text_example = parse_permission-text "bash" "git" git_fits

git_parsed : parse_permission "bash:git" ≡ ok git
unfolding parse_permission coworker.Permissions.holds coworker.Permissions.has_colon
git_parsed = refl

parse_permission-IsPermission_example :
    (git.raw ≡ "bash:git")
    × IsPermission git.kind git.subject
    × (("bash:git" ≡ permission_text git.kind git.subject)
        ⊎ ((git.subject ≡ "") × ("bash:git" ≡ String.◌++◌ git.kind ":")))
parse_permission-IsPermission_example = parse_permission-IsPermission "bash:git" git git_parsed

parse_permissions-ParsedTo_example :
    parse_permissions ("bash:git" ∷ []) ≡ ok (git ∷ []) ↔ ParsedTo ("bash:git" ∷ []) (git ∷ [])
parse_permissions-ParsedTo_example = parse_permissions-ParsedTo ("bash:git" ∷ []) (git ∷ [])

abbrev same_text : String → String → Bool
same_text a b = a == b

abbrev cautious : RolePermissions
cautious = record {
  allowed_tools = "bash:*" ∷ [];
  never = "network" ∷ [];
  requires_human = "bash:git" ∷ [];
}

evaluate_action-Decides_example :
    Decides same_text cautious git (evaluate_action same_text cautious git)
evaluate_action-Decides_example = evaluate_action-Decides same_text cautious git

abbrev library : Library
library = record {
  scan_int = λ s. some (pos 0);
  compile = λ s. none;
  git_current_branch = λ dir. ok "main";
  git_last_commit_msg = λ dir. ok "fix";
  changes_touch_in_dir = λ dir globs. ok false;
}

abbrev rule : String → Option (List String) → Rule
rule name clause = record {
  name = name;
  applies_to = "developer" ∷ [];
  applies_when = clause;
  check = "exit_code_is(0)";
  message = "exits with 0";
}

abbrev engine : Engine
engine = record {
  rules = rule "clean" none ∷ rule "web" (some ("web/**" ∷ [])) ∷ [];
  library = library;
  parse_check = λ check. ok ("exit_code_is", "0" ∷ []);
  role_glob_matches = λ p role. p == role;
  sprintf = λ why. "error";
}

abbrev job_result : JobResult
job_result = record { findings = reported_by "j" "leak" ∷ []; artifacts = []; exit_code = pos 1 }

abbrev context : EvalContext
context = record { result = some job_result; role_name = some "developer"; work_dir = "" }

evaluate_lem_example :
    (v : SupervisorVerdict) × (evaluate engine context ≡ ok v)
    × (map (λ (r : RuleResult). r.rule_name) v.results
        ≡ map (λ (r : Rule). r.name) (rules_for_role engine "developer"))
    × ((v.pass ≡ true) ↔ (failed_messages v ≡ []))
evaluate_lem_example = evaluate_lem engine context "developer" refl

all_findings_have_iff_example :
    (all_findings_have context ("path" ∷ "line" ∷ []) ≡ ok true)
    ↔ All (λ f. All (Has f) ("path" ∷ "line" ∷ [])) job_result.findings
all_findings_have_iff_example = all_findings_have_iff context job_result "path" ("line" ∷ []) refl

abbrev planned : Finding
planned = record (reported_by "j" "leak") { plan_id = "7"; phase_index = some (pos 0) }

scan-finding_row_example :
    scan_finding (finding_row planned)
    ≡ record planned { resolved_by_job_id = ""; resolved_at = none; source_job_ids = [] }
scan-finding_row_example = scan-finding_row planned (pos 0) refl refl

abbrev job : JobRow
job = record {
  id = "j";
  run_id = "run";
  role = "developer";
  state = JobState.dispatched;
  dispatched_by = "user";
  cli = "codex";
  started_at = 1;
  ended_at = none;
  plan_id = "";
  phase_index = pos 0;
}

abbrev leak : FindingRow
leak = record {
  id = "f";
  run_id = "run";
  job_id = "j";
  path = "main.go";
  line = pos 1;
  severity = "minor";
  body = "leak";
  fingerprint = "leak";
  resolved_by_job_id = none;
  resolved_at = none;
  plan_id = "";
  phase_index = pos 0;
  reviewer_handle = "";
}

abbrev question : AttentionRow
question = record {
  id = "q";
  run_id = "run";
  kind = "permission";
  source = "dispatch";
  job_id = "";
  question = "may it?";
  options = [];
  presented_on = [];
  answered_on = [];
  answered_by = none;
  answer = none;
  created_at = 1;
  resolved_at = none;
}

abbrev reviewed : Db
reviewed = record (fresh (a_run "run" ∷ []) none) {
  jobs = job ∷ [];
  findings = leak ∷ [];
  attention = question ∷ [];
}

abbrev fixes : List Operation
fixes =
    resolve no_faults 2_000_000_000 "e1" "f" "j" ∷ resolve no_faults 3_000_000_000 "e2" "f" "k" ∷ []

findings_immutable_example :
    (s : FindingRow) × (row finding_key "f" (history sample_order fixes reviewed).findings ≡ some s)
    × (s ≡ record leak { resolved_by_job_id = s.resolved_by_job_id; resolved_at = s.resolved_at })
    × (unresolved leak ≡ false → s ≡ leak)
findings_immutable_example = findings_immutable sample_order fixes reviewed "f" leak refl

abbrev moved_db : Db
moved_db = (update_job_state no_faults 2_000_000_000 "e" "j" JobState.complete reviewed).1

abbrev answered_db : Db
answered_db = (answer_attention no_faults "q" "approve" "tui" reviewed).1

question_answered : answer_attention no_faults "q" "approve" "tui" reviewed ≡ (ok tt, answered_db)
unfolding answer_attention
question_answered = refl

answer_attention_lem_example :
    select (unanswered "run") answered_db.attention
    ≡ select (λ r. unanswered "run" r && not (attention_key r == "q")) reviewed.attention
answer_attention_lem_example =
    answer_attention_lem no_faults "run" "q" "approve" "tui" reviewed answered_db question_answered
