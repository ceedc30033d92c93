-- ===== src/Supervisor/Predicates.antt =====
-- coding/supervisor/predicates.go: the predicates that a rule's check may name.
use coworker.Prelude.{
  String, Bool, true, false, not, Option, none, some, List, [], ◌∷◌, ◌==◌, if◌then◌else◌, Result,
  ok, err,
}
use coworker.Core.Jobs.{Finding, JobResult}
use coworker.Manifest.Integers.{ℤ, pos, eqz}

-- Of the job and the role, the predicates and the engine read these parts.
pub record EvalContext : Type 0 where
  pub result : Option JobResult
  pub role_name : Option String
  pub work_dir : String

-- fmt.Sscanf with "%d", regexp.Compile with MatchString, the two git commands, and the glob match
-- of internal/predicates on the files that git reports.
pub record Library : Type 0 where
  pub scan_int : String → Option ℤ
  pub compile : String → Option (String → Bool)
  pub git_current_branch : String → Result String String
  pub git_last_commit_msg : String → Result String String
  pub changes_touch_in_dir : String → List String → Result String Bool

-- Whether a finding has a value for a field; another field's name is an error.
unfoldable pub has_field : String → Finding → Result String Bool
has_field field f =
    if field == "path"
    then ok (not (f.path == ""))
    else if field == "line"
    then ok (not (eqz f.line (pos 0)))
    else if field == "severity"
    then ok (not (f.severity == ""))
    else if field == "body"
    then ok (not (f.body == ""))
    else err "unknown field"

-- `return false, nil` and `return false, err` end the loops.
abbrev pub go_on : Result String Bool → Result String Bool → Result String Bool
go_on (err x) rest = err x
go_on (ok false) rest = ok false
go_on (ok true) rest = rest

unfoldable pub has_fields : List String → Finding → Result String Bool
unfolding has_field
has_fields [] f = ok true
has_fields (field ∷ args) f = go_on (has_field field f) (has_fields args f)

unfoldable pub findings_have : List String → List Finding → Result String Bool
unfolding has_fields
findings_have args [] = ok true
findings_have args (f ∷ findings) = go_on (has_fields args f) (findings_have args findings)

unfoldable pub all_findings_have : EvalContext → List String → Result String Bool
unfolding findings_have
all_findings_have ctx [] = err "requires at least one field name"
all_findings_have ctx (a ∷ args) = elim ctx.result [
  | none ↦ err "no job result available"
  | some result ↦ findings_have (a ∷ args) result.findings
]

abbrev expect_code : Option ℤ → ℤ → Result String Bool
expect_code none code = err "invalid integer"
expect_code (some expected) code = ok (eqz code expected)

module _ (lib : Library) where
  unfoldable pub exit_code_is : EvalContext → List String → Result String Bool
  exit_code_is ctx (a ∷ []) = elim ctx.result [
    | none ↦ err "no job result available"
    | some result ↦ expect_code (lib.scan_int a) result.exit_code
  ]
  exit_code_is ctx [] = err "requires exactly one argument"
  exit_code_is ctx (_ ∷ _ ∷ _) = err "requires exactly one argument"

  abbrev match_output : Option (String → Bool) → Result String String → Result String Bool
  match_output none out = err "invalid regex"
  match_output (some re) (err x) = err x
  match_output (some re) (ok text) = ok (re text)

  unfoldable pub git_current_branch_matches : EvalContext → List String → Result String Bool
  git_current_branch_matches ctx (pattern ∷ []) =
      match_output (lib.compile pattern) (lib.git_current_branch ctx.work_dir)
  git_current_branch_matches ctx [] = err "requires exactly one argument"
  git_current_branch_matches ctx (_ ∷ _ ∷ _) = err "requires exactly one argument"

  unfoldable pub last_commit_msg_contains : EvalContext → List String → Result String Bool
  last_commit_msg_contains ctx (pattern ∷ []) =
      match_output (lib.compile pattern) (lib.git_last_commit_msg ctx.work_dir)
  last_commit_msg_contains ctx [] = err "requires exactly one argument"
  last_commit_msg_contains ctx (_ ∷ _ ∷ _) = err "requires exactly one argument"

  unfoldable pub changes_touch : EvalContext → List String → Result String Bool
  changes_touch ctx [] = err "requires at least one glob pattern"
  changes_touch ctx (g ∷ globs) = lib.changes_touch_in_dir ctx.work_dir (g ∷ globs)

  -- The map `predicateRegistry`.
  unfoldable pub lookup_predicate : String → Option (EvalContext → List String → Result String Bool)
  unfolding all_findings_have exit_code_is git_current_branch_matches last_commit_msg_contains
      changes_touch
  lookup_predicate name =
      if name == "all_findings_have"
      then some all_findings_have
      else if name == "exit_code_is"
      then some exit_code_is
      else if name == "git_current_branch_matches"
      then some git_current_branch_matches
      else if name == "last_commit_msg_contains"
      then some last_commit_msg_contains
      else if name == "changes_touch"
      then some changes_touch
      else none
