-- ===== src/Supervisor.antt =====
-- coding/supervisor/engine.go, core/supervisor.go and RulesForRole of coding/supervisor/loader.go:
-- the contract rules of a role, evaluated on the result of a job.
pub mod Predicates
pub mod Verdicts
pub mod Fields
use coworker.Prelude.{
  String, Bool, true, false, not, ◌&&◌, Option, none, some, List, [], ◌∷◌, ◌++◌, map, any, select,
  if◌then◌else◌, Result, ok, err,
}
use coworker.Supervisor.Predicates.{EvalContext, Library, lookup_predicate}

pub record RuleResult : Type 0 where
  pub rule_name : String
  pub passed : Bool
  pub skipped : Bool
  pub message : String

pub record SupervisorVerdict : Type 0 where
  pub pass : Bool
  pub results : List RuleResult

unfoldable pub is_failed : RuleResult → Bool
is_failed r = not r.passed && not r.skipped

unfoldable pub failed_messages : SupervisorVerdict → List String
unfolding is_failed
failed_messages v = map (λ (r : RuleResult). r.message) (select is_failed v.results)

unfoldable pub skipped_rule_names : SupervisorVerdict → List String
skipped_rule_names v =
    map (λ (r : RuleResult). r.rule_name) (select (λ (r : RuleResult). r.skipped) v.results)

-- The clause's only key is a list of globs.
pub record Rule : Type 0 where
  pub name : String
  pub applies_to : List String
  pub applies_when : Option (List String)
  pub check : String
  pub message : String

-- Why a rule could not be evaluated. The message that fmt.Sprintf makes of it is the library's.
pub data Failure : Type 0 where
  applies_when_error : String → Failure
  unparsable_check : String → String → Failure
  unknown_predicate : String → String → Failure
  predicate_error : String → String → Failure

-- What the engine calls: ParseCheck, the anchored patterns of `applies_to`, which regexp compiles,
-- and fmt.Sprintf.
pub record Engine : Type 0 where
  pub rules : List Rule
  pub library : Library
  pub parse_check : String → Result String (String × List String)
  pub role_glob_matches : String → String → Bool
  pub sprintf : Failure → String

unfoldable pub rules_for_role : Engine → String → List Rule
rules_for_role e role_name =
    select (λ (r : Rule). any (λ p. e.role_glob_matches p role_name) r.applies_to) e.rules

-- `verdict.Results = append(verdict.Results, ...)`.
abbrev append_result : RuleResult → SupervisorVerdict → SupervisorVerdict
append_result r v = record v { results = v.results ++ r ∷ [] }

abbrev reject : SupervisorVerdict → SupervisorVerdict
reject v = record v { pass = false }

-- The branches of the loop that end in `continue` after an error.
unfoldable pub fail_rule : Engine → Rule → Failure → SupervisorVerdict → SupervisorVerdict
fail_rule e r why v =
    append_result
      (record { rule_name = r.name; passed = false; skipped = false; message = e.sprintf why })
      (reject v)

unfoldable pub skip_rule : Rule → SupervisorVerdict → SupervisorVerdict
skip_rule r v =
    append_result
      (record { rule_name = r.name; passed = true; skipped = true; message = r.message }) v

unfoldable pub record_rule : Rule → Bool → SupervisorVerdict → SupervisorVerdict
record_rule r passed v =
    append_result
      (record { rule_name = r.name; passed = passed; skipped = false; message = r.message })
      (if not passed then reject v else v)

-- `predFn(ctx, args)` and what follows.
unfoldable pub run_predicate :
    Engine → Rule → String → Result String Bool → SupervisorVerdict → SupervisorVerdict
unfolding fail_rule record_rule
run_predicate e r name (ok passed) v = record_rule r passed v
run_predicate e r name (err x) v = fail_rule e r (predicate_error name x) v

-- `LookupPredicate(funcName)` and what follows.
unfoldable pub check_with :
    Engine
    → EvalContext
    → Rule
    → String
    → List String
    → Option (EvalContext → List String → Result String Bool)
    → SupervisorVerdict
    → SupervisorVerdict
unfolding run_predicate
check_with e ctx r name args none v = fail_rule e r (unknown_predicate name r.name) v
check_with e ctx r name args (some predicate) v = run_predicate e r name (predicate ctx args) v

unfoldable pub check_rule :
    Engine
    → EvalContext
    → Rule
    → Result String (String × List String)
    → SupervisorVerdict
    → SupervisorVerdict
unfolding check_with
check_rule e ctx r (ok (name, args)) v =
    check_with e ctx r name args (lookup_predicate e.library name) v
check_rule e ctx r (err x) v = fail_rule e r (unparsable_check r.check x) v

-- A clause with no glob is unconditional.
unfoldable pub eval_applies_when : Engine → EvalContext → List String → Result String Bool
eval_applies_when e ctx [] = ok true
eval_applies_when e ctx (g ∷ globs) = e.library.changes_touch_in_dir ctx.work_dir (g ∷ globs)

unfoldable pub apply_rule :
    Engine → EvalContext → Rule → Result String Bool → SupervisorVerdict → SupervisorVerdict
unfolding check_rule skip_rule
apply_rule e ctx r (err x) v = fail_rule e r (applies_when_error x) v
apply_rule e ctx r (ok false) v = skip_rule r v
apply_rule e ctx r (ok true) v = check_rule e ctx r (e.parse_check r.check) v

abbrev applies : Engine → EvalContext → Option (List String) → Result String Bool
applies e ctx none = ok true
applies e ctx (some globs) = eval_applies_when e ctx globs

-- One round of the loop of Evaluate.
unfoldable pub evaluate_rule : Engine → EvalContext → Rule → SupervisorVerdict → SupervisorVerdict
unfolding apply_rule eval_applies_when
evaluate_rule e ctx r v = apply_rule e ctx r (applies e ctx r.applies_when) v

unfoldable pub evaluate_rules :
    Engine → EvalContext → List Rule → SupervisorVerdict → SupervisorVerdict
unfolding evaluate_rule
evaluate_rules e ctx [] v = v
evaluate_rules e ctx (r ∷ rules) v = evaluate_rules e ctx rules (evaluate_rule e ctx r v)

abbrev pub passing : SupervisorVerdict
passing = record { pass = true; results = [] }

-- With no rule for the role the verdict passes at once.
unfoldable pub verdict_of : Engine → EvalContext → List Rule → SupervisorVerdict
unfolding evaluate_rules
verdict_of e ctx [] = passing
verdict_of e ctx (r ∷ rules) = evaluate_rules e ctx (r ∷ rules) passing

abbrev pub evaluate_for : Engine → EvalContext → Option String → Result String SupervisorVerdict
evaluate_for e ctx none = err "EvalContext.Role must not be nil"
evaluate_for e ctx (some role_name) = ok (verdict_of e ctx (rules_for_role e role_name))

unfoldable pub evaluate : Engine → EvalContext → Result String SupervisorVerdict
unfolding rules_for_role verdict_of
evaluate e ctx = evaluate_for e ctx ctx.role_name
