-- ===== src/Supervisor/Verdicts.antt =====
-- What the verdict of Evaluate says: every rule of the role has one result, and the verdict passes
-- if and only if none of them failed.
use mathlib.Core.List.{append_assoc, append-nil, map-append}
use coworker.Prelude.{
  String, ◌≡◌, refl, sym, ap, ◌∙◌, Bool, true, false, not, ◌&&◌, Option, none, some, List, [], ◌∷◌,
  ◌++◌, map, select, select-append, if◌then◌else◌, Result, ok, err, arith, ◌↔◌, Bool-cases, inl,
  inr,
}
use coworker.Supervisor.Predicates.{EvalContext, lookup_predicate}
use coworker.Supervisor.{
  RuleResult, SupervisorVerdict, Rule, Engine, Failure, is_failed, failed_messages, fail_rule,
  skip_rule, record_rule, run_predicate, check_with, check_rule, apply_rule, applies, evaluate_rule,
  evaluate_rules, rules_for_role, verdict_of, passing, evaluate,
}

rule_names : SupervisorVerdict → List String
rule_names v = map (λ (r : RuleResult). r.rule_name) v.results

-- One more result, with the rule's name, and the verdict is rejected if that result failed.
record Extends (r : Rule) (v w : SupervisorVerdict) : Type 0 where
  result : RuleResult
  appended : w.results ≡ v.results ++ result ∷ []
  named : result.rule_name ≡ r.name
  counted : w.pass ≡ (v.pass && not (is_failed result))

module _ (e : Engine) (ctx : EvalContext) (r : Rule) where
  fail_rule-Extends : (why : Failure) (v : SupervisorVerdict) → Extends r v (fail_rule e r why v)
  unfolding fail_rule is_failed
  fail_rule-Extends why v = record {
    result = record {
      rule_name = r.name;
      passed = false;
      skipped = false;
      message = e.sprintf why;
    };
    appended = refl;
    named = refl;
    counted = ground arith;
  }

  record_rule-Extends :
      (passed : Bool) (v : SupervisorVerdict) → Extends r v (record_rule r passed v)
  unfolding record_rule is_failed
  record_rule-Extends passed v = record {
    result = record { rule_name = r.name; passed = passed; skipped = false; message = r.message };
    appended = ground arith;
    named = refl;
    counted = ground arith;
  }

  skip_rule-Extends : (v : SupervisorVerdict) → Extends r v (skip_rule r v)
  unfolding skip_rule is_failed
  skip_rule-Extends v = record {
    result = record { rule_name = r.name; passed = true; skipped = true; message = r.message };
    appended = refl;
    named = refl;
    counted = ground arith;
  }

  run_predicate-Extends :
      (name : String) (m : Result String Bool) (v : SupervisorVerdict)
      → Extends r v (run_predicate e r name m v)
  unfolding run_predicate
  run_predicate-Extends name (ok passed) v = record_rule-Extends passed v
  run_predicate-Extends name (err x) v = fail_rule-Extends _ v

  check_with-Extends :
      (name : String) (args : List String)
      (o : Option (EvalContext → List String → Result String Bool)) (v : SupervisorVerdict)
      → Extends r v (check_with e ctx r name args o v)
  unfolding check_with
  check_with-Extends name args none v = fail_rule-Extends _ v
  check_with-Extends name args (some p) v = run_predicate-Extends name (p ctx args) v

  check_rule-Extends :
      (m : Result String (String × List String)) (v : SupervisorVerdict)
      → Extends r v (check_rule e ctx r m v)
  unfolding check_rule
  check_rule-Extends (ok (name, args)) v =
      check_with-Extends name args (lookup_predicate e.library name) v
  check_rule-Extends (err x) v = fail_rule-Extends _ v

  apply_rule-Extends :
      (m : Result String Bool) (v : SupervisorVerdict) → Extends r v (apply_rule e ctx r m v)
  unfolding apply_rule
  apply_rule-Extends (err x) v = fail_rule-Extends _ v
  apply_rule-Extends (ok false) v = skip_rule-Extends v
  apply_rule-Extends (ok true) v = check_rule-Extends (e.parse_check r.check) v

  evaluate_rule-Extends : (v : SupervisorVerdict) → Extends r v (evaluate_rule e ctx r v)
  unfolding evaluate_rule
  evaluate_rule-Extends v = apply_rule-Extends (applies e ctx r.applies_when) v

-- The verdict passes if and only if no result is a failure.
IsSound : SupervisorVerdict → Type 0
IsSound v = (v.pass ≡ true) ↔ (select is_failed v.results ≡ [])

snoc≢nil {ℓ} : {A : Type ℓ} (xs : List A) (x : A) → xs ++ x ∷ [] ≡ [] → ⊥
snoc≢nil [] x h = absurd (cc)
snoc≢nil (y ∷ xs) x h = absurd (cc)

Extends-failures :
    (r : Rule) (v w : SupervisorVerdict) (x : Extends r v w)
    → select is_failed w.results
      ≡ select is_failed v.results ++ (if is_failed x.result then x.result ∷ [] else [])
Extends-failures r v w x = rw x.appended (select-append is_failed v.results (x.result ∷ []))

Extends-IsSound : (r : Rule) (v w : SupervisorVerdict) → Extends r v w → IsSound v → IsSound w
unfolding IsSound
Extends-IsSound r v w x (h, k) =
    let fs = Extends-failures r v w x in
    elim (Bool-cases (is_failed x.result)) [
      | inl f ↦ (
        λ p. absurd (ground (arith, x.counted)),
        λ p. absurd (snoc≢nil _ x.result (sym (rw f at fs) ∙ p)),
      )
      | inr f ↦
          (let same : select is_failed w.results ≡ select is_failed v.results =
              rw f at fs ∙ append-nil _ in
            (
              λ p. same ∙ h (ground (arith, x.counted)),
              λ p. x.counted ∙ rw (f, k (sym same ∙ p)) refl,
            ))
    ]

evaluate_rules-IsSound :
    (e : Engine) (ctx : EvalContext) (rules : List Rule) (v : SupervisorVerdict)
    → IsSound v
    → IsSound (evaluate_rules e ctx rules v)
unfolding evaluate_rules
evaluate_rules-IsSound e ctx [] v h = h
evaluate_rules-IsSound e ctx (r ∷ rules) v h =
    evaluate_rules-IsSound e ctx rules (evaluate_rule e ctx r v)
      (Extends-IsSound r v _ (evaluate_rule-Extends e ctx r v) h)

evaluate_rules-names :
    (e : Engine) (ctx : EvalContext) (rules : List Rule) (v : SupervisorVerdict)
    → rule_names (evaluate_rules e ctx rules v) ≡ rule_names v ++ map (λ (r : Rule). r.name) rules
unfolding evaluate_rules rule_names
evaluate_rules-names e ctx [] v = sym (append-nil _)
evaluate_rules-names e ctx (r ∷ rules) v =
    let x = evaluate_rule-Extends e ctx r v in
    rw (evaluate_rules-names e ctx rules (evaluate_rule e ctx r v)) (
      rw (x.appended, map-append) rw x.named
        (append_assoc (rule_names v) (r.name ∷ []) (map (λ (o : Rule). o.name) rules)))

verdict_of-names :
    (e : Engine) (ctx : EvalContext) (rules : List Rule)
    → rule_names (verdict_of e ctx rules) ≡ map (λ (r : Rule). r.name) rules
unfolding verdict_of rule_names
verdict_of-names e ctx [] = refl
verdict_of-names e ctx (r ∷ rules) = evaluate_rules-names e ctx (r ∷ rules) passing

verdict_of-IsSound :
    (e : Engine) (ctx : EvalContext) (rules : List Rule) → IsSound (verdict_of e ctx rules)
unfolding verdict_of IsSound
verdict_of-IsSound e ctx [] = (λ _. refl, λ _. refl)
verdict_of-IsSound e ctx (r ∷ rules) =
    evaluate_rules-IsSound e ctx (r ∷ rules) passing (λ _. refl, λ _. refl)

map-nil {ℓ κ} : {A : Type ℓ} {B : Type κ} (f : A → B) (xs : List A) → map f xs ≡ [] → xs ≡ []
map-nil f [] h = refl
map-nil f (x ∷ xs) h = absurd (cc)

-- For a role, Evaluate returns a verdict with one result for each rule of the role, in the order of
-- the rules and whether or not an earlier one failed, and the verdict passes if and only if it has
-- no failed message.
pub evaluate_lem :
    (e : Engine) (ctx : EvalContext) (role : String)
    → ctx.role_name ≡ some role
    → (v : SupervisorVerdict) × (evaluate e ctx ≡ ok v)
      × (map (λ (r : RuleResult). r.rule_name) v.results
          ≡ map (λ (r : Rule). r.name) (rules_for_role e role))
      × ((v.pass ≡ true) ↔ (failed_messages v ≡ []))
unfolding evaluate rule_names IsSound failed_messages
evaluate_lem e ctx role h =
    let (p, q) = verdict_of-IsSound e ctx (rules_for_role e role) in
    (
      verdict_of e ctx (rules_for_role e role),
      rw h refl,
      verdict_of-names e ctx (rules_for_role e role),
      (λ k. ap (map (λ (r : RuleResult). r.message)) (p k), λ k. q (map-nil _ _ k)),
    )
