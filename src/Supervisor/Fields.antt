-- ===== src/Supervisor/Fields.antt =====
-- What the check all_findings_have accepts.
use coworker.Prelude.{
  String, ◌≡◌, ◌≢◌, ◌⊎◌, inl, inr, refl, eq_iff, Bool, true, false, some, List, [], ◌∷◌, Result, ok,
  err, ◌↔◌, All, arith,
}
use coworker.Manifest.Integers.{pos, eqz_iff}
use coworker.Core.Jobs.{Finding, JobResult}
use coworker.Supervisor.Predicates.{
  EvalContext, has_field, go_on, has_fields, findings_have, all_findings_have,
}

-- The four fields, and when a finding has a value for one.
pub Has : Finding → String → Type 0
Has f field =
    ((field ≡ "path") × (f.path ≢ ""))
    ⊎ ((field ≡ "line") × (f.line ≢ pos 0))
    ⊎ ((field ≡ "severity") × (f.severity ≢ ""))
    ⊎ ((field ≡ "body") × (f.body ≢ ""))

Has-has_field : (f : Finding) (field : String) → Has f field → has_field field f ≡ ok true
unfolding Has has_field
Has-has_field f field (inl (e, h)) = rw e (ground (arith, eq_iff f.path "", h))
Has-has_field f field (inr (inl (e, h))) = rw e (ground (arith, eqz_iff f.line (pos 0), h))
Has-has_field f field (inr (inr (inl (e, h)))) = rw e (ground (arith, eq_iff f.severity "", h))
Has-has_field f field (inr (inr (inr (e, h)))) = rw e (ground (arith, eq_iff f.body "", h))

has_field-Has : (f : Finding) (field : String) → has_field field f ≡ ok true → Has f field
unfolding Has has_field
has_field-Has f field h = ground (
  arith,
  eq_iff field "path",
  eq_iff field "line",
  eq_iff field "severity",
  eq_iff field "body",
  eq_iff f.path "",
  eqz_iff f.line (pos 0),
  eq_iff f.severity "",
  eq_iff f.body "",
)

go_on_iff :
    (m rest : Result String Bool) → (go_on m rest ≡ ok true) ↔ ((m ≡ ok true) × (rest ≡ ok true))
go_on_iff (ok true) rest = (λ h. (refl, h), λ h. h.1)
go_on_iff (ok false) rest = (λ h. absurd (cc), λ h. h.0)
go_on_iff (err x) rest = (λ h. absurd (cc), λ h. h.0)

has_fields_iff :
    (args : List String) (f : Finding) → (has_fields args f ≡ ok true) ↔ All (Has f) args
unfolding has_fields
has_fields_iff [] f = (λ _. tt, λ _. refl)
has_fields_iff (a ∷ args) f =
    let (p, q) = go_on_iff (has_field a f) (has_fields args f) in
    let (i, j) = has_fields_iff args f in
    (λ h. (has_field-Has f a (p h).0, i (p h).1), λ h. q (Has-has_field f a h.0, j h.1))

findings_have_iff :
    (args : List String) (findings : List Finding)
    → (findings_have args findings ≡ ok true) ↔ All (λ f. All (Has f) args) findings
unfolding findings_have
findings_have_iff args [] = (λ _. tt, λ _. refl)
findings_have_iff args (f ∷ findings) =
    let (p, q) = go_on_iff (has_fields args f) (findings_have args findings) in
    let (i, j) = findings_have_iff args findings in
    let (k, l) = has_fields_iff args f in (λ h. (k (p h).0, i (p h).1), λ h. q (l h.0, j h.1))

-- On the result of a job and at least one field, the check passes if and only if each finding has
-- each field: each is one of `path`, `line`, `severity` and `body`, and has a value in each finding, other
-- than "" or 0.
pub all_findings_have_iff :
    (ctx : EvalContext) (result : JobResult) (a : String) (args : List String)
    → ctx.result ≡ some result
    → (all_findings_have ctx (a ∷ args) ≡ ok true)
      ↔ All (λ f. All (Has f) (a ∷ args)) result.findings
unfolding all_findings_have
all_findings_have_iff ctx result a args h = rw h (findings_have_iff (a ∷ args) result.findings)
