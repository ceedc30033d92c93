-- ===== src/Orchestration/Histories.antt =====
-- Whatever happens in a dispatch, what it does to the database is a history of the store's
-- operations.
pub mod Attempts
pub mod Whole
pub mod Untouched
use coworker.Prelude.{
  ℕ, zero, suc, String, ◌≡◌, refl, sym, ◌∙◌, ap, subst, Bool, true, false, Option, none, some, List,
  [], ◌∷◌, ◌++◌, ◌==◌, if◌then◌else◌, not, Result, ok, err, Bool-cases, inl, inr, ltb, All,
}
use coworker.Core.{EventKind, supervisor_retry, compliance_breach, Event}
use coworker.Core.Jobs.{JobState, JobResult, Finding}
use coworker.Permissions.{
  PermissionDecision, allow, hard_deny, requires_human, undeclared, evaluate_action,
}
use coworker.Supervisor.{RuleResult, SupervisorVerdict}
use coworker.Supervisor.Predicates.{EvalContext}
use coworker.Store.Schema.{Db, Outcome}
use coworker.Store.Events.{write_event_then_row}
use coworker.Store.Dispatches.{QueueOrder}
use coworker.Store.History.{
  IsForeign, Operation, open_run, close_run, open_job, move_job, report, judge, ask, log, perform,
  history,
}
use coworker.Orchestration.Effects.{
  World, Flow, Failure, Role, Agent, Dispatcher, DispatchInput, Calls, AttemptCalls, Preserves,
  bind-Preserves, next, pure, lift, lift_result, stored, tried, with_outcome, recovered, on_error,
  act, outside_result, ◌>>=◌, ◌>>◌,
}

-- What a dispatch may do to the database: it takes no part in the queue and the registry, resolves
-- no finding and answers no question, and opens or closes a run only where `own` is true.
abbrev pub may_do : Bool → Operation → Bool
may_do own (open_run _ _ _) = own
may_do own (close_run _ _ _ _ _) = own
may_do own (open_job _ _ _) = true
may_do own (move_job _ _ _ _ _) = true
may_do own (report _ _ _ _ _) = true
may_do own (judge _ _ _ _ _ _ _) = true
may_do own (ask _ _ _ _) = true
may_do own (log _ _ _) = true
may_do own _ = false

abbrev pub May : Bool → Operation → Type 0
May own o = may_do own o ≡ true

-- A function of a store that is one operation of the histories, and one that a dispatch may do.
abbrev pub IsOperation : Bool → QueueOrder → (Db → Outcome) → Type 0
IsOperation own order f = (db : Db) → (o : Operation) × May own o × (perform order o db ≡ (f db).1)

-- A database that a history of such operations leads to.
pub Reached : Bool → QueueOrder → Db → Db → Type 0
Reached own order db0 db = (ops : List Operation) × All (May own) ops × (history order ops db0 ≡ db)

history-append :
    (order : QueueOrder) (ops : List Operation) (o : Operation) (db : Db)
    → history order (ops ++ o ∷ []) db ≡ perform order o (history order ops db)
unfolding history
history-append order [] o db = refl
history-append order (p ∷ ops) o db = history-append order ops o (perform order p db)

May-append :
    (own : Bool) (ops : List Operation) (o : Operation)
    → All (May own) ops
    → May own o
    → All (May own) (ops ++ o ∷ [])
May-append own [] o _ m = (m, tt)
May-append own (p ∷ ops) o (first, others) m = (first, May-append own ops o others m)

pub Reached-step :
    (own : Bool) (order : QueueOrder) (db0 : Db) (f : Db → Outcome) (db : Db)
    → IsOperation own order f
    → Reached own order db0 db
    → Reached own order db0 (f db).1
unfolding Reached
Reached-step own order db0 f db is (ops, may, h) =
    let (o, m, e) = is db in
    (
      ops ++ o ∷ [],
      May-append own ops o may m,
      history-append order ops o db0 ∙ ap (perform order o) h ∙ e,
    )

module _ (S : Type 0) (own : Bool) (order : QueueOrder) (db0 : Db) where
  abbrev pub At : World S → Type 0
  At w = Reached own order db0 w.db

  with_outcome-At : (s : S) (o : Outcome) → Reached own order db0 o.1 → At (with_outcome s o).1
  with_outcome-At s (ok _, db) h = h
  with_outcome-At s (err x, db) h = h

  pub stored-At : (f : Db → Outcome) → IsOperation own order f → Preserves At (stored f)
  unfolding Preserves
  stored-At f is w h = with_outcome-At w.outside (f w.db) (Reached-step own order db0 f w.db is h)

  pub tried-At : (f : Db → Outcome) → IsOperation own order f → Preserves At (tried f)
  unfolding Preserves
  tried-At f is w h = Reached-step own order db0 f w.db is h

  abbrev pub Stays : (Db → Outcome) → Type 0
  Stays f = (db : Db) → Reached own order db0 db → Reached own order db0 (f db).1

  recovered-At :
      {A : Type 0} (f : Db → Outcome) (o : Result Failure A × World S)
      → Stays f
      → At o.1
      → At (recovered f o).1
  recovered-At f (ok a, w) is h = h
  recovered-At f (err x, w) is h = is w.db h

  pub on_error-At :
      {A : Type 0} (f : Db → Outcome) (m : Flow S A)
      → Stays f
      → Preserves At m
      → Preserves At (on_error f m)
  unfolding Preserves
  on_error-At f m is p w h = recovered-At f (m w) is (p w h)

  outside-At :
      {A : Type 0} (x : String → Failure) (db : Db) (o : Result String A × S)
      → Reached own order db0 db
      → At (outside_result x db o).1
  outside-At x db (ok a, s) h = h
  outside-At x db (err e, s) h = h

  pub act-At :
      {A : Type 0} (x : String → Failure) (f : S → Result String A × S) → Preserves At (act x f)
  unfolding Preserves
  act-At x f w h = outside-At x w.db (f w.outside) h

  lift_result-At :
      {A : Type 0} (x : String → Failure) (m : Result String A) (w : World S)
      → At w
      → At (lift_result x m w).1
  lift_result-At x (ok a) w h = h
  lift_result-At x (err e) w h = h

  pub lift-At : {A : Type 0} (x : String → Failure) (m : Result String A) → Preserves At (lift x m)
  unfolding Preserves
  lift-At x m = lift_result-At x m
