-- ===== src/Orchestration/Launches.antt =====
-- How often a dispatch launches its agent.
pub mod Quiet
pub mod Denied
pub mod Bound
use coworker.Prelude.{
  ℕ, zero, suc, String, ◌≡◌, refl, sym, ◌∙◌, ap, Bool, true, false, Option, none, some, List, [],
  ◌∷◌, ◌==◌, if◌then◌else◌, not, Result, ok, err, ltb, ◌&&◌,
}
use coworker.Manifest.Integers.{ℤ}
use coworker.Core.Jobs.{JobState, JobResult, Finding}
use coworker.Permissions.{
  PermissionDecision, allow, hard_deny, requires_human, undeclared, evaluate_action,
}
use coworker.Supervisor.{RuleResult, SupervisorVerdict}
use coworker.Supervisor.Predicates.{EvalContext}
use coworker.Store.Schema.{Db, Outcome}
use coworker.Orchestration.Effects.{
  World, Flow, Failure, Role, Agent, Dispatcher, DispatchInput, Call, Calls, AttemptCalls, next,
  pure, lift, lift_result, stored, tried, with_outcome, recovered, on_error, act, ◌>>=◌, ◌>>◌,
}
use coworker.Orchestration.Permission.{reject}

module _ (S : Type 0) where
  -- The step does not act on the world outside.
  unfoldable pub Unmoved : {A : Type 0} → Flow S A → Type 0
  Unmoved m = (w : World S) → (m w).1.outside ≡ w.outside

  pub pure-Unmoved : {A : Type 0} (a : A) → Unmoved (pure a)
  unfolding Unmoved
  pure-Unmoved a w = refl

  pub reject-Unmoved : (A : Type 0) (x : Failure) → Unmoved (reject {S = S} {A = A} x)
  unfolding Unmoved
  reject-Unmoved A x w = refl

  pub if-Unmoved :
      {A : Type 0} (b : Bool) (m k : Flow S A)
      → Unmoved m
      → Unmoved k
      → Unmoved (if b then m else k)
  if-Unmoved true m k p q = p
  if-Unmoved false m k p q = q

  next-Unmoved :
      {A B : Type 0} (s : S) (o : Result Failure A × World S) (k : A → Flow S B)
      → o.1.outside ≡ s
      → ((a : A) → Unmoved (k a))
      → (next o k).1.outside ≡ s
  unfolding Unmoved
  next-Unmoved s (ok a, w) k h p = p a w ∙ h
  next-Unmoved s (err x, w) k h p = h

  pub then-Unmoved :
      {A B : Type 0} (m : Flow S A) (k : A → Flow S B)
      → Unmoved m
      → ((a : A) → Unmoved (k a))
      → Unmoved (m >>= k)
  unfolding Unmoved
  then-Unmoved m k p q w = next-Unmoved w.outside (m w) k (p w) q

  pub also-Unmoved :
      {B : Type 0} (m : Flow S (Unit {0})) (k : Flow S B) → Unmoved m → Unmoved k → Unmoved (m >> k)
  also-Unmoved m k p q = then-Unmoved m (λ _. k) p (λ _. q)

  pub tried-Unmoved : (f : Db → Outcome) → Unmoved (tried f)
  unfolding Unmoved
  tried-Unmoved f w = refl

  with_outcome-Unmoved : (s : S) (o : Outcome) → (with_outcome s o).1.outside ≡ s
  with_outcome-Unmoved s (ok _, db) = refl
  with_outcome-Unmoved s (err x, db) = refl

  pub stored-Unmoved : (f : Db → Outcome) → Unmoved (stored f)
  unfolding Unmoved
  stored-Unmoved f w = with_outcome-Unmoved w.outside (f w.db)

  recovered-Unmoved :
      {A : Type 0} (f : Db → Outcome) (o : Result Failure A × World S)
      → (recovered f o).1.outside ≡ o.1.outside
  recovered-Unmoved f (ok a, w) = refl
  recovered-Unmoved f (err x, w) = refl

  pub on_error-Unmoved :
      {A : Type 0} (f : Db → Outcome) (m : Flow S A) → Unmoved m → Unmoved (on_error f m)
  unfolding Unmoved
  on_error-Unmoved f m p w = recovered-Unmoved f (m w) ∙ p w

  lift_result-Unmoved :
      {A : Type 0} (x : String → Failure) (m : Result String A) (w : World S)
      → (lift_result x m w).1.outside ≡ w.outside
  lift_result-Unmoved x (ok a) w = refl
  lift_result-Unmoved x (err e) w = refl

  pub lift-Unmoved : {A : Type 0} (x : String → Failure) (m : Result String A) → Unmoved (lift x m)
  unfolding Unmoved
  lift-Unmoved x m w = lift_result-Unmoved x m w

  -- The step ends in an error, without acting on the world outside.
  unfoldable pub Refuses : {A : Type 0} → Flow S A → Type 0
  Refuses m =
      (w : World S)
      → (x : Failure) × (w' : World S) × (m w ≡ (err x, w')) × (w'.outside ≡ w.outside)

  pub reject-Refuses : (A : Type 0) (x : Failure) → Refuses (reject {S = S} {A = A} x)
  unfolding Refuses
  reject-Refuses A x w = (x, w, refl, refl)

  pub if-Refuses :
      {A : Type 0} (b : Bool) (m k : Flow S A)
      → Refuses m
      → Refuses k
      → Refuses (if b then m else k)
  if-Refuses true m k p q = p
  if-Refuses false m k p q = q

  pub then-Refuses :
      {A B : Type 0} (m : Flow S A) (k : A → Flow S B) → Refuses m → Refuses (m >>= k)
  unfolding Refuses
  then-Refuses m k p w = let (x, w', e, h) = p w in (x, w', ap (λ o. next o k) e, h)

  next-Refuses :
      {A B : Type 0} (s : S) (o : Result Failure A × World S) (k : A → Flow S B)
      → o.1.outside ≡ s
      → ((a : A) → Refuses (k a))
      → (x : Failure) × (w' : World S) × (next o k ≡ (err x, w')) × (w'.outside ≡ s)
  unfolding Refuses
  next-Refuses s (ok a, w) k h p = let (x, w', e, i) = p a w in (x, w', e, i ∙ h)
  next-Refuses s (err x, w) k h p = (x, w, refl, h)

  pub after-Refuses :
      {A B : Type 0} (m : Flow S A) (k : A → Flow S B)
      → Unmoved m
      → ((a : A) → Refuses (k a))
      → Refuses (m >>= k)
  unfolding Refuses Unmoved
  after-Refuses m k p q w = next-Refuses w.outside (m w) k (p w) q

  pub on_error-Refuses :
      {A : Type 0} (f : Db → Outcome) (m : Flow S A) → Refuses m → Refuses (on_error f m)
  unfolding Refuses
  on_error-Refuses f m p w =
      let (x, w', e, h) = p w in (x, record w' { db = (f w'.db).1 }, ap (recovered f) e, h)
