-- ===== src/Orchestration/Effects.antt =====
-- The data of the dispatcher, and a computation that changes the database and the world outside and
-- may fail.
use coworker.Prelude.{ℕ, String, Bool, Option, List, Result, ok, err}
use coworker.Manifest.Integers.{ℤ}
use coworker.Core.Jobs.{Job, JobResult}
use coworker.Permissions.{RolePermissions}
use coworker.Supervisor.{SupervisorVerdict}
use coworker.Supervisor.Predicates.{EvalContext}
use coworker.Store.Schema.{Db, Faults, Error, Outcome}

-- Of a role's file, what the dispatcher reads.
pub record Role : Type 0 where
  pub name : String
  pub cli : String
  pub required : List String
  pub permissions : RolePermissions

pub record DispatchInput : Type 0 where
  pub role_name : String
  pub inputs : List (String × String)
  pub run_id : String

-- An agent: `none` where it has no method BinaryBasename, then Dispatch, whose handle is a function
-- for Wait. `S` is the world that it acts on.
pub record Agent (S : Type 0) : Type 0 where
  pub binary_basename : Option String
  pub dispatch : Job → String → S → Result String (S → Result String JobResult × S) × S

-- `load_role` and `render_prompt` (LoadPromptTemplate and RenderPrompt on the inputs) read files.
-- `equal_fold`, `base`, `atoi`, `itoa` and `fingerprint` stand for calls of strings, filepath,
-- strconv, fmt and sha256. `policy` is `on_undeclared`, where there is a policy.
pub record Dispatcher (S : Type 0) : Type 0 where
  pub load_role : String → Result String Role
  pub render_prompt : Role → List (String × String) → Result String String
  pub agent : Agent S
  pub cli_agents : List (String × Agent S)
  pub supervisor : Option (EvalContext → Result String SupervisorVerdict)
  pub supervisor_writer : Bool
  pub max_retries : ℤ
  pub work_dir : String
  pub policy : Option String
  pub attention_store : Bool
  pub equal_fold : String → String → Bool
  pub base : String → String
  pub atoi : String → Option ℤ
  pub itoa : ℕ → String
  pub fingerprint : String → ℤ → String → String → String

-- What a call of the database takes from outside.
pub record Call : Type 0 where
  pub faults : Faults
  pub event_id : String
  pub now : ℕ

-- What one attempt takes from outside. `done` is whether the context is cancelled when it starts,
-- and `fail` belongs to the one update to `failed` that it may make.
pub record AttemptCalls : Type 0 where
  pub done : Bool
  pub job_id : String
  pub create : Call
  pub lease : Call
  pub ask : Call
  pub fail : Call
  pub verdict : ℕ → Call
  pub verdict_id : ℕ → String
  pub event : Call

pub record Calls : Type 0 where
  pub run_id : String
  pub create : Call
  pub attempt : ℕ → AttemptCalls
  pub finding : ℕ → Call
  pub finding_id : ℕ → String
  pub finish : Call
  pub close : Call

pub data Failure : Type 0 where
  load_role_failed : String → Failure
  missing_input : String → Failure
  store_failed : Error → Failure
  render_failed : String → Failure
  context_done : Failure
  never_allowed needs_approval not_declared : Failure
  dispatch_failed : String → Failure
  wait_failed : String → Failure
  evaluate_failed : String → Failure

pub record World (S : Type 0) : Type 0 where
  pub db : Db
  pub outside : S

abbrev pub Flow : Type 0 → Type 0 → Type 0
Flow S A = World S → Result Failure A × World S

module _ {S : Type 0} where
  abbrev pub next :
      {A B : Type 0} → Result Failure A × World S → (A → Flow S B) → Result Failure B × World S
  next (ok a, w) k = k a w
  next (err x, w) k = (err x, w)

  infixl 5 ◌>>=◌ ◌>>◌
  abbrev pub ◌>>=◌ : {A B : Type 0} → Flow S A → (A → Flow S B) → Flow S B
  m >>= k = λ w. next (m w) k

  abbrev pub ◌>>◌ : {B : Type 0} → Flow S (Unit {0}) → Flow S B → Flow S B
  m >> k = m >>= λ _. k

  abbrev pub pure : {A : Type 0} → A → Flow S A
  pure a w = (ok a, w)

  abbrev pub lift_result :
      {A : Type 0} → (String → Failure) → Result String A → World S → Result Failure A × World S
  lift_result x (ok a) w = (ok a, w)
  lift_result x (err e) w = (err (x e), w)

  -- A call whose error is wrapped.
  abbrev pub lift : {A : Type 0} → (String → Failure) → Result String A → Flow S A
  lift x m = λ w. lift_result x m w

  abbrev pub with_outcome : S → Outcome → Result Failure (Unit {0}) × World S
  with_outcome s (ok _, db) = (ok tt, record { db = db; outside = s })
  with_outcome s (err x, db) = (err (store_failed x), record { db = db; outside = s })

  -- A call of a store, whose error is returned.
  abbrev pub stored : (Db → Outcome) → Flow S (Unit {0})
  stored f w = with_outcome w.outside (f w.db)

  -- A call of a store, whose error is only logged.
  abbrev pub tried : (Db → Outcome) → Flow S (Unit {0})
  tried f w = (ok tt, record w { db = (f w.db).1 })

  abbrev pub recovered :
      {A : Type 0} → (Db → Outcome) → Result Failure A × World S → Result Failure A × World S
  recovered f (ok a, w) = (ok a, w)
  recovered f (err x, w) = (err x, record w { db = (f w.db).1 })

  -- After an error one more call of a store, before the error is returned.
  abbrev pub on_error : {A : Type 0} → (Db → Outcome) → Flow S A → Flow S A
  on_error f m = λ w. recovered f (m w)

  abbrev pub outside_result :
      {A : Type 0} → (String → Failure) → Db → Result String A × S → Result Failure A × World S
  outside_result x db (ok a, s) = (ok a, record { db = db; outside = s })
  outside_result x db (err e, s) = (err (x e), record { db = db; outside = s })

  -- A call of the agent.
  abbrev pub act : {A : Type 0} → (String → Failure) → (S → Result String A × S) → Flow S A
  act x f w = outside_result x w.db (f w.outside)

  -- What every step keeps, the whole keeps.
  module _ {ℓ} (P : World S → Type ℓ) where
    unfoldable pub Preserves : {A : Type 0} → Flow S A → Type ℓ
    Preserves m = (w : World S) → P w → P (m w).1

    pub next-Preserves :
        {A B : Type 0} (o : Result Failure A × World S) (k : A → Flow S B)
        → P o.1
        → ((a : A) → Preserves (k a))
        → P (next o k).1
    unfolding Preserves
    next-Preserves (ok a, w) k h p = p a w h
    next-Preserves (err x, w) k h p = h

    pub bind-Preserves :
        {A B : Type 0} (m : Flow S A) (k : A → Flow S B)
        → Preserves m
        → ((a : A) → Preserves (k a))
        → Preserves (m >>= k)
    unfolding Preserves
    bind-Preserves m k h p w q = next-Preserves (m w) k (h w q) p
