-- ===== src/Tests/Samples.antt =====
-- A queue order, and a database with a run to which dispatches are added.
use mathlib.Core.List.{Memᴰ}
use coworker.Prelude.{
  ℕ, ◌≤◌, String, ◌≡◌, ◌⊎◌, refl, sym, ◌∙◌, subst, ap, Option, none, some, List, [], ◌∷◌, arith,
  leb, if◌then◌else◌, All, Option-cases, Bool-cases, inl, inr,
}
use coworker.Core.{pending, Dispatch}
use coworker.Core.Jobs.{RunState}
use coworker.Store.Schema.{DispatchRow, RunRow, LoopEnv, no_faults}
use coworker.Store.Dispatches.{QueueOrder}

older : DispatchRow → Option DispatchRow → DispatchRow
older x none = x
older x (some y) = if leb x.created_at y.created_at then x else y

-- Of rows of one time the first of the table is taken.
unfoldable pub oldest : List DispatchRow → Option DispatchRow
unfolding older
oldest [] = none
oldest (x ∷ rows) = some (older x (oldest rows))

pub oldest_none : (rows : List DispatchRow) → oldest rows ≡ none → rows ≡ []
unfolding oldest
oldest_none [] h = refl
oldest_none (x ∷ rows) h = absurd (cc)

older_cases : (x : DispatchRow) (o : Option DispatchRow) → (older x o ≡ x) ⊎ (o ≡ some (older x o))
unfolding older
older_cases x none = inl refl
older_cases x (some y) = elim (Bool-cases (leb x.created_at y.created_at)) [
  | inl e ↦ inl (rw e)
  | inr e ↦ inr (rw e)
]

pub oldest_mem : (rows : List DispatchRow) (r : DispatchRow) → oldest rows ≡ some r → Memᴰ r rows
unfolding oldest
oldest_mem [] r h = absurd (cc)
oldest_mem (x ∷ rows) r h = elim (older_cases x (oldest rows)) [
  | inl e ↦ Memᴰ.head (cc)
  | inr e ↦ Memᴰ.tail (oldest_mem rows r (e ∙ h))
]

abbrev NotBefore : ℕ → List DispatchRow → Type 0
NotBefore t = All (λ (o : DispatchRow). t ≤ o.created_at)

NotBefore-mono : (t u : ℕ) (rows : List DispatchRow) → t ≤ u → NotBefore u rows → NotBefore t rows
NotBefore-mono t u [] h a = tt
NotBefore-mono t u (x ∷ rows) h a = (omega arith, NotBefore-mono t u rows h a.1)

older_bounds :
    (x y : DispatchRow)
    → ((older x (some y)).created_at ≤ x.created_at)
      × ((older x (some y)).created_at ≤ y.created_at)
unfolding older
older_bounds x y = ground arith

pub oldest_min :
    (rows : List DispatchRow) (r : DispatchRow) → oldest rows ≡ some r → NotBefore r.created_at rows
unfolding oldest
oldest_min [] r h = tt
oldest_min (x ∷ rows) r h = go (oldest_min rows) (Option-cases (oldest rows))
  where
    go :
        ((y : DispatchRow) → oldest rows ≡ some y → NotBefore y.created_at rows)
        → (oldest rows ≡ none) ⊎ ((y : DispatchRow) × (oldest rows ≡ some y))
        → NotBefore r.created_at (x ∷ rows)
    go ih (inl e) =
        let made : x ≡ r = cc (rw e at h) in
        (
          omega (arith, ap (λ (z : DispatchRow). z.created_at) made),
          subst (NotBefore r.created_at) (sym (oldest_none rows e)) tt,
        )
    go ih (inr (y, e)) =
        let made : older x (some y) ≡ r = cc (rw e at h) in
        subst (λ (z : DispatchRow). NotBefore z.created_at (x ∷ rows)) made
          (
            (older_bounds x y).0,
            NotBefore-mono (older x (some y)).created_at y.created_at rows (older_bounds x y).1
                (ih y e),
          )

abbrev pub sample_order : QueueOrder
sample_order = record {
  oldest = oldest;
  oldest_none = oldest_none;
  oldest_mem = oldest_mem;
  oldest_min = oldest_min;
}

-- A dispatch for a role, for one worker, or for anyone where the handle is empty.
abbrev pub dispatch_for : String → String → String → Dispatch
dispatch_for id role handle = record {
  id = id;
  run_id = "run";
  role = role;
  job_id = "job";
  prompt = "go";
  inputs = "{}";
  state = pending;
  worker_handle = handle;
  leased_at = none;
  completed_at = none;
  created_at = none;
  mode = "";
}

-- Ids for the events of a loop, by the row.
abbrev pub loop_env : LoopEnv
loop_env = record { event_id = λ id. id; faults = λ id. no_faults }

abbrev pub a_run : String → RunRow
a_run id = record {
  id = id;
  mode = "interactive";
  state = RunState.active;
  started_at = 0;
  ended_at = none;
  prd_path = "";
  spec_path = "";
}
