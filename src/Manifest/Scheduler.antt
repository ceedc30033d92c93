-- ===== src/Manifest/Scheduler.antt =====
-- DAGScheduler.
use coworker.Prelude.{
  ℕ, ◌-◌, Bool, true, false, not, ◌||◌, Option, none, some, List, [], ◌∷◌, ◌++◌, eqb, leb,
  if◌then◌else◌, find, length,
}
use coworker.Manifest.Integers.{ℤ, pos, negsuc, eqz}
use coworker.Manifest.Schema.{PlanEntry, PlanManifest}

-- A `map[int]bool`: its entries by key. A key may stand in it with the value false.
abbrev pub IdSet : Type 0
IdSet = List (ℤ × Bool)

abbrev pub marked : Option (ℤ × Bool) → Bool
marked none = false
marked (some (_, b)) = b

-- `set[id]`, which is false for a missing key.
unfoldable pub contains : IdSet → ℤ → Bool
contains set id = marked (find (λ e. eqz e.0 id) set)

-- `Manifest` may be nil; of the policy only `ConcurrencyLimits.MaxParallelPlans` is read.
pub record DagScheduler : Type 0 where
  pub manifest : Option PlanManifest
  pub max_parallel : Option ℤ

abbrev pub default_max_parallel_plans : ℕ
default_max_parallel_plans = 2

abbrev pub cap : Option ℤ → ℕ
cap none = default_max_parallel_plans
cap (some (pos n)) = if eqb n 0 then default_max_parallel_plans else n
cap (some (negsuc _)) = default_max_parallel_plans

unfoldable pub max_parallel_plans : DagScheduler → ℕ
max_parallel_plans s = cap s.max_parallel

unfoldable pub all_completed : List ℤ → IdSet → Bool
all_completed [] completed = true
all_completed (id ∷ deps) completed =
    if not (contains completed id) then false else all_completed deps completed

-- The plans so far with the plan under the loop's cursor, unless a `continue` skips it.
unfoldable pub considered : IdSet → IdSet → PlanEntry → List PlanEntry → List PlanEntry
considered completed active p ready =
    if contains completed p.id || contains active p.id
    then ready
    else if not (all_completed p.blocks_on completed)
    then ready
    else ready ++ p ∷ []

unfoldable pub ready_from : ℕ → IdSet → IdSet → List PlanEntry → List PlanEntry → List PlanEntry
ready_from slots completed active ready [] = ready
ready_from slots completed active ready (p ∷ plans) =
    let rest = ready_from slots completed active (considered completed active p ready) plans in
    if leb slots (length ready) then ready else rest

abbrev pub ready_of : Option PlanManifest → ℕ → IdSet → IdSet → List PlanEntry
ready_of none slots completed active = []
ready_of (some m) slots completed active =
    if eqb slots 0 then [] else ready_from slots completed active [] m.plans

-- `slots` is 0 where the code has `slots <= 0`.
unfoldable pub ready_plans : DagScheduler → IdSet → IdSet → List PlanEntry
ready_plans s completed active =
    ready_of s.manifest (max_parallel_plans s - length active) completed active
