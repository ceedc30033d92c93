-- ===== src/Manifest/Schema.antt =====
-- PlanManifest and its Validate.
use mathlib.Core.List.{Perm}
use coworker.Prelude.{
  ℕ, zero, suc, ◌+◌, ◌-◌, String, Bool, not, List, [], ◌∷◌, ◌++◌, ◌==◌, eqb, if◌then◌else◌, any,
  select, length, Result, ok, guard, ◌>>=◌, ◌>>◌, map,
}
use coworker.Manifest.Integers.{ℤ, positive, eqz}

pub record PlanEntry : Type 0 where
  pub id : ℤ
  pub title : String
  pub phases : List String
  pub blocks_on : List ℤ

pub record PlanManifest : Type 0 where
  pub spec_path : String
  pub plans : List PlanEntry

pub data Invalid : Type 0 where
  no_spec_path no_plans id_not_positive no_title duplicate_id unknown_dependency cycle : Invalid

abbrev pub seen : ℤ → List ℤ → Bool
seen id ids = any (λ i. eqz i id) ids

-- The first loop, which collects the ids that it has seen.
unfoldable pub check_entries : List ℤ → List PlanEntry → Result Invalid (List ℤ)
check_entries ids [] = ok ids
check_entries ids (p ∷ ps) = do
  guard (positive p.id) id_not_positive
  guard (not (p.title == "")) no_title
  guard (not (seen p.id ids)) duplicate_id
  check_entries (p.id ∷ ids) ps

unfoldable pub check_deps : List ℤ → List ℤ → Result Invalid (Unit {0})
check_deps ids [] = ok tt
check_deps ids (dep ∷ deps) = guard (seen dep ids) unknown_dependency >> check_deps ids deps

unfoldable pub check_references : List ℤ → List PlanEntry → Result Invalid (Unit {0})
unfolding check_deps
check_references ids [] = ok tt
check_references ids (p ∷ ps) = check_deps ids p.blocks_on >> check_references ids ps

-- `inDegree`: a map by id, where the value of a missing key is 0.
abbrev pub Degrees : Type 0
Degrees = ℤ → ℕ

abbrev pub set_degree : ℤ → ℕ → Degrees → Degrees
set_degree id n degrees j = if eqz id j then n else degrees j

-- The in-degrees that the loop over the plans counts, by way of one increment for each entry of
-- `BlocksOn`.
unfoldable pub in_degrees : List PlanEntry → Degrees → Degrees
in_degrees [] degrees = degrees
in_degrees (p ∷ ps) degrees =
    in_degrees ps (set_degree p.id (degrees p.id + length p.blocks_on) degrees)

-- `dependents[dep]`: the ids of the plans that list `dep`, once for each time they do.
unfoldable pub dependents : List PlanEntry → ℤ → List ℤ
dependents [] dep = []
dependents (p ∷ ps) dep = map (λ _. p.id) (select (λ d. eqz d dep) p.blocks_on) ++ dependents ps dep

-- `inDegree[dep]--` and the test for 0 after it, for each dependent of the plan that was taken. A
-- degree below 0, which is as far from the test as one of 0, is kept as 0.
unfoldable pub release_dependents : List ℤ → Degrees → List ℤ → Degrees × List ℤ
release_dependents [] degrees queue = (degrees, queue)
release_dependents (dep ∷ deps) degrees queue =
    release_dependents deps (set_degree dep (degrees dep - 1) degrees)
      (if eqb (degrees dep) 1 then queue ++ dep ∷ [] else queue)

-- `range` over a map visits the keys in an order of its own.
pub record MapOrder : Type 0 where
  pub keys : List ℤ → List ℤ
  pub keys_perm : (ids : List ℤ) → Perm (keys ids) ids

-- Kahn's loop, and the number of plans that it takes from the queue.
unfoldable pub kahn : ℕ → List PlanEntry → Degrees → List ℤ → ℕ → ℕ
unfolding release_dependents
kahn zero plans degrees queue processed = processed
kahn (suc fuel) plans degrees [] processed = processed
kahn (suc fuel) plans degrees (cur ∷ queue) processed =
    let (degrees', queue') = release_dependents (dependents plans cur) degrees queue in
    kahn fuel plans degrees' queue' (suc processed)

-- With one unit of fuel more than there are plans, a loop that goes on is not mistaken for one that
-- took every plan.
unfoldable pub validate : MapOrder → PlanManifest → Result Invalid (Unit {0})
validate order m = do
  guard (not (m.spec_path == "")) no_spec_path
  guard (not (eqb (length m.plans) 0)) no_plans
  ids ← check_entries [] m.plans
  check_references ids m.plans
  let degrees = in_degrees m.plans (λ _. 0)
  let start = select (λ id. eqb (degrees id) 0) (order.keys ids)
  guard (eqb (kahn (suc (length m.plans)) m.plans degrees start 0) (length m.plans)) cycle
