-- ===== src/Manifest/Progress.antt =====
-- The scheduler of a manifest without cycles always finds a plan to start.
use mathlib.Core.List.{Memᴰ}
use coworker.Prelude.{
  ℕ, zero, suc, ◌-◌, ◌≤◌, ◌<◌, ◌≡◌, ◌≢◌, refl, sym, ap, ◌∙◌, Bool, true, false, Option, none, some,
  List, [], ◌∷◌, arith, select, All, Bool-cases, inl, inr, subst, ok,
}
use coworker.Manifest.Integers.{ℤ, pos, negsuc, eqz, eqz_iff}
use coworker.Manifest.Schema.{PlanEntry, PlanManifest, MapOrder, validate}
use coworker.Manifest.Validate.{known, AreKnown, validate_sound}
use coworker.Manifest.Scheduler.{
  IdSet, cap, contains, DagScheduler, max_parallel_plans, all_completed, ready_plans,
}
use coworker.Manifest.Ready.{startable, first_of, ready_plans_lem}

member_selected :
    (f : PlanEntry → Bool) (p : PlanEntry) (l : List PlanEntry)
    → Memᴰ p l
    → f p ≡ true
    → select f l ≢ []
member_selected f p [] m h none_left = elim m [ ]
member_selected f p (x ∷ l) (Memᴰ.head e) h none_left = cc (rw (ap f (sym e) ∙ h) at none_left)
member_selected f p (x ∷ l) (Memᴰ.tail m) h none_left = ground (arith, member_selected f p l m h)

open_dep :
    {P : ℤ → Type 0} (completed : IdSet) (deps : List ℤ)
    → all_completed deps completed ≡ false
    → All P deps
    → (d : ℤ) × (contains completed d ≡ false) × P d
unfolding all_completed
open_dep completed [] h a = absurd (cc)
open_dep completed (d ∷ deps) h a = elim (Bool-cases (contains completed d)) [
  | inl e ↦ open_dep completed deps (rw e at h) a.1
  | inr e ↦ (d, e, a.0)
]

find_plan :
    (d : ℤ) (plans : List PlanEntry)
    → known d plans ≡ true
    → (q : PlanEntry) × Memᴰ q plans × (q.id ≡ d)
find_plan d [] h = absurd (cc)
find_plan d (p ∷ plans) h = elim (Bool-cases (eqz p.id d)) [
  | inl e ↦ (p, Memᴰ.head refl, (eqz_iff p.id d).0 e)
  | inr e ↦ let (q, m, at) = find_plan d plans (rw e at h) in (q, Memᴰ.tail m, at)
]

All-mem : (P : PlanEntry → Type 0) (p : PlanEntry) (l : List PlanEntry) → All P l → Memᴰ p l → P p
All-mem P p [] a m = elim m [ ]
All-mem P p (x ∷ l) a (Memᴰ.head e) = subst P (sym e) a.0
All-mem P p (x ∷ l) a (Memᴰ.tail m) = All-mem P p l a.1 m

All-both : (P Q : ℤ → Type 0) (l : List ℤ) → All P l → All Q l → All (λ d. P d × Q d) l
All-both P Q [] a b = tt
All-both P Q (x ∷ l) a b = ((a.0, b.0), All-both P Q l a.1 b.1)

-- Every plan stands above the plans that it waits for.
abbrev pub IsLayered : (ℤ → ℕ) → List PlanEntry → Type 0
IsLayered level = All (λ (p : PlanEntry). All (λ (d : ℤ). level d < level p.id) p.blocks_on)

cap_positive : (s : DagScheduler) → 1 ≤ max_parallel_plans s - 0
unfolding max_parallel_plans
cap_positive s = go s.max_parallel
  where
    go : (o : Option ℤ) → 1 ≤ cap o - 0
    go none = omega arith
    go (some (pos n)) = ground arith
    go (some (negsuc n)) = omega arith

first_of-some {ℓ} : {A : Type ℓ} (n : ℕ) (l : List A) → 1 ≤ n → l ≢ [] → first_of n l ≢ []
first_of-some zero l h some_in e = absurd (omega arith)
first_of-some (suc n) [] h some_in e = some_in refl
first_of-some (suc n) (x ∷ l) h some_in e = cc

-- From an open plan down the layers to one that may start.
start_below :
    (bound : ℕ) (level : ℤ → ℕ) (plans : List PlanEntry) (completed : IdSet) (p : PlanEntry)
    → IsLayered level plans
    → All (λ (q : PlanEntry). AreKnown plans q.blocks_on) plans
    → Memᴰ p plans
    → contains completed p.id ≡ false
    → level p.id < bound
    → select (startable completed []) plans ≢ []
unfolding contains
start_below zero level plans completed p layered known_deps here still_open l = absurd (omega arith)
start_below (suc bound) level plans completed p layered known_deps here still_open l =
    elim (Bool-cases (all_completed p.blocks_on completed)) [
      | inl e ↦ member_selected (startable completed []) p plans here (ground (arith))
      | inr e ↦
          let below =
            All-mem (λ (r : PlanEntry). All (λ (i : ℤ). level i < level r.id) r.blocks_on) p plans
              layered here in
          let inside =
            All-mem (λ (r : PlanEntry). AreKnown plans r.blocks_on) p plans known_deps here in
          let deps =
            All-both (λ (i : ℤ). level i < level p.id) (λ (i : ℤ). known i plans ≡ true) p.blocks_on
              below inside in
          let (d, d_open, (d_below, d_known)) = open_dep completed p.blocks_on e deps in
          let (q, there, at) = find_plan d plans d_known in
          start_below bound level plans completed q layered known_deps there
            (ap (contains completed) at ∙ d_open) (omega (arith, ap level at))
    ]

-- The scheduler does not get stuck: while a plan of a manifest that Validate accepts is open and no
-- plan is active, ReadyPlans returns one, where the plans can be put in layers such that each
-- waits only for plans of lower ones (that is, where they wait for each other in no cycle).
pub ready_plans_progress :
    (order : MapOrder) (s : DagScheduler) (m : PlanManifest) (completed : IdSet) (level : ℤ → ℕ)
    (p : PlanEntry)
    → s.manifest ≡ some m
    → validate order m ≡ ok tt
    → IsLayered level m.plans
    → Memᴰ p m.plans
    → contains completed p.id ≡ false
    → ready_plans s completed [] ≢ []
ready_plans_progress order s m completed level p set valid layered here still_open none_ready =
    let (_, _, _, known_deps) = validate_sound order m valid in
    let found =
      start_below (suc (level p.id)) level m.plans completed p layered known_deps here still_open
        (omega arith) in
    first_of-some (max_parallel_plans s - 0) (select (startable completed []) m.plans)
      (cap_positive s) found (sym (ready_plans_lem s m completed [] set) ∙ none_ready)
