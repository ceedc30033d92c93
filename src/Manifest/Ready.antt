-- ===== src/Manifest/Ready.antt =====
-- What ReadyPlans returns.
use mathlib.Core.List.{append-nil, append_assoc}
use coworker.Prelude.{
  ℕ, zero, suc, ◌+◌, ◌-◌, ◌≤◌, ◌≡◌, refl, sym, ap, ◌∙◌, Bool, not, ◌&&◌, Option, none, some, List,
  [], ◌∷◌, ◌++◌, arith, eqb, leb, if◌then◌else◌, select, length, length-append, Bool-cases, inl,
  inr, max,
}
use coworker.Manifest.Schema.{PlanEntry, PlanManifest}
use coworker.Manifest.Scheduler.{
  IdSet, contains, DagScheduler, max_parallel_plans, all_completed, considered, ready_from,
  ready_of, ready_plans,
}

-- The three conditions of ReadyPlans: not done, not running, and nothing that it waits for open.
abbrev pub startable : IdSet → IdSet → PlanEntry → Bool
startable completed active p =
    not (contains completed p.id)
    && (not (contains active p.id) && all_completed p.blocks_on completed)

-- The first n of a list.
abbrev pub first_of {ℓ} : {A : Type ℓ} → ℕ → List A → List A
first_of zero l = []
first_of (suc n) [] = []
first_of (suc n) (x ∷ l) = x ∷ first_of n l

first_of-none {ℓ} : {A : Type ℓ} (n : ℕ) (l : List A) → n ≡ 0 → first_of n l ≡ []
first_of-none zero l h = refl
first_of-none (suc n) l h = absurd (omega arith)

first_of-next {ℓ} :
    {A : Type ℓ} (n m : ℕ) (x : A) (l : List A) → n ≡ suc m → first_of n (x ∷ l) ≡ x ∷ first_of m l
first_of-next zero m x l h = absurd (omega arith)
first_of-next (suc n) m x l h = let e : n ≡ m = omega arith in rw e refl

first_of-nil {ℓ} : {A : Type ℓ} (n : ℕ) → first_of {A = A} n [] ≡ []
first_of-nil zero = refl
first_of-nil (suc n) = refl

length-first_of {ℓ} : {A : Type ℓ} (n : ℕ) (l : List A) → length (first_of n l) ≤ n
length-first_of zero l = omega arith
length-first_of (suc n) [] = omega arith
length-first_of (suc n) (x ∷ l) = omega (arith, length-first_of n l)

considered_lem :
    (completed active : IdSet) (p : PlanEntry) (ready : List PlanEntry)
    → considered completed active p ready
      ≡ (if startable completed active p then ready ++ p ∷ [] else ready)
unfolding considered
considered_lem completed active p ready = ground arith

ready_from_lem :
    (slots : ℕ) (completed active : IdSet) (ready plans : List PlanEntry)
    → length ready ≤ slots
    → ready_from slots completed active ready plans
      ≡ ready ++ first_of (slots - length ready) (select (startable completed active) plans)
unfolding ready_from
ready_from_lem slots completed active ready [] h =
    rw (first_of-nil (slots - length ready)) (sym (append-nil ready))
ready_from_lem slots completed active ready (p ∷ plans) h =
    elim (Bool-cases (leb slots (length ready))) [
      | inl full ↦
          let none_left : slots - length ready ≡ 0 = ground arith in
          rw
            (
              full,
              first_of-none (slots - length ready) (select (startable completed active) (p ∷ plans))
                  none_left,
            )
            (sym (append-nil ready))
      | inr room ↦ elim (Bool-cases (startable completed active p)) [
        | inl starts ↦
            let longer = length-append ready (p ∷ []) in
            let one_less : slots - length ready ≡ suc (slots - length (ready ++ p ∷ [])) =
              ground (arith, longer) in
            let ih =
              ready_from_lem slots completed active (ready ++ p ∷ []) plans
                (ground (arith, longer)) in
            let tail_of =
              first_of (slots - length (ready ++ p ∷ []))
                (select (startable completed active) plans) in
            rw (room, starts, considered_lem completed active p ready, starts)
              (ih
                ∙ append_assoc ready (p ∷ []) tail_of
                ∙ ap (λ l. ready ++ l)
                    (sym (
                      first_of-next (slots - length ready) (slots - length (ready ++ p ∷ [])) p
                        (select (startable completed active) plans) one_less)))
        | inr skipped ↦
            rw (room, skipped, considered_lem completed active p ready, skipped)
              (ready_from_lem slots completed active ready plans h)
      ]
    ]

ready_of_lem :
    (slots : ℕ) (completed active : IdSet) (m : PlanManifest)
    → ready_of (some m) slots completed active
      ≡ first_of slots (select (startable completed active) m.plans)
ready_of_lem slots completed active m = elim (Bool-cases (eqb slots 0)) [
  | inl e ↦
      rw (e, first_of-none slots (select (startable completed active) m.plans) (ground arith)) refl
  | inr e ↦
      let unused : slots - 0 ≡ slots = omega arith in
      rw e (
        ready_from_lem slots completed active [] m.plans (omega arith)
        ∙ ap (λ n. first_of n (select (startable completed active) m.plans)) unused)
]

-- ReadyPlans returns the first plans of the manifest, in its order, that are not completed, not
-- active and wait only for completed plans: as many as the cap leaves free beside the entries of
-- the active map.
pub ready_plans_lem :
    (s : DagScheduler) (m : PlanManifest) (completed active : IdSet)
    → s.manifest ≡ some m
    → ready_plans s completed active
      ≡ first_of
          (max_parallel_plans s - length active)
          (select (startable completed active) m.plans)
unfolding ready_plans max_parallel_plans
ready_plans_lem s m completed active h =
    rw h (ready_of_lem (max_parallel_plans s - length active) completed active m)

ready_of_bound :
    (slots : ℕ) (completed active : IdSet) (o : Option PlanManifest)
    → length (ready_of o slots completed active) ≤ slots
ready_of_bound slots completed active none = omega arith
ready_of_bound slots completed active (some m) =
    rw (ready_of_lem slots completed active m)
      (length-first_of slots (select (startable completed active) m.plans))

-- The plans that ReadyPlans returns and those that are active are together at most as many as the
-- cap, unless that many or more are active already, and then it returns none.
pub ready_plans_cap :
    (s : DagScheduler) (completed active : IdSet)
    → length active + length (ready_plans s completed active)
      ≤ max (max_parallel_plans s) (length active)
unfolding ready_plans
ready_plans_cap s completed active =
    ground
      (arith, ready_of_bound (max_parallel_plans s - length active) completed active s.manifest)
