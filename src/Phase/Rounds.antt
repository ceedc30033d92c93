-- ===== src/Phase/Rounds.antt =====
-- Each round of the loop of DedupeFindings is a merge of its finding.
use coworker.Prelude.{
  ℕ, zero, suc, ◌≤◌, String, ◌≡◌, refl, sym, ap, ◌∙◌, true, false, some, List, [], ◌∷◌, ◌++◌, map,
  arith, ◌==◌, eq_iff, find, length, Bool-cases, Option-cases, inl, inr, subst, ◌-◌,
}
use coworker.Core.Jobs.{Finding}
use coworker.Phase.Fanin.{
  Group, set_sources, set_jobs, with_fingerprint, own_job, dedupe_found, dedupe_step, dedupe_from,
}
use coworker.Phase.Merge.{
  keyed, merge_finding, Agree, keyed-merge, merge_new, find_keyed, Agree-append, set_jobs_absent,
}

find_key :
    (key : String) (g : Group) (seen : List Group)
    → find (λ x. x.key == key) seen ≡ some g
    → g.key ≡ key
find_key key g [] h = absurd (cc)
find_key key g (x ∷ seen) h = elim (Bool-cases (x.key == key)) [
  | inl e ↦
      let same : x ≡ g = cc (rw e at h) in
      ap (λ (y : Group). y.key) (sym same) ∙ (eq_iff x.key key).0 e
  | inr e ↦ find_key key g seen (rw e at h)
]

set_sources_next :
    (m i : ℕ) (jobs : List String) (x : Finding) (out : List Finding)
    → m ≡ suc i
    → set_sources m jobs (x ∷ out) ≡ x ∷ set_sources i jobs out
unfolding set_sources
set_sources_next zero i jobs x out h = absurd (omega arith)
set_sources_next (suc m) i jobs x out h = let e : m ≡ i = omega arith in rw e refl

set_sources_here :
    (m : ℕ) (jobs : List String) (x : Finding) (out : List Finding)
    → m ≡ 0
    → set_sources m jobs (x ∷ out) ≡ record x { source_job_ids = jobs } ∷ out
unfolding set_sources
set_sources_here zero jobs x out h = refl
set_sources_here (suc m) jobs x out h = absurd (omega arith)

-- A repeated finding with a job: the list and the map are updated in step.
found-Agree :
    (n : ℕ) (f : Finding) (g : Group) (out : List Finding) (seen : List Group)
    → Agree n out seen
    → find (λ x. x.key == f.fingerprint) seen ≡ some g
    → f.job_id == "" ≡ false
    → (n ≤ g.idx)
      × (set_sources (g.idx - n) (g.source_jobs ++ f.job_id ∷ []) out ≡ merge_finding f out)
      × Agree n (merge_finding f out) (set_jobs f.fingerprint (g.source_jobs ++ f.job_id ∷ []) seen)
unfolding set_jobs
found-Agree n f g [] [] a h job = absurd (cc)
found-Agree n f g [] (x ∷ seen) a h job = absurd a
found-Agree n f g (y ∷ out) [] a h job = absurd a
found-Agree n f g (y ∷ out) (x ∷ seen) (k, i, s, u, a) h job =
    elim (Bool-cases (y.fingerprint == f.fingerprint)) [
      | inl e ↦
          let same : x ≡ g = cc (rw (k, e) at h) in
          let key : y.fingerprint ≡ f.fingerprint = (eq_iff y.fingerprint f.fingerprint).0 e in
          let jobs = x.source_jobs ++ f.job_id ∷ [] in
          let zero_at : x.idx - n ≡ 0 = omega (arith, i) in
          let jobs_y : jobs ≡ y.source_job_ids ++ f.job_id ∷ [] = ap (λ l. l ++ f.job_id ∷ []) s in
          subst
            (λ (z : Group).
              (n ≤ z.idx)
              × (set_sources (z.idx - n) (z.source_jobs ++ f.job_id ∷ []) (y ∷ out)
                  ≡ merge_finding f (y ∷ out))
              × Agree n (merge_finding f (y ∷ out))
                  (set_jobs f.fingerprint (z.source_jobs ++ f.job_id ∷ []) (x ∷ seen)))
            same
            (
              omega (arith, i),
              set_sources_here (x.idx - n) jobs y out zero_at ∙ (rw (e, job, jobs_y) refl),
              (let absent = set_jobs_absent (suc n) f.fingerprint jobs out seen a (rw key at u) in
                  let x_key : x.key == f.fingerprint ≡ true = rw k e in
                  rw (x_key, e, job)
                    (k, i, jobs_y, u, subst (λ l. Agree (suc n) out l) (sym absent) a)),
            )
      | inr e ↦
          let (l, eq, rest) = found-Agree (suc n) f g out seen a (rw (k, e) at h) job in
          (
            omega (arith, l),
            set_sources_next (g.idx - n) (g.idx - suc n) (g.source_jobs ++ f.job_id ∷ []) y out
                  (omega (arith, l))
                ∙ (rw (e, eq) refl),
            (let x_key : x.key == f.fingerprint ≡ false = rw k e in
                rw (x_key, e)
                  (
                    k,
                    i,
                    s,
                    ground (
                      arith,
                      keyed-merge f out y.fingerprint,
                      eq_iff y.fingerprint f.fingerprint,
                      eq_iff f.fingerprint y.fingerprint,
                    ),
                    rest,
                  )),
          )
    ]

found_keyed :
    (n : ℕ) (key : String) (g : Group) (out : List Finding) (seen : List Group)
    → Agree n out seen
    → find (λ x. x.key == key) seen ≡ some g
    → keyed key out ≡ true
found_keyed n key g [] [] a h = absurd (cc)
found_keyed n key g [] (x ∷ seen) a h = absurd a
found_keyed n key g (y ∷ out) [] a h = absurd a
found_keyed n key g (y ∷ out) (x ∷ seen) (k, i, s, u, a) h =
    elim (Bool-cases (y.fingerprint == key)) [
      | inl e ↦ rw e refl
      | inr e ↦ rw (e, found_keyed (suc n) key g out seen a (rw (k, e) at h)) refl
    ]

merge_silent :
    (f : Finding) (out : List Finding)
    → keyed f.fingerprint out ≡ true
    → f.job_id == "" ≡ true
    → merge_finding f out ≡ out
merge_silent f [] h job = absurd (cc)
merge_silent f (y ∷ out) h job = elim (Bool-cases (y.fingerprint == f.fingerprint)) [
  | inl e ↦ rw (e, job) refl
  | inr e ↦ rw (e, merge_silent f out (rw e at h) job) refl
]

-- The state of the loop stands for the reference's list.
unfoldable pub Stands : List Finding → List Finding × List Group → Type 0
Stands out state = (state.0 ≡ out) × Agree 0 state.0 state.1

step-Stands :
    (compute_fingerprint : Finding → String) (f : Finding) (out : List Finding) (seen : List Group)
    → Agree 0 out seen
    → Stands (merge_finding f out) (dedupe_step compute_fingerprint f (out, seen))
unfolding Stands dedupe_step dedupe_found
step-Stands c f out seen a = elim (Option-cases (find (λ x. x.key == f.fingerprint) seen)) [
  | inl e ↦
      let new = merge_new f out (find_keyed 0 f.fingerprint out seen a e) in
      rw (e, new)
        (
          refl,
          Agree-append 0 (record f { source_job_ids = own_job c f })
              (record { key = f.fingerprint; idx = length out; source_jobs = own_job c f }) out seen
              a (find_keyed 0 f.fingerprint out seen a e) refl (omega arith) refl,
        )
  | inr (g, e) ↦ elim (Bool-cases (f.job_id == "")) [
    | inl job ↦
        let same = merge_silent f out (found_keyed 0 f.fingerprint g out seen a e) job in
        rw (e, job, same) (refl, a)
    | inr job ↦
        let (_, eq, rest) = found-Agree 0 f g out seen a e job in
        let here : g.idx - 0 ≡ g.idx = omega arith in
        let key = find_key f.fingerprint g seen e in
        let jobs = g.source_jobs ++ f.job_id ∷ [] in
        rw (e, job)
          (
            ap (λ k. set_sources k jobs out) (sym here) ∙ eq,
            subst (λ k. Agree 0 (set_sources g.idx jobs out) (set_jobs k jobs seen)) (sym key)
                (subst (λ l. Agree 0 l (set_jobs f.fingerprint jobs seen))
                  (sym (ap (λ k. set_sources k jobs out) (sym here) ∙ eq)) rest),
          )
  ]
]

unfoldable pub merge_all : List Finding → List Finding → List Finding
merge_all out [] = out
merge_all out (f ∷ findings) = merge_all (merge_finding f out) findings

pub from-Stands :
    (compute_fingerprint : Finding → String) (findings out : List Finding)
    (state : List Finding × List Group)
    → Stands out state
    → Stands
        (merge_all out (map (with_fingerprint compute_fingerprint) findings))
        (dedupe_from compute_fingerprint state findings)
unfolding Stands merge_all dedupe_from
from-Stands c [] out state h = h
from-Stands c (f ∷ findings) out (out', seen) (e, a) =
    let f' = with_fingerprint c f in
    let step = step-Stands c f' out' seen a in
    from-Stands c findings (merge_finding f' out) (dedupe_step c f' (out', seen))
      (step.0 ∙ ap (merge_finding f') e, step.1)
