-- ===== src/Phase/Merge.antt =====
-- DedupeFindings keeps its list and its map in step, and together they stand for a list to which
-- findings are merged one by one.
use coworker.Prelude.{
  ℕ, suc, ◌+◌, String, ◌≡◌, refl, Bool, false, not, ◌||◌, none, List, [], ◌∷◌, ◌++◌, arith, ◌==◌,
  eq_iff, if◌then◌else◌, any, find, length, Bool-cases, inl, inr,
}
use coworker.Core.Jobs.{Finding}
use coworker.Phase.Fanin.{Group, set_jobs}

-- The list and the map of the loop as one list: the finding of a fingerprint at the first place
-- where it occurs.
abbrev pub keyed : String → List Finding → Bool
keyed key = any (λ (f : Finding). f.fingerprint == key)

abbrev pub add_source : Finding → Finding → Finding
add_source f g =
    if not (f.job_id == "")
    then record g { source_job_ids = g.source_job_ids ++ f.job_id ∷ [] }
    else g

-- The reference: a finding of a known fingerprint adds its job to the one that has it, another is
-- new.
abbrev pub merge_finding : Finding → List Finding → List Finding
merge_finding f [] =
    record f { source_job_ids = if not (f.job_id == "") then f.job_id ∷ [] else [] } ∷ []
merge_finding f (g ∷ out) =
    let rest = merge_finding f out in
    if g.fingerprint == f.fingerprint then add_source f g ∷ out else g ∷ rest

-- The map agrees with the list, from the place n on.
abbrev pub Agree : ℕ → List Finding → List Group → Type 0
Agree n [] [] = Unit
Agree n [] (g ∷ seen) = ⊥
Agree n (f ∷ out) [] = ⊥
Agree n (f ∷ out) (g ∷ seen) =
    (g.key ≡ f.fingerprint)
    × (g.idx ≡ n)
    × (g.source_jobs ≡ f.source_job_ids)
    × (keyed f.fingerprint out ≡ false)
    × Agree (suc n) out seen

keyed-append : (key : String) (a b : List Finding) → keyed key (a ++ b) ≡ keyed key a || keyed key b
keyed-append key [] b = refl
keyed-append key (x ∷ a) b = ground (arith, keyed-append key a b)

pub keyed-merge :
    (f : Finding) (out : List Finding) (key : String)
    → keyed key (merge_finding f out) ≡ keyed key out || f.fingerprint == key
keyed-merge f [] key = ground arith
keyed-merge f (g ∷ out) key = ground (
  arith,
  keyed-merge f out key,
  eq_iff g.fingerprint f.fingerprint,
  eq_iff f.fingerprint key,
  eq_iff g.fingerprint key,
)

pub merge_new :
    (f : Finding) (out : List Finding)
    → keyed f.fingerprint out ≡ false
    → merge_finding f out
      ≡ out ++ record f { source_job_ids = if not (f.job_id == "") then f.job_id ∷ [] else [] } ∷ []
merge_new f [] h = refl
merge_new f (g ∷ out) h =
    let ih = merge_new f out (ground arith) in
    let apart : g.fingerprint == f.fingerprint ≡ false = ground arith in rw (apart, ih) refl

pub find_keyed :
    (n : ℕ) (key : String) (out : List Finding) (seen : List Group)
    → Agree n out seen
    → find (λ g. g.key == key) seen ≡ none
    → keyed key out ≡ false
find_keyed n key [] [] a h = refl
find_keyed n key [] (g ∷ seen) a h = absurd a
find_keyed n key (f ∷ out) [] a h = absurd a
find_keyed n key (f ∷ out) (g ∷ seen) (k, i, s, u, a) h = elim (Bool-cases (f.fingerprint == key)) [
  | inl e ↦ absurd (cc (rw (k, e) at h))
  | inr e ↦ rw (e, find_keyed (suc n) key out seen a (rw (k, e) at h)) refl
]

pub Agree-append :
    (n : ℕ) (f : Finding) (g : Group) (out : List Finding) (seen : List Group)
    → Agree n out seen
    → keyed f.fingerprint out ≡ false
    → g.key ≡ f.fingerprint
    → g.idx ≡ n + length out
    → g.source_jobs ≡ f.source_job_ids
    → Agree n (out ++ f ∷ []) (seen ++ g ∷ [])
Agree-append n f g [] [] a u k i s = (k, omega arith, s, refl, tt)
Agree-append n f g [] (x ∷ seen) a u k i s = absurd a
Agree-append n f g (y ∷ out) [] a u k i s = absurd a
Agree-append n f g (y ∷ out) (x ∷ seen) (k', i', s', u', a) u k i s = (
  k',
  i',
  s',
  ground (
    arith,
    keyed-append y.fingerprint out (f ∷ []),
    eq_iff y.fingerprint f.fingerprint,
    eq_iff f.fingerprint y.fingerprint,
  ),
  Agree-append (suc n) f g out seen a (ground arith) k (omega arith) s,
)

pub set_jobs_absent :
    (n : ℕ) (key : String) (jobs : List String) (out : List Finding) (seen : List Group)
    → Agree n out seen
    → keyed key out ≡ false
    → set_jobs key jobs seen ≡ seen
unfolding set_jobs
set_jobs_absent n key jobs [] [] a h = refl
set_jobs_absent n key jobs [] (x ∷ seen) a h = absurd a
set_jobs_absent n key jobs (y ∷ out) [] a h = absurd a
set_jobs_absent n key jobs (y ∷ out) (x ∷ seen) (k, i, s, u, a) h =
    let apart : y.fingerprint == key ≡ false = ground arith in
    let ih = set_jobs_absent (suc n) key jobs out seen a (ground arith) in rw (k, apart, ih) refl
