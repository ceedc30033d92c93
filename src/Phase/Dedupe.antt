-- ===== src/Phase/Dedupe.antt =====
-- What DedupeFindings returns.
use coworker.Prelude.{
  String, ◌≡◌, false, not, ◌&&◌, Option, none, some, List, [], ◌∷◌, ◌++◌, ◌==◌, if◌then◌else◌, find,
}
use coworker.Core.Jobs.{Finding}
use coworker.Phase.Merge.{keyed, add_source}

-- The jobs that report a fingerprint, in the order of their findings.
abbrev pub jobs_of : String → List Finding → List String
jobs_of key [] = []
jobs_of key (f ∷ findings) =
    let rest = jobs_of key findings in
    if f.fingerprint == key && not (f.job_id == "") then f.job_id ∷ rest else rest

abbrev pub with_sources : Option Finding → List String → Option Finding
with_sources none jobs = none
with_sources (some f) jobs = some (record f { source_job_ids = jobs })

-- The finding that is to stand for a fingerprint: the first one, with the jobs of all.
abbrev pub canonical : String → List Finding → Option Finding
canonical key findings =
    with_sources (find (λ (f : Finding). f.fingerprint == key) findings) (jobs_of key findings)

at_key : String → List Finding → Option Finding
at_key key = find (λ (f : Finding). f.fingerprint == key)

-- What the findings still to come make of the one that stands for a fingerprint so far.
extended : Option Finding → String → List Finding → Option Finding
extended none key findings = canonical key findings
extended (some g) key findings =
    some (record g { source_job_ids = g.source_job_ids ++ jobs_of key findings })

merged : Option Finding → Finding → Option Finding
merged none f =
    some (record f { source_job_ids = if not (f.job_id == "") then f.job_id ∷ [] else [] })
merged (some g) f = some (add_source f g)

-- No fingerprint occurs twice.
abbrev pub AreDistinct : List Finding → Type 0
AreDistinct [] = Unit
AreDistinct (f ∷ out) = (keyed f.fingerprint out ≡ false) × AreDistinct out
