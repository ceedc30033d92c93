-- ===== src/Manifest/Validate.antt =====
-- What Validate guarantees of a manifest that it accepts.
use coworker.Prelude.{
  ◌≡◌, ◌≢◌, refl, Bool, true, false, ◌||◌, List, [], ◌∷◌, arith, eq_iff, any, All, inl, inr,
  Result-cases, ok,
}
use coworker.Manifest.Integers.{ℤ, positive, eqz, eqz_iff}
use coworker.Manifest.Schema.{
  PlanEntry, PlanManifest, seen, check_entries, check_deps, check_references, MapOrder, validate,
}

-- `plans[i].id`, for some i.
abbrev pub known : ℤ → List PlanEntry → Bool
known id = any (λ (p : PlanEntry). eqz p.id id)

-- What the first loop checks of each plan, and what comes after it.
abbrev pub AreProper : List PlanEntry → Type 0
AreProper [] = Unit
AreProper (p ∷ ps) =
    (positive p.id ≡ true) × (p.title ≢ "") × (known p.id ps ≡ false) × AreProper ps

entries_seen :
    (ids out : List ℤ) (ps : List PlanEntry) (id : ℤ)
    → check_entries ids ps ≡ ok out
    → seen id out ≡ seen id ids || known id ps
unfolding check_entries
entries_seen ids out [] id h = ground arith
entries_seen ids out (p ∷ ps) id h = ground (arith, entries_seen (p.id ∷ ids) out ps id)

entries_fresh :
    (ids out : List ℤ) (ps : List PlanEntry) (id : ℤ)
    → check_entries ids ps ≡ ok out
    → seen id ids ≡ true
    → known id ps ≡ false
unfolding check_entries
entries_fresh ids out [] id h s = refl
entries_fresh ids out (p ∷ ps) id h s =
    ground (arith, eqz_iff p.id id, entries_fresh (p.id ∷ ids) out ps id)

entries-AreProper :
    (ids out : List ℤ) (ps : List PlanEntry) → check_entries ids ps ≡ ok out → AreProper ps
unfolding check_entries
entries-AreProper ids out [] h = tt
entries-AreProper ids out (p ∷ ps) h =
    let rest : check_entries (p.id ∷ ids) ps ≡ ok out = ground arith in
    let same = (eqz_iff p.id p.id).1 refl in
    (
      ground arith,
      ground (arith, eq_iff p.title ""),
      entries_fresh (p.id ∷ ids) out ps p.id rest (ground arith),
      entries-AreProper (p.id ∷ ids) out ps rest,
    )

abbrev pub AreKnown : List PlanEntry → List ℤ → Type 0
AreKnown plans = All (λ (dep : ℤ). known dep plans ≡ true)

deps-AreKnown :
    (plans : List PlanEntry) (ids deps : List ℤ)
    → ((id : ℤ) → seen id ids ≡ known id plans)
    → check_deps ids deps ≡ ok tt
    → AreKnown plans deps
unfolding check_deps
deps-AreKnown plans ids [] same h = tt
deps-AreKnown plans ids (dep ∷ deps) same h =
    (ground (arith, same dep), deps-AreKnown plans ids deps same (ground arith))

references-AreKnown :
    (plans : List PlanEntry) (ids : List ℤ) (ps : List PlanEntry)
    → ((id : ℤ) → seen id ids ≡ known id plans)
    → check_references ids ps ≡ ok tt
    → All (λ (p : PlanEntry). AreKnown plans p.blocks_on) ps
unfolding check_references
references-AreKnown plans ids [] same h = tt
references-AreKnown plans ids (p ∷ ps) same h = (
  deps-AreKnown plans ids p.blocks_on same (ground arith),
  references-AreKnown plans ids ps same (ground arith),
)

-- A manifest that Validate accepts, whatever the order in which the map is visited, names a spec,
-- has a plan, has only plans with a positive id that no other plan has and with a title, and each
-- of them blocks only on plans of the manifest.
pub validate_sound :
    (order : MapOrder) (m : PlanManifest)
    → validate order m ≡ ok tt
    → (m.spec_path ≢ "")
      × (m.plans ≢ [])
      × AreProper m.plans
      × All (λ (p : PlanEntry). AreKnown m.plans p.blocks_on) m.plans
unfolding validate
validate_sound order m h = elim (Result-cases (check_entries [] m.plans)) [
  | inl (ids, e) ↦
      let rest : check_references ids m.plans ≡ ok tt = ground arith in
      (
        ground (arith, eq_iff m.spec_path ""),
        ground arith,
        entries-AreProper [] ids m.plans e,
        references-AreKnown m.plans ids m.plans (λ id. entries_seen [] ids m.plans id e) rest,
      )
  | inr (x, e) ↦ absurd (ground arith)
]
