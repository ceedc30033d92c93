-- ===== src/Tests/Registry.antt =====
-- An order of the registry: insertion by the time of registration.
use mathlib.Core.List.{Perm}
use mathlib.Core.List.Perm
use coworker.Prelude.{ℕ, ◌≤◌, List, [], ◌∷◌, arith, leb, if◌then◌else◌, All, Bool-cases, inl, inr}
use coworker.Store.Schema.{WorkerRow}
use coworker.Store.Workers.{IsByAge, RegistryOrder}

insert : WorkerRow → List WorkerRow → List WorkerRow
insert r [] = r ∷ []
insert r (o ∷ rows) =
    let rest = insert r rows in
    if leb r.registered_at o.registered_at then r ∷ o ∷ rows else o ∷ rest

unfoldable pub by_age : List WorkerRow → List WorkerRow
unfolding insert
by_age [] = []
by_age (r ∷ rows) = insert r (by_age rows)

abbrev NotBefore : ℕ → List WorkerRow → Type 0
NotBefore t = All (λ (o : WorkerRow). t ≤ o.registered_at)

NotBefore-mono : (t u : ℕ) (rows : List WorkerRow) → t ≤ u → NotBefore u rows → NotBefore t rows
NotBefore-mono t u [] h a = tt
NotBefore-mono t u (x ∷ rows) h a = (omega arith, NotBefore-mono t u rows h a.1)

insert-NotBefore :
    (t : ℕ) (r : WorkerRow) (rows : List WorkerRow)
    → t ≤ r.registered_at
    → NotBefore t rows
    → NotBefore t (insert r rows)
unfolding insert
insert-NotBefore t r [] h a = (h, tt)
insert-NotBefore t r (o ∷ rows) h a = elim (Bool-cases (leb r.registered_at o.registered_at)) [
  | inl e ↦ rw e (h, a)
  | inr e ↦ rw e (a.0, insert-NotBefore t r rows h a.1)
]

insert-IsByAge : (r : WorkerRow) (rows : List WorkerRow) → IsByAge rows → IsByAge (insert r rows)
unfolding insert
insert-IsByAge r [] s = (tt, tt)
insert-IsByAge r (o ∷ rows) s = elim (Bool-cases (leb r.registered_at o.registered_at)) [
  | inl e ↦
      let first : r.registered_at ≤ o.registered_at = ground arith in
      rw e ((first, NotBefore-mono r.registered_at o.registered_at rows first s.0), s)
  | inr e ↦
      let later : o.registered_at ≤ r.registered_at = ground arith in
      rw e (insert-NotBefore o.registered_at r rows later s.0, insert-IsByAge r rows s.1)
]

insert-Perm : (r : WorkerRow) (rows : List WorkerRow) → Perm (insert r rows) (r ∷ rows)
unfolding insert
insert-Perm r [] = Perm.refl (r ∷ [])
insert-Perm r (o ∷ rows) = elim (Bool-cases (leb r.registered_at o.registered_at)) [
  | inl e ↦ rw e (Perm.refl (r ∷ o ∷ rows))
  | inr e ↦ rw e (Perm.trans (Perm.cons o (insert-Perm r rows)) (Perm.swap r o rows))
]

pub by_age-IsByAge : (rows : List WorkerRow) → IsByAge (by_age rows)
unfolding by_age
by_age-IsByAge [] = tt
by_age-IsByAge (r ∷ rows) = insert-IsByAge r (by_age rows) (by_age-IsByAge rows)

pub by_age-Perm : (rows : List WorkerRow) → Perm (by_age rows) rows
unfolding by_age
by_age-Perm [] = Perm.refl []
by_age-Perm (r ∷ rows) = Perm.trans (insert-Perm r (by_age rows)) (Perm.cons r (by_age-Perm rows))

abbrev pub by_age_order : RegistryOrder
by_age_order = record {
  by_registration = by_age;
  by_registration_perm = by_age-Perm;
  by_registration_sorted = by_age-IsByAge;
}
