-- ===== src/Store/History/Immutable.antt =====
-- A finding after any history: it stays, as it was written, and is resolved at most once.
pub mod Operations
use coworker.Prelude.{
  ℕ, String, ◌≡◌, refl, sym, ◌∙◌, ap, subst, Bool, true, false, ◌&&◌, Option, none, some, List, [],
  ◌∷◌, ◌++◌, arith, ◌==◌, eq_iff, find, if◌then◌else◌, update_where, Result, ok, err, Bool-cases,
  inl, inr,
}
use coworker.Core.{Event}
use coworker.Core.Jobs.{JobState, Finding}
use coworker.Store.Schema.{
  DispatchRow, JobRow, FindingRow, Db, Faults, Error, dispatch_id, job_key, finding_key, Outcome,
}
use coworker.Store.Rows.{row, row-update_where, changed}
use coworker.Store.Events.{write_event_then_row, publish}
use coworker.Store.Events.Log.{logged, write_rule}
use coworker.Store.Dispatches.{
  QueueOrder, is_null, insert_dispatch, enqueue_dispatch, lease_dispatch, claim_found,
  claim_next_dispatch, finish_dispatch, complete_found, complete_dispatch,
}
use coworker.Store.Replay.Operations.{claimed-db}
use coworker.Store.Findings.{
  unresolved, resolved, insert_finding_row, insert_finding, resolve_row, resolve_found,
  resolve_finding,
}

-- What may become of a finding: the two columns of its resolution change, and only if it has none.
pub record Kept (r s : FindingRow) : Type 0 where
  pub content :
      s ≡ record r { resolved_by_job_id = s.resolved_by_job_id; resolved_at = s.resolved_at }
  pub final : unresolved r ≡ false → s ≡ r

Kept-refl : (r : FindingRow) → Kept r r
Kept-refl r = record { content = refl; final = λ _. refl }

Kept-trans : (r s t : FindingRow) → Kept r s → Kept s t → Kept r t
Kept-trans r s t h k = record {
  content =
      k.content
      ∙ ap
          (λ (x : FindingRow). record x {
            resolved_by_job_id = t.resolved_by_job_id;
            resolved_at = t.resolved_at;
          })
          h.content;
  final = λ e. k.final (rw (h.final e) e) ∙ h.final e;
}

-- Every finding of the first table is kept in the second.
pub Keeps : List FindingRow → List FindingRow → Type 0
Keeps rows rows' =
    (id : String) (r : FindingRow)
    → row finding_key id rows ≡ some r
    → (s : FindingRow) × (row finding_key id rows' ≡ some s) × Kept r s

pub Keeps-refl : (rows : List FindingRow) → Keeps rows rows
unfolding Keeps
Keeps-refl rows id r h = (r, h, Kept-refl r)

pub Keeps-same : (rows rows' : List FindingRow) → rows' ≡ rows → Keeps rows rows'
Keeps-same rows rows' h = subst (Keeps rows) (sym h) (Keeps-refl rows)

pub Keeps-trans : (a b c : List FindingRow) → Keeps a b → Keeps b c → Keeps a c
unfolding Keeps
Keeps-trans a b c h k id r e =
    let (s, f, p) = h id r e in let (t, g, q) = k id s f in (t, g, Kept-trans r s t p q)

row-append_found :
    (rows : List FindingRow) (x r : FindingRow) (id : String)
    → row finding_key id rows ≡ some r
    → row finding_key id (rows ++ x ∷ []) ≡ some r
row-append_found [] x r id h = absurd (cc)
row-append_found (y ∷ rows) x r id h = ground (arith, row-append_found rows x r id)

pub Keeps-append : (rows : List FindingRow) (x : FindingRow) → Keeps rows (rows ++ x ∷ [])
unfolding Keeps
Keeps-append rows x id r h = (r, row-append_found rows x r id h, Kept-refl r)

resolved_once :
    (now : ℕ) (id job_id : String) (r : FindingRow)
    → Kept r (if finding_key r == id && unresolved r then resolved now job_id r else r)
unfolding resolved
resolved_once now id job_id r = elim (Bool-cases (finding_key r == id && unresolved r)) [
  | inl e ↦ rw e (record { content = refl; final = λ h. absurd (ground (arith)) })
  | inr e ↦ rw e (Kept-refl r)
]

pub Keeps-resolve :
    (now : ℕ) (id job_id : String) (rows : List FindingRow)
    → Keeps rows
        (update_where (λ r. finding_key r == id && unresolved r) (resolved now job_id) rows)
unfolding Keeps resolved
Keeps-resolve now id job_id rows j r h = (
  if finding_key r == id && unresolved r then resolved now job_id r else r,
  row-update_where finding_key (λ x. finding_key x == id && unresolved x) (resolved now job_id)
        (λ x. refl) j rows
      ∙ rw h refl,
  resolved_once now id job_id r,
)

-- A projection that keeps the findings.
abbrev pub KeepsFindings : (Db → Result Error Db) → Type 0
KeepsFindings apply_fn = (db p : Db) → apply_fn db ≡ ok p → Keeps db.findings p.findings

pub write-Keeps :
    (f : Faults) (e : Event) (apply_fn : Db → Result Error Db) (db : Db)
    → KeepsFindings apply_fn
    → Keeps db.findings (write_event_then_row f e apply_fn db).1.findings
unfolding publish
write-Keeps f e apply_fn db keeps =
    write_rule (λ s. Keeps db.findings s.findings) f e apply_fn db (Keeps-refl db.findings)
      (λ p a. keeps (logged e db) p a)
