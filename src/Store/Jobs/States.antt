-- ===== src/Store/Jobs/States.antt =====
-- What a change of a job's state does to the table jobs.
use coworker.Prelude.{
  ℕ, String, ◌≡◌, refl, ◌∙◌, ap, subst, true, Option, none, some, arith, ◌==◌, eq_iff,
  if◌then◌else◌, update_where, ok, Bool-cases, inl, inr,
}
use coworker.Core.Jobs.{JobState, RunState}
use coworker.Store.Schema.{JobRow, Db, Faults, job_key, Outcome}
use coworker.Store.Rows.{row, row-key, row-update_where, changed}
use coworker.Store.Events.{publish}
use coworker.Store.Events.Log.{logged, write_ok, write_rule}
use coworker.Store.Runs.{set_run_state, run_completed_event, complete_run}
use coworker.Store.Jobs.{moved, set_job_state, job_state_event, update_found, update_job_state}

moved-key : (now : ℕ) (state : JobState) (r : JobRow) → job_key (moved now state r) ≡ job_key r
unfolding moved
moved-key now state r = ground arith

pub moved-state : (now : ℕ) (state : JobState) (r : JobRow) → (moved now state r).state ≡ state
unfolding moved
moved-state now state r = ground arith

-- What the UPDATE makes of the row of an id.
moved_row :
    (now : ℕ) (state : JobState) (job_id j : String) (o : Option JobRow) (r : JobRow)
    → ((x : JobRow) → o ≡ some x → job_key x ≡ j)
    → ((job_id == j) ≡ true → o ≡ some r)
    → changed job_key (λ x. job_key x == job_id) (moved now state) o
      ≡ (if job_id == j then some (moved now state r) else o)
moved_row now state job_id j none r k h = elim (Bool-cases (job_id == j)) [
  | inl e ↦ absurd (cc (h e))
  | inr e ↦ rw e refl
]
moved_row now state job_id j (some x) r k h = elim (Bool-cases (job_id == j)) [
  | inl e ↦
      (let same : x ≡ r = cc (h e) in
        ground (
          arith,
          k x refl,
          ap (moved now state) same,
          eq_iff job_id j,
          eq_iff (job_key x) job_id,
          e,
        ))
  | inr e ↦ ground (arith, k x refl, eq_iff job_id j, eq_iff (job_key x) job_id, e)
]

set_job_state_ok :
    (f : Faults) (now : ℕ) (job_id : String) (state : JobState) (db p : Db)
    → set_job_state f now job_id state db ≡ ok p
    → p.jobs ≡ update_where (λ r. job_key r == job_id) (moved now state) db.jobs
unfolding set_job_state
set_job_state_ok f now job_id state db p h = ground arith

update_found_ok :
    (f : Faults) (now : ℕ) (event_id job_id : String) (state : JobState) (o : Option JobRow)
    (db db' : Db)
    → update_found f now event_id job_id state o db ≡ (ok tt, db')
    → (r : JobRow) × (o ≡ some r)
      × (db'.jobs ≡ update_where (λ x. job_key x == job_id) (moved now state) db.jobs)
unfolding update_found publish
update_found_ok f now event_id job_id state none db db' h =
    absurd (cc (ap (λ (o : Outcome). o.0) h))
update_found_ok f now event_id job_id state (some r) db db' h =
    let e = job_state_event event_id now r.run_id job_id state in
    let (p, a, s) = write_ok f e (set_job_state f now job_id state) db db' h in
    (r, refl, ap (λ (x : Db). x.jobs) s ∙ set_job_state_ok f now job_id state (logged e db) p a)

update_job_state_ok :
    (f : Faults) (now : ℕ) (event_id job_id : String) (state : JobState) (db db' : Db)
    → update_job_state f now event_id job_id state db ≡ (ok tt, db')
    → (r : JobRow) × (row job_key job_id db.jobs ≡ some r)
      × (db'.jobs ≡ update_where (λ x. job_key x == job_id) (moved now state) db.jobs)
unfolding update_job_state
update_job_state_ok f now event_id job_id state db db' h =
    update_found_ok f now event_id job_id state (row job_key job_id db.jobs) db db' (ground arith)

pub update_job_state_lem :
    (f : Faults) (now : ℕ) (event_id job_id : String) (state : JobState) (db db' : Db)
    → update_job_state f now event_id job_id state db ≡ (ok tt, db')
    → (r : JobRow) × (row job_key job_id db.jobs ≡ some r)
      × ((j : String)
          → row job_key j db'.jobs
            ≡ (if job_id == j then some (moved now state r) else row job_key j db.jobs))
update_job_state_lem f now event_id job_id state db db' h =
    let (r, found, jobs) = update_job_state_ok f now event_id job_id state db db' h in
    (
      r,
      found,
      λ j.
          ap (row job_key j) jobs
          ∙ row-update_where job_key (λ x. job_key x == job_id) (moved now state)
              (moved-key now state) j db.jobs
          ∙ moved_row now state job_id j (row job_key j db.jobs) r
              (λ x e. row-key job_key j db.jobs e)
              (λ e. subst (λ k. row job_key k db.jobs ≡ some r) ((eq_iff job_id j).0 e) found),
    )

pub complete_run-jobs :
    (f : Faults) (now : ℕ) (event_id run_id : String) (state : RunState) (db : Db)
    → (complete_run f now event_id run_id state db).1.jobs ≡ db.jobs
unfolding complete_run set_run_state publish
complete_run-jobs f now event_id run_id state db =
    write_rule (λ s. s.jobs ≡ db.jobs) f (run_completed_event event_id now run_id state)
      (set_run_state f now run_id state) db refl (λ p a. ground arith)
