-- ===== src/Store/History/Elsewhere.antt =====
-- The writes about runs, jobs, findings and verdicts touch neither the queue nor the registry.
use coworker.Prelude.{ℕ, String, ◌≡◌, refl, Option, none, some, arith, Result, ok}
use coworker.Manifest.Integers.{ℤ}
use coworker.Core.{Event}
use coworker.Core.Jobs.{
  Run, RunState, Job, JobState, pending, dispatched, running, complete, failed, cancelled, Finding,
  AttentionItem,
}
use coworker.Supervisor.{RuleResult}
use coworker.Store.Schema.{
  RunRow, JobRow, FindingRow, SupervisorRow, Db, Faults, Error, job_key, finding_key,
}
use coworker.Store.Rows.{row}
use coworker.Store.Events.{write_event_then_row}
use coworker.Store.Events.Log.{write-IsNumbered}
use coworker.Store.Runs.{
  run_event, run_row, insert_run, run_created_event, create_run, set_run_state, run_completed_event,
  complete_run,
}
use coworker.Store.Jobs.{
  job_row, insert_job, job_created_event, create_job, job_event_kind, set_job_state,
  job_state_event, update_found, update_job_state,
}
use coworker.Store.Findings.{
  fingerprinted, finding_row, insert_finding_row, finding_created_event, insert_finding,
  resolve_row, finding_resolved_event, resolve_found, resolve_finding, supervisor_row,
  insert_verdict, verdict_event, record_verdict,
}
use coworker.Store.Attention.{
  insert_attention, insert_attention_row, answer_attention, resolve_attention,
}
use coworker.Store.History.{IsForeign}
use coworker.Store.History.Footprint.{write_off_roll, write_off_queue, same_roll, same_queue}
use coworker.Store.History.Consistency.{IsConsistent}

-- The projection leaves the log, the queue and the registry alone.
abbrev Elsewhere : (Db → Result Error Db) → Type 0
Elsewhere apply_fn =
    (db p : Db)
    → apply_fn db ≡ ok p
    → (p.events ≡ db.events) × (p.dispatches ≡ db.dispatches) × (p.workers ≡ db.workers)

pub write-Elsewhere :
    (f : Faults) (e : Event) (apply_fn : Db → Result Error Db) (db : Db)
    → IsForeign e.kind
    → Elsewhere apply_fn
    → IsConsistent db
    → IsConsistent (write_event_then_row f e apply_fn db).1
write-Elsewhere f e apply_fn db foreign only h = record {
  numbered = write-IsNumbered f e apply_fn db (λ s t a. (only s t a).0) h.numbered;
  projected =
      write_off_queue f e apply_fn db foreign.dispatches (λ s t a. ((only s t a).0, (only s t a).1))
        h.projected;
  tracked =
      write_off_roll f e apply_fn db foreign.workers (λ s t a. ((only s t a).0, (only s t a).2))
        h.tracked;
}

pub log-IsConsistent :
    (f : Faults) (e : Event) (db : Db)
    → IsForeign e.kind
    → IsConsistent db
    → IsConsistent (write_event_then_row f e ok db).1
log-IsConsistent f e db foreign = write-Elsewhere f e ok db foreign (λ s p a. (cc, cc, cc))

-- A change outside the log, the queue and the registry.
same_elsewhere :
    (db p : Db)
    → (p.events ≡ db.events) × (p.dispatches ≡ db.dispatches) × (p.workers ≡ db.workers)
    → IsConsistent db
    → IsConsistent p
same_elsewhere db p (log, queue, roll) h = record {
  numbered = rw log h.numbered;
  projected = same_queue db p log queue h.projected;
  tracked = same_roll db p log roll h.tracked;
}

module _ (f : Faults) where
  pub insert_attention-IsConsistent :
      (now : ℕ) (fresh_id : String) (item : AttentionItem) (db : Db)
      → IsConsistent db
      → IsConsistent (insert_attention f now fresh_id item db).1
  unfolding insert_attention insert_attention_row
  insert_attention-IsConsistent now fresh_id item db =
      same_elsewhere db _ (ground arith, ground arith, ground arith)

  pub answer_attention-IsConsistent :
      (id text by : String) (db : Db)
      → IsConsistent db
      → IsConsistent (answer_attention f id text by db).1
  unfolding answer_attention
  answer_attention-IsConsistent id text by db =
      same_elsewhere db _ (ground arith, ground arith, ground arith)

  pub resolve_attention-IsConsistent :
      (now : ℕ) (id : String) (db : Db)
      → IsConsistent db
      → IsConsistent (resolve_attention f now id db).1
  unfolding resolve_attention
  resolve_attention-IsConsistent now id db =
      same_elsewhere db _ (ground arith, ground arith, ground arith)

  insert_run-Elsewhere : (r : RunRow) → Elsewhere (insert_run f r)
  unfolding insert_run
  insert_run-Elsewhere r db p a = ground arith

  set_run_state-Elsewhere :
      (now : ℕ) (id : String) (s : RunState) → Elsewhere (set_run_state f now id s)
  unfolding set_run_state
  set_run_state-Elsewhere now id s db p a = ground arith

  insert_job-Elsewhere : (r : JobRow) → Elsewhere (insert_job f r)
  unfolding insert_job
  insert_job-Elsewhere r db p a = ground arith

  set_job_state-Elsewhere :
      (now : ℕ) (id : String) (s : JobState) → Elsewhere (set_job_state f now id s)
  unfolding set_job_state
  set_job_state-Elsewhere now id s db p a = ground arith

  insert_finding_row-Elsewhere : (r : FindingRow) → Elsewhere (insert_finding_row f r)
  unfolding insert_finding_row
  insert_finding_row-Elsewhere r db p a = ground arith

  resolve_row-Elsewhere : (now : ℕ) (id job_id : String) → Elsewhere (resolve_row f now id job_id)
  unfolding resolve_row
  resolve_row-Elsewhere now id job_id db p a = ground arith

  insert_verdict-Elsewhere : (r : SupervisorRow) → Elsewhere (insert_verdict f r)
  unfolding insert_verdict
  insert_verdict-Elsewhere r db p a = ground arith

  job_event_kind-IsForeign : (s : JobState) → IsForeign (job_event_kind s)
  unfolding job_event_kind
  job_event_kind-IsForeign pending = record { dispatches = λ _. refl; workers = λ _. refl }
  job_event_kind-IsForeign dispatched = record { dispatches = λ _. refl; workers = λ _. refl }
  job_event_kind-IsForeign running = record { dispatches = λ _. refl; workers = λ _. refl }
  job_event_kind-IsForeign complete = record { dispatches = λ _. refl; workers = λ _. refl }
  job_event_kind-IsForeign failed = record { dispatches = λ _. refl; workers = λ _. refl }
  job_event_kind-IsForeign cancelled = record { dispatches = λ _. refl; workers = λ _. refl }

  pub create_run-IsConsistent :
      (event_id : String) (run : Run) (db : Db)
      → IsConsistent db
      → IsConsistent (create_run f event_id run db).1
  unfolding create_run run_created_event run_event
  create_run-IsConsistent event_id run db =
      write-Elsewhere f (run_created_event event_id run) (insert_run f (run_row run)) db
        (record { dispatches = λ _. refl; workers = λ _. refl })
        (insert_run-Elsewhere (run_row run))

  pub complete_run-IsConsistent :
      (now : ℕ) (event_id run_id : String) (state : RunState) (db : Db)
      → IsConsistent db
      → IsConsistent (complete_run f now event_id run_id state db).1
  unfolding complete_run run_completed_event run_event
  complete_run-IsConsistent now event_id run_id state db =
      write-Elsewhere f (run_completed_event event_id now run_id state)
        (set_run_state f now run_id state) db
        (record { dispatches = λ _. refl; workers = λ _. refl })
        (set_run_state-Elsewhere now run_id state)

  pub create_job-IsConsistent :
      (event_id : String) (job : Job) (db : Db)
      → IsConsistent db
      → IsConsistent (create_job f event_id job db).1
  unfolding create_job job_created_event run_event
  create_job-IsConsistent event_id job db =
      write-Elsewhere f (job_created_event event_id job) (insert_job f (job_row job)) db
        (record { dispatches = λ _. refl; workers = λ _. refl })
        (insert_job-Elsewhere (job_row job))

  update_found-IsConsistent :
      (now : ℕ) (event_id job_id : String) (state : JobState) (o : Option JobRow) (db : Db)
      → IsConsistent db
      → IsConsistent (update_found f now event_id job_id state o db).1
  unfolding update_found job_state_event run_event
  update_found-IsConsistent now event_id job_id state none db h = h
  update_found-IsConsistent now event_id job_id state (some r) db h =
      write-Elsewhere f (job_state_event event_id now r.run_id job_id state)
        (set_job_state f now job_id state) db (job_event_kind-IsForeign state)
        (set_job_state-Elsewhere now job_id state) h

  pub update_job_state-IsConsistent :
      (now : ℕ) (event_id job_id : String) (state : JobState) (db : Db)
      → IsConsistent db
      → IsConsistent (update_job_state f now event_id job_id state db).1
  unfolding update_job_state
  update_job_state-IsConsistent now event_id job_id state db h = grind (
    arith,
    update_found-IsConsistent now event_id job_id state (row job_key job_id db.jobs) db h,
    h,
  )

  pub insert_finding-IsConsistent :
      (fp : String → ℤ → String → String → String) (now : ℕ) (event_id : String) (finding : Finding)
      (db : Db)
      → IsConsistent db
      → IsConsistent (insert_finding fp f now event_id finding db).1
  unfolding insert_finding finding_created_event run_event
  insert_finding-IsConsistent fp now event_id finding db =
      let finding' = fingerprinted fp finding in
      write-Elsewhere f (finding_created_event event_id now finding')
        (insert_finding_row f (finding_row finding')) db
        (record { dispatches = λ _. refl; workers = λ _. refl })
        (insert_finding_row-Elsewhere (finding_row finding'))

  resolve_found-IsConsistent :
      (now : ℕ) (event_id id job_id : String) (o : Option FindingRow) (db : Db)
      → IsConsistent db
      → IsConsistent (resolve_found f now event_id id job_id o db).1
  unfolding resolve_found finding_resolved_event run_event
  resolve_found-IsConsistent now event_id id job_id none db h = h
  resolve_found-IsConsistent now event_id id job_id (some r) db h =
      write-Elsewhere f (finding_resolved_event event_id now r.run_id id job_id)
        (resolve_row f now id job_id) db (record { dispatches = λ _. refl; workers = λ _. refl })
        (resolve_row-Elsewhere now id job_id) h

  pub resolve_finding-IsConsistent :
      (now : ℕ) (event_id id job_id : String) (db : Db)
      → IsConsistent db
      → IsConsistent (resolve_finding f now event_id id job_id db).1
  unfolding resolve_finding
  resolve_finding-IsConsistent now event_id id job_id db h = grind (
    arith,
    resolve_found-IsConsistent now event_id id job_id (row finding_key id db.findings) db h,
    h,
  )

  pub record_verdict-IsConsistent :
      (now : ℕ) (event_id row_id run_id job_id : String) (r : RuleResult) (db : Db)
      → IsConsistent db
      → IsConsistent (record_verdict f now event_id row_id run_id job_id r db).1
  unfolding record_verdict verdict_event run_event
  record_verdict-IsConsistent now event_id row_id run_id job_id r db =
      write-Elsewhere f (verdict_event event_id now run_id job_id r)
        (insert_verdict f (supervisor_row row_id now run_id job_id r)) db
        (record { dispatches = λ _. refl; workers = λ _. refl })
        (insert_verdict-Elsewhere (supervisor_row row_id now run_id job_id r))
