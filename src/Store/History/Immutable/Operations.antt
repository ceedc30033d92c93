-- ===== src/Store/History/Immutable/Operations.antt =====
-- Each operation keeps the findings.
use coworker.Prelude.{
  ℕ, String, ◌≡◌, subst, Bool, false, ◌&&◌, ◌==◌, Option, none, some, List, [], ◌∷◌, ◌++◌, arith,
  select, update_where, ok,
}
use coworker.Core.Jobs.{JobState}
use coworker.Store.Schema.{
  DispatchRow, WorkerRow, RunRow, JobRow, FindingRow, SupervisorRow, Db, Faults, Error, dispatch_id,
  job_key, finding_key,
}
use coworker.Store.Rows.{row}
use coworker.Store.Dispatches.{
  QueueOrder, eligible, insert_dispatch, enqueue_dispatch, lease_dispatch, claim_found,
  claim_next_dispatch, finish_dispatch, complete_found, complete_dispatch,
}
use coworker.Store.Leases.{release_dispatch, release_one, clear_targets}
use coworker.Store.Workers.{
  insert_worker, register, update_worker, heartbeat, deregister, mark_stale, evict_one,
}
use coworker.Store.Runs.{insert_run, create_run, set_run_state, complete_run}
use coworker.Store.Jobs.{insert_job, create_job, set_job_state, update_found, update_job_state}
use coworker.Store.Findings.{
  unresolved, resolved, insert_finding_row, insert_finding, resolve_row, resolve_found,
  resolve_finding, insert_verdict, record_verdict,
}
use coworker.Store.Attention.{
  insert_attention, insert_attention_row, answer_attention, resolve_attention,
}
use coworker.Store.Replay.Operations.{claimed-db}
use coworker.Store.History.{
  Operation, enqueue, claim, complete, release, clear, enroll, beat, leave, stale, evict, open_run,
  close_run, open_job, move_job, report, resolve, judge, ask, answer, settle, log, perform, history,
}
use coworker.Store.History.Immutable.{
  Keeps, Keeps-refl, Keeps-same, Keeps-trans, Keeps-append, Keeps-resolve, KeepsFindings,
  write-Keeps,
}

module _ (f : Faults) where
  insert_dispatch-Keeps : (r : DispatchRow) → KeepsFindings (insert_dispatch f r)
  unfolding insert_dispatch
  insert_dispatch-Keeps r db p a = Keeps-same db.findings p.findings (ground arith)

  lease-Keeps : (now : ℕ) (id : String) → KeepsFindings (lease_dispatch f now id)
  unfolding lease_dispatch
  lease-Keeps now id db p a = Keeps-same db.findings p.findings (ground arith)

  finish-Keeps : (now : ℕ) (id : String) → KeepsFindings (finish_dispatch f now id)
  unfolding finish_dispatch
  finish-Keeps now id db p a = Keeps-same db.findings p.findings (ground arith)

  release-Keeps : (id : String) → KeepsFindings (release_dispatch f id)
  unfolding release_dispatch
  release-Keeps id db p a = Keeps-same db.findings p.findings (ground arith)

  insert_worker-Keeps : (r : WorkerRow) → KeepsFindings (insert_worker f r)
  unfolding insert_worker
  insert_worker-Keeps r db p a = Keeps-same db.findings p.findings (ground arith)

  update_worker-Keeps :
      (x : Error) (q : WorkerRow → Bool) (g : WorkerRow → WorkerRow) (handle : String)
      → KeepsFindings (update_worker f x q g handle)
  unfolding update_worker
  update_worker-Keeps x q g handle db p a = Keeps-same db.findings p.findings (ground arith)

  insert_run-Keeps : (r : RunRow) → KeepsFindings (insert_run f r)
  unfolding insert_run
  insert_run-Keeps r db p a = Keeps-same db.findings p.findings (ground arith)

  set_run_state-Keeps : (now : ℕ) (id : String) (s : _) → KeepsFindings (set_run_state f now id s)
  unfolding set_run_state
  set_run_state-Keeps now id s db p a = Keeps-same db.findings p.findings (ground arith)

  insert_job-Keeps : (r : JobRow) → KeepsFindings (insert_job f r)
  unfolding insert_job
  insert_job-Keeps r db p a = Keeps-same db.findings p.findings (ground arith)

  set_job_state-Keeps :
      (now : ℕ) (id : String) (s : JobState) → KeepsFindings (set_job_state f now id s)
  unfolding set_job_state
  set_job_state-Keeps now id s db p a = Keeps-same db.findings p.findings (ground arith)

  insert_verdict-Keeps : (r : SupervisorRow) → KeepsFindings (insert_verdict f r)
  unfolding insert_verdict
  insert_verdict-Keeps r db p a = Keeps-same db.findings p.findings (ground arith)

  insert_finding_row-Keeps : (r : FindingRow) → KeepsFindings (insert_finding_row f r)
  unfolding insert_finding_row
  insert_finding_row-Keeps r db p a =
      let e : db.findings ++ r ∷ [] ≡ p.findings = ground arith in
      subst (Keeps db.findings) e (Keeps-append db.findings r)

  resolve_row-Keeps : (now : ℕ) (id job_id : String) → KeepsFindings (resolve_row f now id job_id)
  unfolding resolve_row
  resolve_row-Keeps now id job_id db p a =
      let e : update_where (λ r. finding_key r == id && unresolved r) (resolved now job_id)
            db.findings
          ≡ p.findings =
        ground arith in
      subst (Keeps db.findings) e (Keeps-resolve now id job_id db.findings)

  claim_found-Keeps :
      (now : ℕ) (event_id : String) (o : Option DispatchRow) (db : Db)
      → Keeps db.findings (claim_found f now event_id o db).1.findings
  unfolding claim_found
  claim_found-Keeps now event_id none db = Keeps-refl db.findings
  claim_found-Keeps now event_id (some r) db =
      rw claimed-db (write-Keeps f _ (lease_dispatch f now r.id) db (lease-Keeps now r.id))

  complete_found-Keeps :
      (now : ℕ) (event_id id outputs : String) (o : Option DispatchRow) (db : Db)
      → Keeps db.findings (complete_found f now event_id id outputs o db).1.findings
  unfolding complete_found
  complete_found-Keeps now event_id id outputs none db = Keeps-refl db.findings
  complete_found-Keeps now event_id id outputs (some r) db =
      write-Keeps f _ (finish_dispatch f now id) db (finish-Keeps now id)

  update_found-Keeps :
      (now : ℕ) (event_id id : String) (s : JobState) (o : Option JobRow) (db : Db)
      → Keeps db.findings (update_found f now event_id id s o db).1.findings
  unfolding update_found
  update_found-Keeps now event_id id s none db = Keeps-refl db.findings
  update_found-Keeps now event_id id s (some r) db =
      write-Keeps f _ (set_job_state f now id s) db (set_job_state-Keeps now id s)

  resolve_found-Keeps :
      (now : ℕ) (event_id id job_id : String) (o : Option FindingRow) (db : Db)
      → Keeps db.findings (resolve_found f now event_id id job_id o db).1.findings
  unfolding resolve_found
  resolve_found-Keeps now event_id id job_id none db = Keeps-refl db.findings
  resolve_found-Keeps now event_id id job_id (some r) db =
      write-Keeps f _ (resolve_row f now id job_id) db (resolve_row-Keeps now id job_id)

module _ (order : QueueOrder) where
  perform-Keeps : (o : Operation) (db : Db) → Keeps db.findings (perform order o db).findings
  unfolding perform enqueue_dispatch claim_next_dispatch complete_dispatch release_one clear_targets
      register heartbeat deregister mark_stale evict_one create_run complete_run create_job
      update_job_state insert_finding resolve_finding record_verdict insert_attention
      insert_attention_row answer_attention resolve_attention
  perform-Keeps (enqueue f now fresh_id event_id d) db =
      write-Keeps f _ _ db (insert_dispatch-Keeps f _)
  perform-Keeps (claim f now event_id role handle) db = grind (
    arith,
    claim_found-Keeps f now event_id (order.oldest (select (eligible role handle) db.dispatches))
        db,
    Keeps-refl db.findings,
  )
  perform-Keeps (complete f now event_id id outputs) db = grind (
    arith,
    complete_found-Keeps f now event_id id outputs (row dispatch_id id db.dispatches) db,
    Keeps-refl db.findings,
  )
  perform-Keeps (release env now payload id run_id) db =
      write-Keeps (env.faults id) _ _ db (release-Keeps (env.faults id) id)
  perform-Keeps (clear f handle) db = Keeps-same _ _ (ground arith)
  perform-Keeps (enroll f now event_id w) db = write-Keeps f _ _ db (insert_worker-Keeps f _)
  perform-Keeps (beat f now event_id handle) db =
      write-Keeps f _ _ db (update_worker-Keeps f _ _ _ handle)
  perform-Keeps (leave f now event_id handle) db =
      write-Keeps f _ _ db (update_worker-Keeps f _ _ _ handle)
  perform-Keeps (stale f cutoff) db = Keeps-same _ _ (ground arith)
  perform-Keeps (evict env now handle) db =
      write-Keeps (env.faults handle) _ _ db (update_worker-Keeps (env.faults handle) _ _ _ handle)
  perform-Keeps (open_run f event_id run) db = write-Keeps f _ _ db (insert_run-Keeps f _)
  perform-Keeps (close_run f now event_id run_id state) db =
      write-Keeps f _ _ db (set_run_state-Keeps f now run_id state)
  perform-Keeps (open_job f event_id job) db = write-Keeps f _ _ db (insert_job-Keeps f _)
  perform-Keeps (move_job f now event_id job_id state) db = grind (
    arith,
    update_found-Keeps f now event_id job_id state (row job_key job_id db.jobs) db,
    Keeps-refl db.findings,
  )
  perform-Keeps (report fp f now event_id finding) db =
      write-Keeps f _ _ db (insert_finding_row-Keeps f _)
  perform-Keeps (resolve f now event_id id job_id) db = grind (
    arith,
    resolve_found-Keeps f now event_id id job_id (row finding_key id db.findings) db,
    Keeps-refl db.findings,
  )
  perform-Keeps (judge f now event_id row_id run_id job_id r) db =
      write-Keeps f _ _ db (insert_verdict-Keeps f _)
  perform-Keeps (ask f now fresh_id item) db = Keeps-same _ _ (ground arith)
  perform-Keeps (answer f id text by) db = Keeps-same _ _ (ground arith)
  perform-Keeps (settle f now id) db = Keeps-same _ _ (ground arith)
  perform-Keeps (log f e foreign) db =
      write-Keeps f e ok db (λ s p a. Keeps-same s.findings p.findings (cc))

  history-Keeps :
      (ops : List Operation) (db : Db) → Keeps db.findings (history order ops db).findings
  unfolding history
  history-Keeps [] db = Keeps-refl db.findings
  history-Keeps (o ∷ ops) db =
      Keeps-trans db.findings (perform order o db).findings _ (perform-Keeps o db)
        (history-Keeps ops (perform order o db))

  -- Whatever operations of the store follow, and whatever fails in them, a finding stays in the
  -- table, with all its columns but `resolved_by_job_id` and `resolved_at` as they are; and once it
  -- is resolved, these stay too.
  pub findings_immutable :
      (ops : List Operation) (db : Db) (id : String) (r : FindingRow)
      → row finding_key id db.findings ≡ some r
      → (s : FindingRow) × (row finding_key id (history order ops db).findings ≡ some s)
        × (s ≡ record r { resolved_by_job_id = s.resolved_by_job_id; resolved_at = s.resolved_at })
        × (unresolved r ≡ false → s ≡ r)
  unfolding Keeps
  findings_immutable ops db id r h =
      let (s, e, k) = history-Keeps ops db id r h in (s, e, k.content, k.final)
