-- ===== src/Watchdog/Frame.antt =====
-- What the loops of a tick leave alone: the rows of workers that they do not name.
use coworker.Prelude.{
  ℕ, String, ◌≡◌, refl, ◌∙◌, Bool, true, false, ◌&&◌, Option, List, [], ◌∷◌, arith, ◌==◌, eq_iff,
  if◌then◌else◌, any, select, update_where, ok,
}
use coworker.Core.{Payload}
use coworker.Store.Schema.{
  DispatchRow, WorkerRow, Db, Faults, LoopEnv, skip_eviction, worker_handle, Outcome, after_rule,
}
use coworker.Store.Rows.{row}
use coworker.Store.Events.{publish}
use coworker.Store.Events.Log.{write_rule}
use coworker.Store.Leases.{
  release_dispatch, release_one, release_each, clear_targets, requeue_by_worker, leased_by,
  evicted_payload,
}
use coworker.Store.Workers.{update_worker, stale_row, evict, evict_one, evict_each}
use coworker.Store.Roll.Operations.{round_rule}
use coworker.Store.History.Footprint.{release-OnlyDispatches, clear_targets_keeps}
use coworker.Watchdog.{TickEnv, requeue_each}

-- The row of the worker `h`.
abbrev pub row_of : String → Db → Option WorkerRow
row_of h db = row worker_handle h db.workers

row-update_other :
    (p : WorkerRow → Bool) (k h : String) (rows : List WorkerRow)
    → k == h ≡ false
    → row worker_handle h (update_where (λ r. worker_handle r == k && p r) evict rows)
      ≡ row worker_handle h rows
unfolding evict
row-update_other p k h [] e = refl
row-update_other p k h (x ∷ rows) e =
    ground (arith, row-update_other p k h rows e, eq_iff x.handle k, eq_iff x.handle h, eq_iff k h)

update_other :
    (f : Faults) (k h : String) (db p : Db)
    → k == h ≡ false
    → update_worker f skip_eviction stale_row evict k db ≡ ok p
    → row_of h p ≡ row_of h db
unfolding update_worker
update_other f k h db p e made = ground (arith, row-update_other stale_row k h db.workers e)

evict_other :
    (env : LoopEnv) (now : ℕ) (k h : String) (db : Db)
    → k == h ≡ false
    → row_of h (evict_one env now k db).1 ≡ row_of h db
unfolding evict_one publish
evict_other env now k h db e =
    write_rule (λ b. row_of h b ≡ row_of h db) (env.faults k) _
      (update_worker (env.faults k) skip_eviction stale_row evict k) db refl
      (λ p made. update_other (env.faults k) k h _ p e made)

pub evict_each_other :
    (env : LoopEnv) (now : ℕ) (h : String) (handles : List String) (db : Db)
    → any (λ k. k == h) handles ≡ false
    → row_of h (evict_each env now handles db).1 ≡ row_of h db
unfolding evict_each
evict_each_other env now h [] db e = refl
evict_each_other env now h (k ∷ handles) db e =
    round_rule (λ b. row_of h b ≡ row_of h db) k (evict_one env now k db)
      (evict_each env now handles) (evict_other env now k h db (ground arith))
      (λ b same. evict_each_other env now h handles b (ground arith) ∙ same)

release_one_workers :
    (env : LoopEnv) (now : ℕ) (payload : Payload) (id run_id : String) (db : Db)
    → (release_one env now payload id run_id db).1.workers ≡ db.workers
unfolding release_one publish
release_one_workers env now payload id run_id db =
    write_rule (λ b. b.workers ≡ db.workers) (env.faults id) _ (release_dispatch (env.faults id) id)
      db refl (λ p made. (release-OnlyDispatches (env.faults id) id _ p made).1)

release_each_workers :
    (env : LoopEnv) (now : ℕ) (payload : DispatchRow → Payload) (rows : List DispatchRow) (db : Db)
    → (release_each env now payload rows db).1.workers ≡ db.workers
unfolding release_each
release_each_workers env now payload [] db = refl
release_each_workers env now payload (r ∷ rows) db =
    after_rule (λ b. b.workers ≡ db.workers) (release_one env now (payload r) r.id r.run_id db)
      (release_each env now payload rows) (release_one_workers env now (payload r) r.id r.run_id db)
      (λ b same. release_each_workers env now payload rows b ∙ same)

either_workers :
    (b : Bool) (x y : Outcome) (db : Db)
    → x.1.workers ≡ db.workers
    → y.1.workers ≡ db.workers
    → (if b then x else y).1.workers ≡ db.workers
either_workers true x y db h k = h
either_workers false x y db h k = k

requeue_workers :
    (f : Faults) (env : LoopEnv) (now : ℕ) (h : String) (db : Db)
    → (requeue_by_worker f env now h db).1.workers ≡ db.workers
unfolding requeue_by_worker
requeue_workers f env now h db = either_workers f.select _ _ db refl (
    after_rule (λ b. b.workers ≡ db.workers)
      (release_each env now (evicted_payload h) (select (leased_by h) db.dispatches) db)
      (clear_targets f h)
      (release_each_workers env now (evicted_payload h) (select (leased_by h) db.dispatches) db)
      (λ b same. (clear_targets_keeps f h b).1 ∙ same))

pub requeue_each_workers :
    (env : TickEnv) (handles : List String) (db : Db)
    → (requeue_each env handles db).workers ≡ db.workers
unfolding requeue_each
requeue_each_workers env [] db = refl
requeue_each_workers env (h ∷ handles) db =
    requeue_each_workers env handles
      (requeue_by_worker (env.requeue h) env.releases env.later h db).1
    ∙ requeue_workers (env.requeue h) env.releases env.later h db
