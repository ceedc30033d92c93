-- ===== src/Store/Replay/Operations.antt =====
-- Every operation of store/dispatch_store.go, failed or not, keeps the table a projection of the
-- log.
use coworker.Prelude.{
  ℕ, String, ◌≡◌, refl, Option, none, some, List, [], ◌∷◌, arith, update_where, select, ◌∙◌, Result,
  ok, err,
}
use coworker.Core.{Payload, Dispatch}
use coworker.Store.Schema.{
  DispatchRow, Db, Faults, LoopEnv, Error, claim_lost, dispatch_id, after_rule,
}
use coworker.Store.Rows.{row, changed, row-update_where, IsKeyed-update}
use coworker.Store.Dispatches.{
  queued_event, leased_event, completed_event, prepared, queued_row, insert_dispatch,
  enqueue_dispatch, QueueOrder, lease_dispatch, claimed, claim_found, claim_next_dispatch,
  finish_dispatch, complete_found, complete_dispatch,
}
use coworker.Store.Leases.{
  expired_event, release_dispatch, release_one, release_each, expire_leases, pending_for, untarget,
  clear_targets, leased_by, evicted_payload, requeue_by_worker,
}
use coworker.Store.Replay.{state_of, IsProjected}
use coworker.Store.Replay.Writes.{
  write-IsProjected, insert-IsProjected, lease-IsProjected, finish-IsProjected, release-IsProjected,
}

module _ (f : Faults) (now : ℕ) where
  pub enqueue-IsProjected :
      (fresh_id event_id : String) (d : Dispatch) (db : Db)
      → IsProjected db
      → IsProjected (enqueue_dispatch f now fresh_id event_id d db).1
  unfolding enqueue_dispatch
  enqueue-IsProjected fresh_id event_id d db h =
      let d' = prepared fresh_id now d in
      let e = queued_event event_id now d' in
      write-IsProjected f e (insert_dispatch f (queued_row now d')) db h
        (λ p a. insert-IsProjected f e (queued_row now d') db p refl refl refl h a)

  pub claimed-db :
      (r : DispatchRow) (out : Result Error (Unit {0}) × Db) → (claimed now r out).1 ≡ out.1
  unfolding claimed
  claimed-db r (ok _, db) = refl
  claimed-db r (err claim_lost, db) = refl
  claimed-db r (err _, db) = refl

  pub claim_found-IsProjected :
      (event_id : String) (o : Option DispatchRow) (db : Db)
      → IsProjected db
      → IsProjected (claim_found f now event_id o db).1
  unfolding claim_found
  claim_found-IsProjected event_id none db h = h
  claim_found-IsProjected event_id (some r) db h = rw claimed-db (
      write-IsProjected f (leased_event event_id now r) (lease_dispatch f now r.id) db h
        (λ p a. lease-IsProjected f now (leased_event event_id now r) db p refl h a))

  pub claim-IsProjected :
      (order : QueueOrder) (event_id role handle : String) (db : Db)
      → IsProjected db
      → IsProjected (claim_next_dispatch order f now event_id role handle db).1
  unfolding claim_next_dispatch
  claim-IsProjected order event_id role handle db h = grind (arith, claim_found-IsProjected)

  pub complete_found-IsProjected :
      (event_id id outputs : String) (o : Option DispatchRow) (db : Db)
      → IsProjected db
      → IsProjected (complete_found f now event_id id outputs o db).1
  unfolding complete_found
  complete_found-IsProjected event_id id outputs none db h = h
  complete_found-IsProjected event_id id outputs (some r) db h =
      let e = completed_event event_id now id outputs r.run_id in
      write-IsProjected f e (finish_dispatch f now id) db h
        (λ p a. finish-IsProjected f now e db p refl h a)

  pub complete-IsProjected :
      (event_id id outputs : String) (db : Db)
      → IsProjected db
      → IsProjected (complete_dispatch f now event_id id outputs db).1
  unfolding complete_dispatch
  complete-IsProjected event_id id outputs db h = grind (arith, complete_found-IsProjected)

-- Phase 2 of RequeueByWorker writes no event and changes no state.
untarget-IsProjected :
    (handle : String) (db : Db)
    → IsProjected db
    → IsProjected
        (record db { dispatches = update_where (pending_for handle) untarget db.dispatches })
unfolding untarget
untarget-IsProjected handle db h = record {
  keyed =
      IsKeyed-update dispatch_id (pending_for handle) untarget (λ r. refl) (pending_for handle)
        db.dispatches h.keyed;
  agrees = λ id.
      h.agrees id
      ∙ (rw
          (row-update_where dispatch_id (pending_for handle) untarget (λ r. refl) id db.dispatches)
          (unchanged (row dispatch_id id db.dispatches)));
}
  where
    unchanged :
        (o : Option DispatchRow)
        → state_of o ≡ state_of (changed dispatch_id (pending_for handle) untarget o)
    unchanged none = refl
    unchanged (some r) = ground arith

pub clear_targets-IsProjected :
    (f : Faults) (handle : String) (db : Db)
    → IsProjected db
    → IsProjected (clear_targets f handle db).1
unfolding clear_targets
clear_targets-IsProjected f handle db h = grind (arith, untarget-IsProjected handle db h)

module _ (env : LoopEnv) (now : ℕ) where
  pub release_one-IsProjected :
      (payload : Payload) (id run_id : String) (db : Db)
      → IsProjected db
      → IsProjected (release_one env now payload id run_id db).1
  unfolding release_one
  release_one-IsProjected payload id run_id db h =
      let e = expired_event (env.event_id id) now payload id run_id in
      write-IsProjected (env.faults id) e (release_dispatch (env.faults id) id) db h
        (λ p a. release-IsProjected (env.faults id) e db p refl h a)

  release_each-IsProjected :
      (payload : DispatchRow → Payload) (rows : List DispatchRow) (db : Db)
      → IsProjected db
      → IsProjected (release_each env now payload rows db).1
  unfolding release_each
  release_each-IsProjected payload [] db h = h
  release_each-IsProjected payload (r ∷ rest) db h =
      after_rule IsProjected (release_one env now (payload r) r.id r.run_id db)
        (release_each env now payload rest) (release_one-IsProjected (payload r) r.id r.run_id db h)
        (λ db' h'. release_each-IsProjected payload rest db' h')

  pub expire-IsProjected :
      (f : Faults) (t timeout : ℕ) (db : Db)
      → IsProjected db
      → IsProjected (expire_leases f env t now timeout db).1
  unfolding expire_leases
  expire-IsProjected f t timeout db h = grind (arith, release_each-IsProjected)

  pub requeue-IsProjected :
      (f : Faults) (handle : String) (db : Db)
      → IsProjected db
      → IsProjected (requeue_by_worker f env now handle db).1
  unfolding requeue_by_worker
  requeue-IsProjected f handle db h =
      let rows = select (leased_by handle) db.dispatches in
      grind (
        arith,
        after_rule IsProjected (release_each env now (evicted_payload handle) rows db)
            (clear_targets f handle) (release_each-IsProjected (evicted_payload handle) rows db h)
            (clear_targets-IsProjected f handle),
        h,
      )
