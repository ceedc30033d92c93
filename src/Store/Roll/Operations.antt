-- ===== src/Store/Roll/Operations.antt =====
-- Every operation of store/worker_store.go, failed or not, keeps the table in step with the log.
use coworker.Prelude.{
  ℕ, String, ◌≡◌, refl, subst, ◌∙◌, true, Option, none, some, List, [], ◌∷◌, arith, update_where,
  select, map, Result, ok, err,
}
use coworker.Core.{worker_heartbeat, worker_deregistered, Worker}
use coworker.Store.Schema.{
  WorkerRow, Db, Faults, LoopEnv, Error, skip_eviction, worker_not_found, worker_handle, Outcome,
}
use coworker.Store.Rows.{row, changed, row-update_where, IsKeyed-update}
use coworker.Store.Workers.{
  is_stale, is_evicted, registered_event, registered_row, registration_time, insert_worker,
  register, heartbeat_event, refreshed, update_worker, not_evicted, stale_row, heartbeat, evict,
  deregistered_event, deregister, missed, go_stale, mark_stale, evict_one, evict_each, mark_evicted,
  evictable, next_round, listed,
}
use coworker.Store.Roll.{live_on, life_of, IsTracked}
use coworker.Store.Roll.Writes.{write-IsTracked, insert-IsTracked, update-IsTracked}

beats :
    (now : ℕ) (r : WorkerRow)
    → not_evicted r ≡ true
    → life_of (some (refreshed now r)) ≡ live_on worker_heartbeat (life_of (some r))
unfolding refreshed is_evicted
beats now r up = ground arith

module _ (f : Faults) (now : ℕ) where
  pub register-IsTracked :
      (event_id : String) (w : Worker) (db : Db)
      → IsTracked db
      → IsTracked (register f now event_id w db).1
  unfolding register
  register-IsTracked event_id w db h =
      let t = registration_time now w in
      let e = registered_event event_id t w in
      write-IsTracked f e (insert_worker f (registered_row t w)) db h
        (λ p a. insert-IsTracked f e (registered_row t w) db p refl refl refl h a)

  pub heartbeat-IsTracked :
      (event_id handle : String) (db : Db)
      → IsTracked db
      → IsTracked (heartbeat f now event_id handle db).1
  unfolding heartbeat
  heartbeat-IsTracked event_id handle db h =
      let e = heartbeat_event event_id now handle in
      write-IsTracked f e (update_worker f worker_not_found not_evicted (refreshed now) handle) db h
        (λ p a.
          update-IsTracked f worker_not_found not_evicted (refreshed now) e db p
            (λ r. unfold refreshed in refl) (beats now) h a)

evicts :
    (r : WorkerRow)
    → not_evicted r ≡ true
    → life_of (some (evict r)) ≡ live_on worker_deregistered (life_of (some r))
unfolding evict is_evicted
evicts r up = ground arith

evicts_stale :
    (r : WorkerRow)
    → stale_row r ≡ true
    → life_of (some (evict r)) ≡ live_on worker_deregistered (life_of (some r))
unfolding evict is_stale
evicts_stale r stale = ground arith

pub deregister-IsTracked :
    (f : Faults) (now : ℕ) (event_id handle : String) (db : Db)
    → IsTracked db
    → IsTracked (deregister f now event_id handle db).1
unfolding deregister
deregister-IsTracked f now event_id handle db h =
    let e = deregistered_event event_id now handle (("handle", handle) ∷ []) in
    write-IsTracked f e (update_worker f worker_not_found not_evicted evict handle) db h (λ p a.
      update-IsTracked f worker_not_found not_evicted evict e db p (λ r. unfold evict in refl)
        evicts h a)

pub evict_one-IsTracked :
    (env : LoopEnv) (now : ℕ) (handle : String) (db : Db)
    → IsTracked db
    → IsTracked (evict_one env now handle db).1
unfolding evict_one
evict_one-IsTracked env now handle db h =
    let e =
      deregistered_event (env.event_id handle) now handle
        (("handle", handle) ∷ ("reason", "heartbeat_timeout") ∷ []) in
    write-IsTracked (env.faults handle) e
      (update_worker (env.faults handle) skip_eviction stale_row evict handle) db h
      (λ p a.
        update-IsTracked (env.faults handle) skip_eviction stale_row evict e db p
          (λ r. unfold evict in refl) evicts_stale h a)

-- A loop over handles: what one round keeps, the loop keeps.
pub round_rule {ℓ} :
    (P : Db → Type ℓ) (handle : String) (m : Outcome) (rest : Db → Result Error (List String) × Db)
    → P m.1
    → ((db : Db) → P db → P (rest db).1)
    → P (next_round handle m rest).1
round_rule P handle (ok _, db) rest h k = subst P (listed-db (rest db)) (k db h)
  where
    listed-db : (out : Result Error (List String) × Db) → out.1 ≡ (listed handle out).1
    listed-db (ok hs, db) = refl
    listed-db (err x, db) = refl
round_rule P handle (err skip_eviction, db) rest h k = k db h
round_rule P handle (err _, db) rest h k = h

evict_each-IsTracked :
    (env : LoopEnv) (now : ℕ) (handles : List String) (db : Db)
    → IsTracked db
    → IsTracked (evict_each env now handles db).1
unfolding evict_each
evict_each-IsTracked env now [] db h = h
evict_each-IsTracked env now (handle ∷ handles) db h =
    round_rule IsTracked handle (evict_one env now handle db) (evict_each env now handles)
      (evict_one-IsTracked env now handle db h)
      (λ db' h'. evict_each-IsTracked env now handles db' h')

pub mark_evicted-IsTracked :
    (f : Faults) (env : LoopEnv) (now cutoff : ℕ) (db : Db)
    → IsTracked db
    → IsTracked (mark_evicted f env now cutoff db).1
unfolding mark_evicted
mark_evicted-IsTracked f env now cutoff db h =
    let handles = map worker_handle (select (evictable cutoff) db.workers) in
    grind (arith, evict_each-IsTracked env now handles db h, h)

stale-IsTracked :
    (cutoff : ℕ) (db : Db)
    → IsTracked db
    → IsTracked (record db { workers = update_where (missed cutoff) go_stale db.workers })
unfolding missed go_stale
stale-IsTracked cutoff db h = record {
  keyed =
      IsKeyed-update worker_handle (missed cutoff) go_stale (λ r. refl) (missed cutoff) db.workers
        h.keyed;
  agrees = λ j.
      h.agrees j
      ∙ (rw (row-update_where worker_handle (missed cutoff) go_stale (λ r. refl) j db.workers)
          (same (row worker_handle j db.workers)));
}
  where
    same :
        (o : Option WorkerRow)
        → life_of o ≡ life_of (changed worker_handle (missed cutoff) go_stale o)
    same none = refl
    same (some r) = ground arith

pub mark_stale-IsTracked :
    (f : Faults) (cutoff : ℕ) (db : Db) → IsTracked db → IsTracked (mark_stale f cutoff db).1
unfolding mark_stale
mark_stale-IsTracked f cutoff db h = grind (arith, stale-IsTracked cutoff db h, h)
