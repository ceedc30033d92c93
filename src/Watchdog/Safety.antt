-- ===== src/Watchdog/Safety.antt =====
-- Which workers a tick of the watchdog may touch.
use coworker.Prelude.{
  ℕ, ◌-◌, ◌≤◌, String, ◌≡◌, ◌⊎◌, refl, sym, ap, ◌∙◌, subst, Bool, true, false, ◌||◌, Option, some,
  List, [], ◌∷◌, map, arith, ◌==◌, if◌then◌else◌, any, select, update_where, Bool-cases, inl, inr,
  Result, ok, err,
}
use coworker.Core.{seconds}
use coworker.Store.Schema.{WorkerRow, Db, Faults, LoopEnv, Error, select_rows, worker_handle}
use coworker.Store.Rows.{row, IsKeyed, row-update_where, IsKeyed-update, passes, any-select}
use coworker.Store.Workers.{missed, go_stale, mark_stale, evictable, evict_each, mark_evicted}
use coworker.Watchdog.{WatchdogConfig, stale_after, evict_after, TickEnv, requeue_evicted, tick}
use coworker.Watchdog.Frame.{row_of, evict_each_other, requeue_each_workers}

-- What MarkStale leaves of a table.
staled :
    (f : Faults) (cutoff : ℕ) (db : Db)
    → ((mark_stale f cutoff db).1.workers ≡ db.workers)
      ⊎ ((mark_stale f cutoff db).1.workers ≡ update_where (missed cutoff) go_stale db.workers)
unfolding mark_stale
staled f cutoff db = ground arith

-- A worker that a tick finds alive and well, or only marks stale.
abbrev pub IsSpared : ℕ → WorkerRow → Option WorkerRow → Type 0
IsSpared cutoff r o = (o ≡ some r) ⊎ ((o ≡ some (go_stale r)) × (missed cutoff r ≡ true))

stale-IsSpared :
    (f : Faults) (cutoff : ℕ) (h : String) (r : WorkerRow) (db : Db)
    → row_of h db ≡ some r
    → IsSpared cutoff r (row_of h (mark_stale f cutoff db).1)
unfolding go_stale
stale-IsSpared f cutoff h r db at = elim (staled f cutoff db) [
  | inl e ↦ inl (rw e at)
  | inr e ↦
      let after_update =
        row-update_where worker_handle (missed cutoff) go_stale (λ o. refl) h db.workers in
      elim (Bool-cases (missed cutoff r)) [
        | inl m ↦ inr (rw e (after_update ∙ rw (at, m) refl), m)
        | inr m ↦ inl (rw e (after_update ∙ rw (at, m) refl))
      ]
]

stale-IsKeyed :
    (f : Faults) (cutoff : ℕ) (db : Db)
    → IsKeyed worker_handle db.workers
    → IsKeyed worker_handle (mark_stale f cutoff db).1.workers
unfolding go_stale
stale-IsKeyed f cutoff db k = elim (staled f cutoff db) [
  | inl e ↦ rw e k
  | inr e ↦ rw e (
      IsKeyed-update worker_handle (missed cutoff) go_stale (λ o. refl) (missed cutoff) db.workers
        k)
]

not-Listed :
    (h : String) (q : WorkerRow → Bool) (rows : List WorkerRow)
    → any (λ k. k == h) (map worker_handle (select q rows))
      ≡ any (λ r. worker_handle r == h) (select q rows)
not-Listed h q rows = go (select q rows)
  where
    go :
        (l : List WorkerRow)
        → any (λ k. k == h) (map worker_handle l) ≡ any (λ r. worker_handle r == h) l
    go [] = refl
    go (r ∷ l) = ap (λ b. worker_handle r == h || b) (go l)

heard_not_evictable :
    (cutoff stale_cutoff : ℕ) (r : WorkerRow) (o : Option WorkerRow)
    → seconds cutoff ≤ r.last_heartbeat_at
    → IsSpared stale_cutoff r o
    → passes worker_handle (evictable cutoff) o ≡ false
unfolding evictable go_stale
heard_not_evictable cutoff stale_cutoff r o heard (inl e) = rw e (ground arith)
heard_not_evictable cutoff stale_cutoff r o heard (inr (e, m)) = rw e (ground arith)

mark_evicted_other :
    (f : Faults) (env : LoopEnv) (now cutoff : ℕ) (h : String) (db : Db)
    → IsKeyed worker_handle db.workers
    → passes worker_handle (evictable cutoff) (row_of h db) ≡ false
    → row_of h (mark_evicted f env now cutoff db).1 ≡ row_of h db
unfolding mark_evicted
mark_evicted_other f env now cutoff h db k e = go f.select
  where
    unlisted : any (λ i. i == h) (map worker_handle (select (evictable cutoff) db.workers)) ≡ false
    unlisted =
        not-Listed h (evictable cutoff) db.workers
        ∙ any-select worker_handle (evictable cutoff) h db.workers k
        ∙ e

    go :
        (b : Bool)
        → row_of h
            (if b
              then (err select_rows, db)
              else evict_each env now
                  (map worker_handle (select (evictable cutoff) db.workers))
                  db).1
          ≡ row_of h db
    go true = refl
    go false =
        evict_each_other env now h (map worker_handle (select (evictable cutoff) db.workers)) db
          unlisted

requeue_evicted_workers :
    (env : TickEnv) (out : Result Error (List String) × Db)
    → (requeue_evicted env out).workers ≡ out.1.workers
unfolding requeue_evicted
requeue_evicted_workers env (ok handles, db) = requeue_each_workers env handles db
requeue_evicted_workers env (err x, db) = refl

-- A tick spares every worker whose last heartbeat, by its stored second, is not older than
-- EvictAfter: whatever fails in the tick, its row stays as it is, or is only marked stale, and the
-- latter only if it was live and silent for longer than StaleAfter.
-- No two workers of the table have the same handle.
pub tick_spares :
    (c : WatchdogConfig) (env : TickEnv) (db : Db) (h : String) (r : WorkerRow)
    → IsKeyed worker_handle db.workers
    → row worker_handle h db.workers ≡ some r
    → seconds (env.now - evict_after c) ≤ r.last_heartbeat_at
    → IsSpared (env.now - stale_after c) r (row worker_handle h (tick c env db).workers)
unfolding tick
tick_spares c env db h r k at heard =
    let marked = (mark_stale env.stale (env.now - stale_after c) db).1 in
    let spared = stale-IsSpared env.stale (env.now - stale_after c) h r db at in
    let cutoff = env.now - evict_after c in
    let safe =
      heard_not_evictable cutoff (env.now - stale_after c) r (row_of h marked) heard spared in
    let same =
      mark_evicted_other env.evict env.evictions env.later cutoff h marked
        (stale-IsKeyed env.stale (env.now - stale_after c) db k) safe in
    let kept =
      ap (λ rows. row worker_handle h rows)
        (requeue_evicted_workers env
          (mark_evicted env.evict env.evictions env.later cutoff marked)) in
    subst (IsSpared (env.now - stale_after c) r) (sym (kept ∙ same)) spared
