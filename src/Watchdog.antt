-- ===== src/Watchdog.antt =====
-- mcp/watchdog.go: the periodic check that marks workers stale, evicts those that stay stale and
-- puts their dispatches back into the queue.
pub mod Frame
pub mod Safety
use coworker.Prelude.{ℕ, ◌+◌, ◌-◌, String, List, [], ◌∷◌, eqb, if◌then◌else◌, Result, ok, err}
use coworker.Store.Schema.{Db, Faults, LoopEnv, Error}
use coworker.Store.Leases.{requeue_by_worker}
use coworker.Store.Workers.{mark_stale, mark_evicted}

-- Durations in nanoseconds. The code treats what is not positive as unset, which 0 stands for.
pub record WatchdogConfig : Type 0 where
  pub interval : ℕ
  pub stale_after : ℕ
  pub evict_after : ℕ

unfoldable pub interval : WatchdogConfig → ℕ
interval c = if eqb c.interval 0 then 15_000_000_000 else c.interval

unfoldable pub stale_after : WatchdogConfig → ℕ
stale_after c = if eqb c.stale_after 0 then 45_000_000_000 else c.stale_after

unfoldable pub evict_after : WatchdogConfig → ℕ
unfolding stale_after interval
evict_after c = if eqb c.evict_after 0 then stale_after c + interval c else c.evict_after

-- What a tick takes from outside: the clock at its start and later on, and the faults and fresh
-- ids of its database calls.
pub record TickEnv : Type 0 where
  pub now : ℕ
  pub later : ℕ
  pub stale : Faults
  pub evict : Faults
  pub evictions : LoopEnv
  pub requeue : String → Faults
  pub releases : LoopEnv

-- The loop over the evicted handles: an error is logged, and the loop goes on.
unfoldable pub requeue_each : TickEnv → List String → Db → Db
requeue_each env [] db = db
requeue_each env (h ∷ handles) db =
    requeue_each env handles (requeue_by_worker (env.requeue h) env.releases env.later h db).1

unfoldable pub requeue_evicted : TickEnv → Result Error (List String) × Db → Db
requeue_evicted env (ok handles, db) = requeue_each env handles db
requeue_evicted env (err x, db) = db

-- An error of MarkStale is logged, and the tick goes on.
unfoldable pub tick : WatchdogConfig → TickEnv → Db → Db
tick c env db =
    let marked = (mark_stale env.stale (env.now - stale_after c) db).1 in
    requeue_evicted env
      (mark_evicted env.evict env.evictions env.later (env.now - evict_after c) marked)
