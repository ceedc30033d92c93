-- ===== src/Tests/Watchdog.antt =====
-- A tick of the watchdog over one worker that was last heard from at second 5.
use coworker.Prelude.{ℕ, ◌-◌, ◌≤◌, ◌≡◌, refl, some, none, [], ◌∷◌, arith}
use coworker.Core.{live, evicted, seconds}
use coworker.Store.Schema.{Db, WorkerRow, no_faults, worker_handle, nullable_string}
use coworker.Store.Rows.{row}
use coworker.Store.Events.{
  write_event_then_row, transaction, settle, publish, append_event, event_row, next_sequence,
  max_sequence, violates,
}
use coworker.Store.Leases.{requeue_by_worker, release_each, leased_by, clear_targets}
use coworker.Store.Workers.{
  is_live, is_stale, worker_event, update_worker, evict, deregistered_event, missed, go_stale,
  mark_stale, evictable, evict_one, evict_each, mark_evicted,
}
use coworker.Watchdog.{
  WatchdogConfig, interval, stale_after, evict_after, TickEnv, requeue_each, requeue_evicted, tick,
}
use coworker.Watchdog.Safety.{IsSpared, tick_spares}
use coworker.Tests.Samples.{loop_env}

abbrev heard : WorkerRow
heard = record {
  handle = "w";
  role = "developer";
  pid = 1;
  session_id = "";
  cli = "codex";
  registered_at = 1;
  last_heartbeat_at = 5;
  state = live;
}

abbrev one_worker : Db
one_worker = record {
  runs = [];
  jobs = [];
  findings = [];
  supervisor_events = [];
  attention = [];
  events = [];
  dispatches = [];
  workers = heard ∷ [];
  bus = none;
}

abbrev defaults : WatchdogConfig
defaults = record { interval = 0; stale_after = 0; evict_after = 0 }

abbrev tick_at : ℕ → TickEnv
tick_at t = record {
  now = t;
  later = t;
  stale = no_faults;
  evict = no_faults;
  evictions = loop_env;
  requeue = λ h. no_faults;
  releases = loop_env;
}

recent : seconds (55_000_000_000 - evict_after defaults) ≤ 5
unfolding evict_after stale_after interval
recent = omega arith

tick_spares_example :
    IsSpared
      (55_000_000_000 - stale_after defaults)
      heard
      (row worker_handle "w" (tick defaults (tick_at 55_000_000_000) one_worker).workers)
tick_spares_example =
    tick_spares defaults (tick_at 55_000_000_000) one_worker "w" heard (refl, tt) refl recent

-- A worker that is live when the tick begins and silent for 95 seconds is evicted by that tick.
live_to_evicted :
    row worker_handle "w" (tick defaults (tick_at 100_000_000_000) one_worker).workers
    ≡ some (record heard { state = evicted })
unfolding tick evict_after stale_after interval mark_stale missed go_stale is_live mark_evicted
    evictable is_stale evict_each evict_one update_worker evict deregistered_event worker_event
    requeue_evicted requeue_each requeue_by_worker release_each leased_by clear_targets
    write_event_then_row transaction settle publish append_event event_row next_sequence
    max_sequence violates nullable_string
live_to_evicted = refl
