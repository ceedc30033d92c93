-- ===== src/Store/Workers.antt =====
-- store/worker_store.go: the registry of persistent workers, with heartbeats and eviction.
use mathlib.Core.List.{Perm}
use coworker.Prelude.{
  All, ℕ, ◌*◌, ◌≤◌, String, Bool, true, false, ◌&&◌, not, Option, none, some, List, [], ◌∷◌, ◌++◌,
  map, ◌==◌, eqb, ltb, if◌then◌else◌, any, select, update_where, count_where, Result, ok, err,
}
use coworker.Core.{
  EventKind, worker_registered, worker_heartbeat, worker_deregistered, Payload, Event, Worker,
  WorkerState, live, stale, evicted, seconds,
}
use coworker.Store.Schema.{
  WorkerRow, Db, Faults, LoopEnv, Error, select_rows, write_row, duplicate_key, worker_not_found,
  skip_eviction, worker_handle, Outcome,
}
use coworker.Store.Rows.{row}
use coworker.Store.Events.{write_event_then_row}

unfoldable pub is_live : WorkerState → Bool
is_live live = true
is_live _ = false

unfoldable pub is_stale : WorkerState → Bool
is_stale stale = true
is_stale _ = false

unfoldable pub is_evicted : WorkerState → Bool
is_evicted evicted = true
is_evicted _ = false

-- The event of a worker: outside any run, and its correlation id is the handle.
unfoldable pub worker_event : String → EventKind → String → Payload → ℕ → Event
worker_event event_id kind handle payload now = record {
  id = event_id;
  run_id = "";
  sequence = 0;
  kind = kind;
  schema_version = 1;
  idempotency_key = "";
  causation_id = "";
  correlation_id = handle;
  payload = payload;
  created_at = now;
}

-- The time that Register writes: the worker's own, or else the clock's.
unfoldable pub registration_time : ℕ → Worker → ℕ
registration_time now w = elim w.registered_at [ none ↦ now | some t ↦ t ]

unfoldable pub registered_row : ℕ → Worker → WorkerRow
registered_row t w = record {
  handle = w.handle;
  role = w.role;
  pid = w.pid;
  session_id = w.session_id;
  cli = w.cli;
  registered_at = seconds t;
  last_heartbeat_at = seconds t;
  state = live;
}

-- `INSERT INTO workers`, under PRIMARY KEY(handle).
unfoldable pub insert_worker : Faults → WorkerRow → Db → Result Error Db
insert_worker f r db =
    if f.row
    then err write_row
    else if any (λ o. worker_handle o == r.handle) db.workers
    then err duplicate_key
    else ok (record db { workers = db.workers ++ r ∷ [] })

-- Of the members of the payload only the texts are kept; `pid` is a number.
unfoldable pub registered_event : String → ℕ → Worker → Event
unfolding worker_event
registered_event event_id t w =
    worker_event event_id worker_registered w.handle
      (("cli", w.cli) ∷ ("handle", w.handle) ∷ ("role", w.role) ∷ ("session_id", w.session_id) ∷ [])
      t

unfoldable pub register : Faults → ℕ → String → Worker → Db → Outcome
unfolding registration_time registered_row registered_event
register f now event_id w db =
    let t = registration_time now w in
    write_event_then_row f (registered_event event_id t w) (insert_worker f (registered_row t w)) db

unfoldable pub heartbeat_event : String → ℕ → String → Event
unfolding worker_event
heartbeat_event event_id now handle =
    worker_event event_id worker_heartbeat handle (("handle", handle) ∷ []) now

-- `SET last_heartbeat_at = ?, state = 'live'`.
unfoldable pub refreshed : ℕ → WorkerRow → WorkerRow
refreshed now r = record r { last_heartbeat_at = seconds now; state = live }

-- `UPDATE workers SET ... WHERE handle = ? AND state ...`, which must reach a row.
unfoldable pub update_worker :
    Faults → Error → (WorkerRow → Bool) → (WorkerRow → WorkerRow) → String → Db → Result Error Db
update_worker f missing p g handle db =
    if f.row
    then err write_row
    else if eqb (count_where (λ r. worker_handle r == handle && p r) db.workers) 0
    then err missing
    else ok
        (record db { workers = update_where (λ r. worker_handle r == handle && p r) g db.workers })

abbrev pub not_evicted : WorkerRow → Bool
not_evicted r = not (is_evicted r.state)

abbrev pub stale_row : WorkerRow → Bool
stale_row r = is_stale r.state

unfoldable pub heartbeat : Faults → ℕ → String → String → Db → Outcome
unfolding heartbeat_event
heartbeat f now event_id handle db =
    write_event_then_row f (heartbeat_event event_id now handle)
      (update_worker f worker_not_found not_evicted (refreshed now) handle) db

unfoldable pub evict : WorkerRow → WorkerRow
evict r = record r { state = evicted }

unfoldable pub deregistered_event : String → ℕ → String → Payload → Event
unfolding worker_event
deregistered_event event_id now handle payload =
    worker_event event_id worker_deregistered handle payload now

unfoldable pub deregister : Faults → ℕ → String → String → Db → Outcome
unfolding deregistered_event
deregister f now event_id handle db =
    write_event_then_row f (deregistered_event event_id now handle (("handle", handle) ∷ []))
      (update_worker f worker_not_found not_evicted evict handle) db

-- A row read into the Go struct.
unfoldable pub scan_worker : WorkerRow → Worker
scan_worker r = record {
  handle = r.handle;
  role = r.role;
  pid = r.pid;
  session_id = r.session_id;
  cli = r.cli;
  registered_at = some (r.registered_at * 1_000_000_000);
  last_heartbeat = some (r.last_heartbeat_at * 1_000_000_000);
  state = r.state;
}

abbrev pub IsByAge : List WorkerRow → Type 0
IsByAge [] = Unit
IsByAge (r ∷ rows) = All (λ (o : WorkerRow). r.registered_at ≤ o.registered_at) rows × IsByAge rows

-- `ORDER BY registered_at ASC`. SQL leaves the order of rows of one time open.
pub record RegistryOrder : Type 0 where
  pub by_registration : List WorkerRow → List WorkerRow
  pub by_registration_perm : (rows : List WorkerRow) → Perm (by_registration rows) rows
  pub by_registration_sorted : (rows : List WorkerRow) → IsByAge (by_registration rows)

unfoldable pub live_for : String → WorkerRow → Bool
unfolding is_live
live_for role r = r.role == role && is_live r.state

unfoldable pub live_workers_for_role :
    RegistryOrder → Faults → String → Db → Result Error (List Worker)
live_workers_for_role order f role db =
    if f.select
    then err select_rows
    else ok (map scan_worker (order.by_registration (select (live_for role) db.workers)))

-- `WHERE state = 'live' AND last_heartbeat_at < ?`.
unfoldable pub missed : ℕ → WorkerRow → Bool
unfolding is_live
missed cutoff r = is_live r.state && ltb r.last_heartbeat_at (seconds cutoff)

unfoldable pub go_stale : WorkerRow → WorkerRow
go_stale r = record r { state = stale }

-- `return nil, nil` for no handle is the empty list.
unfoldable pub mark_stale : Faults → ℕ → Db → Result Error (List String) × Db
unfolding missed go_stale
mark_stale f cutoff db =
    let handles = map worker_handle (select (missed cutoff) db.workers) in
    if f.select then (err select_rows, db) else elim handles [
      | [] ↦ (ok [], db)
      | h ∷ rest ↦ if f.row then (err write_row, db) else (
        ok (h ∷ rest),
        record db { workers = update_where (missed cutoff) go_stale db.workers },
      )
    ]

-- `WHERE state = 'stale' AND last_heartbeat_at < ?`.
unfoldable pub evictable : ℕ → WorkerRow → Bool
unfolding is_stale
evictable cutoff r = is_stale r.state && ltb r.last_heartbeat_at (seconds cutoff)

unfoldable pub evict_one : LoopEnv → ℕ → String → Db → Outcome
unfolding deregistered_event
evict_one env now handle db =
    write_event_then_row (env.faults handle)
      (deregistered_event (env.event_id handle) now handle
        (("handle", handle) ∷ ("reason", "heartbeat_timeout") ∷ []))
      (update_worker (env.faults handle) skip_eviction stale_row evict handle) db

-- `evicted = append(evicted, h)`, in front of what the rest of the loop appends.
abbrev pub listed : String → Result Error (List String) × Db → Result Error (List String) × Db
listed h (ok handles, db) = (ok (h ∷ handles), db)
listed h (err x, db) = (err x, db)

-- One round of the loop: a worker that recovered is left out, another error ends the loop.
abbrev pub next_round :
    String → Outcome → (Db → Result Error (List String) × Db) → Result Error (List String) × Db
next_round h (ok _, db) rest = listed h (rest db)
next_round h (err skip_eviction, db) rest = rest db
next_round h (err x, db) rest = (err x, db)

unfoldable pub evict_each : LoopEnv → ℕ → List String → Db → Result Error (List String) × Db
evict_each env now [] db = (ok [], db)
evict_each env now (h ∷ handles) db =
    next_round h (evict_one env now h db) (λ db'. evict_each env now handles db')

unfoldable pub mark_evicted : Faults → LoopEnv → ℕ → ℕ → Db → Result Error (List String) × Db
mark_evicted f env now cutoff db =
    if f.select
    then (err select_rows, db)
    else evict_each env now (map worker_handle (select (evictable cutoff) db.workers)) db

unfoldable pub get_worker : Faults → String → Db → Result Error (Option Worker)
unfolding scan_worker
get_worker f handle db =
    if f.select
    then err select_rows
    else ok
        (elim (row worker_handle handle db.workers) [ none ↦ none | some r ↦ some (scan_worker r) ])
