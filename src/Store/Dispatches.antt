-- ===== src/Store/Dispatches.antt =====
-- store/dispatch_store.go: the queue from which workers pull dispatches.
use mathlib.Core.List.{Memᴰ}
use coworker.Prelude.{
  ℕ, ◌*◌, ◌≤◌, String, ◌≡◌, Bool, true, false, ◌&&◌, ◌||◌, Option, none, some, List, [], ◌∷◌, ◌++◌,
  ◌==◌, eqb, if◌then◌else◌, any, select, update_where, count_where, All, Result, ok, err,
}
use coworker.Core.{
  EventKind, dispatch_queued, dispatch_leased, dispatch_completed, Payload, Event, DispatchState,
  pending, leased, completed, Dispatch, dispatch_mode_persistent, seconds,
}
use coworker.Store.Schema.{
  NullString, nullable_string, string_or_empty, equals, DispatchRow, Db, Faults, Error, begin_tx,
  select_rows, write_row, duplicate_key, missing_run, dispatch_not_found, dispatch_not_leased,
  claim_lost, run_exists, dispatch_id, Outcome,
}
use coworker.Store.Rows.{row}
use coworker.Store.Events.{write_event_then_row}

unfoldable pub is_pending : DispatchState → Bool
is_pending pending = true
is_pending _ = false

unfoldable pub is_leased : DispatchState → Bool
is_leased leased = true
is_leased _ = false

unfoldable pub is_null : NullString → Bool
is_null none = true
is_null (some s) = false

-- The event of a dispatch: its correlation id is the dispatch's id.
unfoldable pub dispatch_event : String → EventKind → String → String → Payload → ℕ → Event
dispatch_event event_id kind id run_id payload now = record {
  id = event_id;
  run_id = run_id;
  sequence = 0;
  kind = kind;
  schema_version = 1;
  idempotency_key = "";
  causation_id = "";
  correlation_id = id;
  payload = payload;
  created_at = now;
}

-- The defaults that EnqueueDispatch puts into the dispatch it is given: a fresh id, the time and
-- the state.
unfoldable pub prepared : String → ℕ → Dispatch → Dispatch
prepared fresh_id now d = record d {
  id = if d.id == "" then fresh_id else d.id;
  created_at = elim d.created_at [ none ↦ some now | some t ↦ some t ];
  state = pending;
}

-- The row that it inserts.
unfoldable pub queued_row : ℕ → Dispatch → DispatchRow
unfolding nullable_string
queued_row now d = record {
  id = d.id;
  run_id = d.run_id;
  role = d.role;
  job_id = nullable_string d.job_id;
  prompt = nullable_string d.prompt;
  inputs = d.inputs;
  state = d.state;
  worker_handle = nullable_string d.worker_handle;
  leased_at = none;
  completed_at = none;
  created_at = seconds (elim d.created_at [ none ↦ now | some t ↦ t ]);
  mode = if d.mode == "" then dispatch_mode_persistent else d.mode;
}

-- `INSERT INTO dispatches`, under PRIMARY KEY(id) and the foreign key run_id.
unfoldable pub insert_dispatch : Faults → DispatchRow → Db → Result Error Db
insert_dispatch f r db =
    if f.row
    then err write_row
    else if any (λ o. o.id == r.id) db.dispatches
    then err duplicate_key
    else if run_exists db r.run_id
    then ok (record db { dispatches = db.dispatches ++ r ∷ [] })
    else err missing_run

abbrev queued_payload : Dispatch → Payload
queued_payload d =
    ("dispatch_id", d.id) ∷ ("job_id", d.job_id) ∷ ("role", d.role) ∷ ("run_id", d.run_id) ∷ []

unfoldable pub queued_event : String → ℕ → Dispatch → Event
unfolding dispatch_event
queued_event event_id now d =
    dispatch_event event_id dispatch_queued d.id d.run_id (queued_payload d)
      (elim d.created_at [ none ↦ now | some t ↦ t ])

unfoldable pub enqueue_dispatch : Faults → ℕ → String → String → Dispatch → Db → Outcome
unfolding prepared queued_row queued_event
enqueue_dispatch f now fresh_id event_id d db =
    let d' = prepared fresh_id now d in
    write_event_then_row f (queued_event event_id now d') (insert_dispatch f (queued_row now d')) db

-- The test of the query: a registered worker sees the rows for it and those for anyone, a caller
-- with no handle only the latter.
unfoldable pub eligible : String → String → DispatchRow → Bool
unfolding is_pending is_null equals
eligible role handle r =
    is_pending r.state
    && (r.role == role
        && (if handle == ""
            then is_null r.worker_handle
            else equals r.worker_handle handle || is_null r.worker_handle))

-- `ORDER BY created_at ASC LIMIT 1`. SQL leaves the choice between rows of one time open.
pub record QueueOrder : Type 0 where
  pub oldest : List DispatchRow → Option DispatchRow
  pub oldest_none : (rows : List DispatchRow) → oldest rows ≡ none → rows ≡ []
  pub oldest_mem : (rows : List DispatchRow) (r : DispatchRow) → oldest rows ≡ some r → Memᴰ r rows
  pub oldest_min :
      (rows : List DispatchRow) (r : DispatchRow)
      → oldest rows ≡ some r
      → All (λ (o : DispatchRow). r.created_at ≤ o.created_at) rows

-- A row read into the Go struct.
unfoldable pub scan_dispatch : DispatchRow → Dispatch
unfolding string_or_empty
scan_dispatch r = record {
  id = r.id;
  run_id = r.run_id;
  role = r.role;
  job_id = string_or_empty r.job_id;
  prompt = string_or_empty r.prompt;
  inputs = r.inputs;
  state = r.state;
  worker_handle = string_or_empty r.worker_handle;
  leased_at = elim r.leased_at [ none ↦ none | some t ↦ some (t * 1_000_000_000) ];
  completed_at = elim r.completed_at [ none ↦ none | some t ↦ some (t * 1_000_000_000) ];
  created_at = some (r.created_at * 1_000_000_000);
  mode = r.mode;
}

-- `UPDATE dispatches SET state = 'leased', leased_at = ? WHERE id = ? AND state = 'pending'`.
unfoldable pub lease : ℕ → DispatchRow → DispatchRow
lease now r = record r { state = leased; leased_at = some (seconds now) }

unfoldable pub lease_dispatch : Faults → ℕ → String → Db → Result Error Db
unfolding is_pending lease
lease_dispatch f now id db =
    if f.row
    then err write_row
    else if eqb (count_where (λ r. dispatch_id r == id && is_pending r.state) db.dispatches) 0
    then err claim_lost
    else ok (record db {
      dispatches =
          update_where (λ r. dispatch_id r == id && is_pending r.state) (lease now) db.dispatches;
    })

-- The claimed dispatch as it is returned; a row that another caller has claimed is reported as
-- idle.
unfoldable pub claimed :
    ℕ → DispatchRow → Result Error (Unit {0}) × Db → Result Error (Option Dispatch) × Db
unfolding scan_dispatch
claimed now r (ok _, db) = (
  ok (
      some
        (record (scan_dispatch r) { state = leased; leased_at = some now; completed_at = none })),
  db,
)
claimed now r (err claim_lost, db) = (ok none, db)
claimed now r (err x, db) = (err x, db)

leased_payload : DispatchRow → Payload
unfolding string_or_empty
leased_payload r =
    ("dispatch_id", r.id)
    ∷ ("job_id", string_or_empty r.job_id)
    ∷ ("role", r.role)
    ∷ ("run_id", r.run_id)
    ∷ []

unfoldable pub leased_event : String → ℕ → DispatchRow → Event
unfolding dispatch_event leased_payload
leased_event event_id now r =
    dispatch_event event_id dispatch_leased r.id r.run_id (leased_payload r) now

-- What follows the query: the event and the update, in the transaction of the query.
unfoldable pub claim_found :
    Faults → ℕ → String → Option DispatchRow → Db → Result Error (Option Dispatch) × Db
unfolding leased_event
claim_found f now event_id none db = (ok none, db)
claim_found f now event_id (some r) db =
    claimed now r
      (write_event_then_row f (leased_event event_id now r) (lease_dispatch f now r.id) db)

module _ (order : QueueOrder) where
  unfoldable pub claim_next_dispatch :
      Faults → ℕ → String → String → String → Db → Result Error (Option Dispatch) × Db
  claim_next_dispatch f now event_id role handle db =
      if f.begin
      then (err begin_tx, db)
      else if f.select
      then (err select_rows, db)
      else claim_found f now event_id (order.oldest (select (eligible role handle) db.dispatches))
          db

-- `UPDATE dispatches SET state = 'completed', completed_at = ? WHERE id = ? AND state = 'leased'`.
unfoldable pub complete : ℕ → DispatchRow → DispatchRow
complete now r = record r { state = completed; completed_at = some (seconds now) }

unfoldable pub finish_dispatch : Faults → ℕ → String → Db → Result Error Db
unfolding is_leased complete
finish_dispatch f now id db =
    if f.row
    then err write_row
    else if eqb (count_where (λ r. dispatch_id r == id && is_leased r.state) db.dispatches) 0
    then err dispatch_not_leased
    else ok (record db {
      dispatches =
          update_where (λ r. dispatch_id r == id && is_leased r.state) (complete now) db.dispatches;
    })

unfoldable pub completed_event : String → ℕ → String → String → String → Event
unfolding dispatch_event
completed_event event_id now id outputs run_id =
    dispatch_event event_id dispatch_completed id run_id
      (("dispatch_id", id) ∷ ("outputs", outputs) ∷ ("run_id", run_id) ∷ []) now

unfoldable pub complete_found :
    Faults → ℕ → String → String → String → Option DispatchRow → Db → Outcome
unfolding completed_event
complete_found f now event_id id outputs none db = (err dispatch_not_found, db)
complete_found f now event_id id outputs (some r) db =
    write_event_then_row f (completed_event event_id now id outputs r.run_id)
      (finish_dispatch f now id) db

unfoldable pub complete_dispatch : Faults → ℕ → String → String → String → Db → Outcome
complete_dispatch f now event_id id outputs db =
    if f.select
    then (err select_rows, db)
    else complete_found f now event_id id outputs (row dispatch_id id db.dispatches) db

unfoldable pub get_dispatch : Faults → String → Db → Result Error (Option Dispatch)
unfolding scan_dispatch
get_dispatch f id db =
    if f.select
    then err select_rows
    else ok
        (elim (row dispatch_id id db.dispatches) [ none ↦ none | some r ↦ some (scan_dispatch r) ])
