-- ===== src/Store/Events.antt =====
-- store/event_store.go: the append-only event log, one write of which also updates a projection in
-- the same transaction.
pub mod Log
use coworker.Prelude.{
  ℕ, ◌+◌, max, ◌<◌, String, Bool, true, false, ◌&&◌, ◌||◌, not, Option, none, some, List, [], ◌∷◌,
  ◌++◌, ◌==◌, eqb, ltb, if◌then◌else◌, any, count_where, Result, ok, err, ◌>>=◌, ◌>>◌, guard,
}
use coworker.Core.{Event, seconds}
use coworker.Store.Schema.{
  NullString, nullable_string, equals, EventRow, Db, Faults, Error, begin_tx, select_rows,
  compute_sequence, insert_event, commit_tx, duplicate_key, empty_idempotency_key,
}

-- `SELECT COALESCE(MAX(sequence), 0) FROM events WHERE run_id = ?`.
unfoldable pub max_sequence : String → List EventRow → ℕ
max_sequence run_id [] = 0
max_sequence run_id (e ∷ events) =
    let rest = max_sequence run_id events in
    if e.run_id == run_id then max e.sequence rest else rest

unfoldable pub next_sequence : String → List EventRow → ℕ
unfolding max_sequence
next_sequence run_id events = max_sequence run_id events + 1

-- The row that the INSERT writes.
unfoldable pub event_row : Event → EventRow
unfolding nullable_string
event_row e = record {
  id = e.id;
  run_id = e.run_id;
  sequence = e.sequence;
  kind = e.kind;
  schema_version = e.schema_version;
  idempotency_key = nullable_string e.idempotency_key;
  causation_id = nullable_string e.causation_id;
  correlation_id = nullable_string e.correlation_id;
  payload = e.payload;
  created_at = seconds e.created_at;
}

-- A key that UNIQUE(idempotency_key) compares: NULLs are all different.
key_taken : NullString → List EventRow → Bool
key_taken none events = false
key_taken (some key) events = any (λ r. equals r.idempotency_key key) events

-- The constraints PRIMARY KEY(id), UNIQUE(run_id, sequence) and UNIQUE(idempotency_key).
unfoldable pub violates : EventRow → List EventRow → Bool
unfolding key_taken equals
violates r events =
    any (λ o. o.id == r.id) events
    || (any (λ o. o.run_id == r.run_id && eqb o.sequence r.sequence) events
        || key_taken r.idempotency_key events)

-- `INSERT INTO events`.
unfoldable pub append_event : Faults → Event → Db → Result Error Db
append_event f e db =
    let r = event_row e in
    if f.insert
    then err insert_event
    else if violates r db.events
    then err duplicate_key
    else ok (record db { events = db.events ++ r ∷ [] })

-- `event.Sequence = seq`.
abbrev pub stamped : Event → Db → Event
stamped e db = record e { sequence = next_sequence e.run_id db.events }

-- `s.Bus.Publish(event)`, where a bus is set.
unfoldable pub publish : Event → Db → Db
publish e db = record db { bus = elim db.bus [ none ↦ none | some sent ↦ some (sent ++ e ∷ []) ] }

-- The calls between BeginTx and Commit, on the transaction's view of the database.
unfoldable pub transaction : Faults → Event → (Db → Result Error Db) → Db → Result Error Db
transaction f e apply_fn db = do
  guard (not f.begin) begin_tx
  guard (not f.sequence) compute_sequence
  logged ← append_event f (stamped e db) db
  projected ← apply_fn logged
  guard (not f.commit) commit_tx
  ok projected

-- The deferred Rollback leaves the database as it was; after a Commit the event is published.
unfoldable pub settle : Event → Db → Result Error Db → Result Error (Unit {0}) × Db
unfolding publish
settle e db (ok projected) = (ok tt, publish e projected)
settle e db (err x) = (err x, db)

unfoldable pub write_event_then_row :
    Faults → Event → (Db → Result Error Db) → Db → Result Error (Unit {0}) × Db
unfolding transaction settle
write_event_then_row f e apply_fn db = settle (stamped e db) db (transaction f e apply_fn db)

key_count : String → List EventRow → ℕ
unfolding equals
key_count key events = count_where (λ r. equals r.idempotency_key key) events

-- The second result of the write, with whether the event was written.
written : Result Error (Unit {0}) × Db → Result Error Bool × Db
written (ok _, db) = (ok true, db)
written (err x, db) = (err x, db)

unfoldable pub write_event_idempotent :
    Faults → Event → (Db → Result Error Db) → Db → Result Error Bool × Db
unfolding key_count written
write_event_idempotent f e apply_fn db =
    if e.idempotency_key == ""
    then (err empty_idempotency_key, db)
    else if f.select
    then (err select_rows, db)
    else if ltb 0 (key_count e.idempotency_key db.events)
    then (ok false, db)
    else written (write_event_then_row f e apply_fn db)
