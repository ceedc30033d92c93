-- ===== src/Tests/Queue.antt =====
-- The queue of dispatches and the registry of workers: the theorems at a small history.
use coworker.Prelude.{◌≡◌, ◌≢◌, refl, none, some, List, [], ◌∷◌, length, ok, select}
use coworker.Core.{leased, Dispatch, live, Worker}
use coworker.Store.Schema.{
  Db, DispatchRow, no_faults, dispatch_id, worker_handle, nullable_string, string_or_empty, equals,
}
use coworker.Store.Rows.{row, IsKeyed}
use coworker.Store.Events.{
  write_event_then_row, transaction, settle, publish, append_event, event_row, next_sequence,
  max_sequence, violates,
}
use coworker.Store.Events.Log.{sequences, upto}
use coworker.Store.Dispatches.{
  enqueue_dispatch, prepared, queued_row, insert_dispatch, queued_event, dispatch_event,
  claim_next_dispatch, claim_found, eligible, is_pending, is_null, lease_dispatch, lease,
  scan_dispatch, claimed, leased_event, complete_dispatch, complete_found, finish_dispatch,
  completed_event, is_leased,
}
use coworker.Store.Replay.{replay, status}
use coworker.Store.Roll.{life, life_of, broken}
use coworker.Store.History.{Operation, enqueue, claim, enroll, beat, leave, history, fresh}
use coworker.Store.History.Invariant.{dispatches_replay, workers_replay, sequences_gapless}
use coworker.Queue.Claim.{IsClaimed, claim_sound, claim_exclusive, claim_idle}
use coworker.Queue.Complete.{IsCompleted, complete_sound, complete_once}
use coworker.Tests.Samples.{a_run, sample_order, oldest, dispatch_for, loop_env}

abbrev worker : Worker
worker = record {
  handle = "w";
  role = "developer";
  pid = 7;
  session_id = "";
  cli = "codex";
  registered_at = none;
  last_heartbeat = none;
  state = live;
}

abbrev ops : List Operation
ops =
    enroll no_faults 1_000_000_000 "e1" worker
    ∷ enqueue no_faults 2_000_000_000 "x" "e2" (dispatch_for "d1" "developer" "")
    ∷ claim no_faults 3_000_000_000 "e3" "developer" "w"
    ∷ beat no_faults 4_000_000_000 "e4" "w"
    ∷ Operation.complete no_faults 5_000_000_000 "e5" "d1" "{}"
    ∷ Operation.release loop_env 6_000_000_000 [] "d1" "run"
    ∷ leave no_faults 7_000_000_000 "e6" "w"
    ∷ []

abbrev pub start : Db
start = fresh (a_run "run" ∷ []) (some [])

dispatches_replay_example :
    replay "d1" (history sample_order ops start).events
    ≡ status "d1" (history sample_order ops start)
dispatches_replay_example = dispatches_replay sample_order (a_run "run" ∷ []) (some []) ops "d1"

workers_replay_example :
    (life "w" (history sample_order ops start).events
      ≡ life_of (row worker_handle "w" (history sample_order ops start).workers))
    × (life "w" (history sample_order ops start).events ≢ broken)
workers_replay_example = workers_replay sample_order (a_run "run" ∷ []) (some []) ops "w"

sequences_gapless_example :
    sequences "run" (history sample_order ops start).events
    ≡ upto (length (sequences "run" (history sample_order ops start).events))
sequences_gapless_example = sequences_gapless sample_order (a_run "run" ∷ []) (some []) ops "run"

-- Two dispatches for anyone, at seconds 2 and 3.
abbrev pub queued : Db
queued =
    (enqueue_dispatch no_faults 3_000_000_000 "y" "e3" (dispatch_for "d2" "developer" "")
      (enqueue_dispatch no_faults 2_000_000_000 "x" "e2" (dispatch_for "d1" "developer" "")
        start).1).1

abbrev pub first : Dispatch
first = record (dispatch_for "d1" "developer" "") {
  state = leased;
  leased_at = some 4_000_000_000;
  created_at = some 2_000_000_000;
  mode = "persistent";
}

abbrev second : Dispatch
second = record (dispatch_for "d2" "developer" "") {
  state = leased;
  leased_at = some 5_000_000_000;
  created_at = some 3_000_000_000;
  mode = "persistent";
}

abbrev pub one_taken : Db
one_taken = (claim_next_dispatch sample_order no_faults 4_000_000_000 "e4" "developer" "w" queued).1

abbrev both_taken : Db
both_taken =
    (claim_next_dispatch sample_order no_faults 5_000_000_000 "e5" "developer" "v" one_taken).1

abbrev pub one_done : Db
one_done = (complete_dispatch no_faults 6_000_000_000 "e6" "d1" "{}" one_taken).1

pub queued-IsKeyed : IsKeyed dispatch_id queued.dispatches
unfolding enqueue_dispatch prepared queued_row insert_dispatch queued_event dispatch_event
    write_event_then_row transaction settle publish append_event event_row next_sequence
    max_sequence violates nullable_string
queued-IsKeyed = (refl, (refl, tt))

pub one_taken-IsKeyed : IsKeyed dispatch_id one_taken.dispatches
unfolding enqueue_dispatch prepared queued_row insert_dispatch queued_event dispatch_event
    write_event_then_row transaction settle publish append_event event_row next_sequence
    max_sequence violates nullable_string claim_next_dispatch claim_found eligible is_pending
    is_null equals oldest lease_dispatch lease scan_dispatch claimed leased_event string_or_empty
one_taken-IsKeyed = (refl, (refl, tt))

pub one_done-IsKeyed : IsKeyed dispatch_id one_done.dispatches
unfolding enqueue_dispatch prepared queued_row insert_dispatch queued_event dispatch_event
    write_event_then_row transaction settle publish append_event event_row next_sequence
    max_sequence violates nullable_string claim_next_dispatch claim_found eligible is_pending
    is_null equals oldest lease_dispatch lease scan_dispatch claimed leased_event string_or_empty
    complete_dispatch complete_found finish_dispatch coworker.Store.Dispatches.complete
    completed_event is_leased
one_done-IsKeyed = (refl, (refl, tt))

pub claim_first :
    claim_next_dispatch sample_order no_faults 4_000_000_000 "e4" "developer" "w" queued
    ≡ (ok (some first), one_taken)
unfolding enqueue_dispatch prepared queued_row insert_dispatch queued_event dispatch_event
    write_event_then_row transaction settle publish append_event event_row next_sequence
    max_sequence violates nullable_string claim_next_dispatch claim_found eligible is_pending
    is_null equals oldest lease_dispatch lease scan_dispatch claimed leased_event string_or_empty
claim_first = refl

claim_second :
    claim_next_dispatch sample_order no_faults 5_000_000_000 "e5" "developer" "v" one_taken
    ≡ (ok (some second), both_taken)
unfolding enqueue_dispatch prepared queued_row insert_dispatch queued_event dispatch_event
    write_event_then_row transaction settle publish append_event event_row next_sequence
    max_sequence violates nullable_string claim_next_dispatch claim_found eligible is_pending
    is_null equals oldest lease_dispatch lease scan_dispatch claimed leased_event string_or_empty
claim_second = refl

claim_none :
    claim_next_dispatch sample_order no_faults 4_000_000_000 "e4" "reviewer" "w" queued
    ≡ (ok none, queued)
unfolding enqueue_dispatch prepared queued_row insert_dispatch queued_event dispatch_event
    write_event_then_row transaction settle publish append_event event_row next_sequence
    max_sequence violates nullable_string claim_next_dispatch claim_found eligible is_pending
    is_null equals oldest lease_dispatch lease scan_dispatch claimed leased_event string_or_empty
claim_none = refl

complete_first :
    complete_dispatch no_faults 6_000_000_000 "e6" "d1" "{}" one_taken ≡ (ok tt, one_done)
unfolding enqueue_dispatch prepared queued_row insert_dispatch queued_event dispatch_event
    write_event_then_row transaction settle publish append_event event_row next_sequence
    max_sequence violates nullable_string claim_next_dispatch claim_found eligible is_pending
    is_null equals oldest lease_dispatch lease scan_dispatch claimed leased_event string_or_empty
    complete_dispatch complete_found finish_dispatch coworker.Store.Dispatches.complete
    completed_event is_leased
complete_first = refl

claim_sound_example :
    (r : DispatchRow) × IsClaimed sample_order 4_000_000_000 "developer" "w" queued one_taken first
      r
claim_sound_example =
    claim_sound sample_order no_faults 4_000_000_000 "e4" "developer" "w" queued one_taken first
      queued-IsKeyed claim_first

claim_exclusive_example : first.id ≢ second.id
claim_exclusive_example =
    claim_exclusive sample_order no_faults no_faults 4_000_000_000 5_000_000_000 "e4" "e5"
      "developer" "developer" "w" "v" queued one_taken both_taken first second queued-IsKeyed
      one_taken-IsKeyed claim_first claim_second

claim_idle_example : (select (eligible "reviewer" "w") queued.dispatches ≡ []) × (queued ≡ queued)
claim_idle_example =
    claim_idle sample_order no_faults 4_000_000_000 "e4" "reviewer" "w" queued queued queued-IsKeyed
      claim_none

complete_sound_example : (r : DispatchRow) × IsCompleted 6_000_000_000 "d1" one_taken one_done r
complete_sound_example =
    complete_sound no_faults 6_000_000_000 "e6" "d1" "{}" one_taken one_done one_taken-IsKeyed
      complete_first

complete_once_example :
    complete_dispatch no_faults 7_000_000_000 "e7" "d1" "{}" one_done ≢ (ok tt, one_done)
complete_once_example =
    complete_once no_faults no_faults 6_000_000_000 7_000_000_000 "e6" "e7" "d1" "{}" "{}" one_taken
      one_done one_done one_taken-IsKeyed one_done-IsKeyed complete_first
