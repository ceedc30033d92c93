-- ===== src/Tests/Leases.antt =====
-- Leases that end without a completion: the theorems at two dispatches of one role.
use coworker.Prelude.{◌-◌, String, ◌≡◌, ◌≢◌, refl, some, [], arith, ok, ◌≢◌}
use coworker.Core.{pending, leased, completed, seconds}
use coworker.Store.Schema.{
  Db, DispatchRow, no_faults, dispatch_id, nullable_string, string_or_empty, equals,
}
use coworker.Store.Rows.{row}
use coworker.Store.Events.{
  write_event_then_row, transaction, settle, publish, append_event, event_row, next_sequence,
  max_sequence, violates,
}
use coworker.Store.Events.Log.{logged}
use coworker.Store.Dispatches.{
  enqueue_dispatch, prepared, queued_row, insert_dispatch, queued_event, dispatch_event,
  claim_next_dispatch, claim_found, eligible, is_pending, is_null, lease_dispatch, lease,
  scan_dispatch, claimed, leased_event, complete, complete_dispatch, complete_found,
  finish_dispatch, completed_event, is_leased,
}
use coworker.Store.Leases.{
  release, release_dispatch, expired_event, release_one, release_each, lease_expired, expire_leases,
  leased_by, pending_for, untarget, clear_targets, requeue_by_worker,
}
use coworker.Store.Replay.{status}
use coworker.Queue.Requeue.{expired_row, expire_leases_lem, phantom_expiry}
use coworker.Queue.Leases.{lease_returns, lease_kept, orphaned_lease}
use coworker.Tests.Samples.{sample_order, oldest, dispatch_for, loop_env}
use coworker.Tests.Queue.{
  first, queued, one_taken, one_done, queued-IsKeyed, one_taken-IsKeyed, one_done-IsKeyed,
  claim_first,
}

-- Ten seconds after the claim, with a timeout of five.
abbrev expired : Db
expired = (expire_leases no_faults loop_env 14_000_000_000 14_000_000_000 5_000_000_000 one_taken).1

expire_run :
    expire_leases no_faults loop_env 14_000_000_000 14_000_000_000 5_000_000_000 one_taken
    ≡ (ok tt, expired)
unfolding enqueue_dispatch prepared queued_row insert_dispatch queued_event dispatch_event
    write_event_then_row transaction settle publish append_event event_row next_sequence
    max_sequence violates nullable_string claim_next_dispatch claim_found eligible is_pending
    is_null equals oldest lease_dispatch lease scan_dispatch claimed leased_event string_or_empty
    release_each release_one release_dispatch release expired_event is_leased expire_leases
    lease_expired
expire_run = refl

expire_leases_lem_example :
    row dispatch_id "d1" expired.dispatches
    ≡ expired_row
        (seconds (14_000_000_000 - 5_000_000_000))
        (row dispatch_id "d1" one_taken.dispatches)
expire_leases_lem_example =
    expire_leases_lem no_faults loop_env 14_000_000_000 14_000_000_000 5_000_000_000 one_taken
      expired one_taken-IsKeyed expire_run "d1"

lease_returns_example : status first.id expired ≡ some pending
lease_returns_example =
    lease_returns sample_order no_faults no_faults loop_env 4_000_000_000 14_000_000_000
      14_000_000_000 5_000_000_000 "e4" "developer" "w" queued one_taken expired first
      queued-IsKeyed one_taken-IsKeyed (omega arith) claim_first expire_run (omega arith)

-- Two seconds after the claim, with the same timeout.
abbrev unexpired : Db
unexpired = (expire_leases no_faults loop_env 6_000_000_000 6_000_000_000 5_000_000_000 one_taken).1

early_run :
    expire_leases no_faults loop_env 6_000_000_000 6_000_000_000 5_000_000_000 one_taken
    ≡ (ok tt, unexpired)
unfolding enqueue_dispatch prepared queued_row insert_dispatch queued_event dispatch_event
    write_event_then_row transaction settle publish append_event event_row next_sequence
    max_sequence violates nullable_string claim_next_dispatch claim_found eligible is_pending
    is_null equals oldest lease_dispatch lease scan_dispatch claimed leased_event string_or_empty
    release_each release_one release_dispatch release expired_event is_leased expire_leases
    lease_expired
early_run = refl

lease_kept_example : status first.id unexpired ≡ some leased
lease_kept_example =
    lease_kept sample_order no_faults no_faults loop_env 4_000_000_000 6_000_000_000 6_000_000_000
      5_000_000_000 "e4" "developer" "w" queued one_taken unexpired first queued-IsKeyed
      one_taken-IsKeyed (omega arith) claim_first early_run (omega arith)

abbrev requeued : Db
requeued = (requeue_by_worker no_faults loop_env 14_000_000_000 "w" one_taken).1

requeue_run : requeue_by_worker no_faults loop_env 14_000_000_000 "w" one_taken ≡ (ok tt, requeued)
unfolding enqueue_dispatch prepared queued_row insert_dispatch queued_event dispatch_event
    write_event_then_row transaction settle publish append_event event_row next_sequence
    max_sequence violates nullable_string claim_next_dispatch claim_found eligible is_pending
    is_null equals oldest lease_dispatch lease scan_dispatch claimed leased_event string_or_empty
    release_each release_one release_dispatch release expired_event is_leased requeue_by_worker
    leased_by pending_for untarget clear_targets
requeue_run = refl

w_named : ◌≢◌ {A = String} "w" ""
w_named e = absurd (cc)

orphaned_lease_example :
    (row dispatch_id first.id requeued.dispatches ≡ row dispatch_id first.id one_taken.dispatches)
    × (status first.id requeued ≡ some leased)
orphaned_lease_example =
    orphaned_lease sample_order no_faults no_faults loop_env 4_000_000_000 14_000_000_000 "e4"
      "developer" "w" "w" queued one_taken requeued first queued-IsKeyed one_taken-IsKeyed refl
      w_named claim_first requeue_run

abbrev done_row : DispatchRow
done_row = complete 6_000_000_000 (
    lease 4_000_000_000
      (queued_row 2_000_000_000 (prepared "x" 2_000_000_000 (dispatch_for "d1" "developer" ""))))

done_row_at : row dispatch_id "d1" one_done.dispatches ≡ some done_row
unfolding enqueue_dispatch prepared queued_row insert_dispatch queued_event dispatch_event
    write_event_then_row transaction settle publish append_event event_row next_sequence
    max_sequence violates nullable_string claim_next_dispatch claim_found eligible is_pending
    is_null equals oldest lease_dispatch lease scan_dispatch claimed leased_event string_or_empty
    complete_dispatch complete_found finish_dispatch complete completed_event is_leased
done_row_at = refl

done_row_completed : done_row.state ≡ completed
unfolding complete
done_row_completed = refl

abbrev late : Db
late = (release_one loop_env 14_000_000_000 [] "d1" "run" one_done).1

late_run : release_one loop_env 14_000_000_000 [] "d1" "run" one_done ≡ (ok tt, late)
unfolding enqueue_dispatch prepared queued_row insert_dispatch queued_event dispatch_event
    write_event_then_row transaction settle publish append_event event_row next_sequence
    max_sequence violates nullable_string claim_next_dispatch claim_found eligible is_pending
    is_null equals oldest lease_dispatch lease scan_dispatch claimed leased_event string_or_empty
    complete_dispatch complete_found finish_dispatch complete completed_event is_leased release_each
    release_one release_dispatch release expired_event
late_run = refl

phantom_expiry_example :
    (row dispatch_id "d1" late.dispatches ≡ some done_row)
    × (late.events ≡ (logged (expired_event "d1" 14_000_000_000 [] "d1" "run") one_done).events)
phantom_expiry_example =
    phantom_expiry loop_env 14_000_000_000 [] "d1" "run" done_row one_done late one_done-IsKeyed
      done_row_at done_row_completed late_run
