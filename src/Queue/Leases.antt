-- ===== src/Queue/Leases.antt =====
-- A claimed dispatch and the ways in which its lease may end.
use coworker.Prelude.{
  ℕ, ◌+◌, ◌-◌, ◌≤◌, String, ◌≡◌, ◌≢◌, refl, sym, ap, ◌∙◌, some, arith, eq_iff, ok, eq_refl,
}
use coworker.Core.{pending, leased, Dispatch, seconds}
use coworker.Store.Schema.{string_or_empty, DispatchRow, Db, Faults, LoopEnv, dispatch_id}
use coworker.Store.Rows.{row, IsKeyed}
use coworker.Store.Dispatches.{QueueOrder, lease, scan_dispatch, claim_next_dispatch}
use coworker.Store.Leases.{
  release, lease_expired, expire_leases, leased_by, pending_for, requeue_by_worker,
}
use coworker.Store.Replay.{status, state_of}
use coworker.Queue.Claim.{claim_sound}
use coworker.Queue.Requeue.{expire_leases_lem, requeue_by_worker_lem, expired_row, requeued_row}

-- The stored seconds round both times down, so a lease may end up to a second early.
expired_lease :
    (t now timeout : ℕ) (r : DispatchRow)
    → timeout ≤ now
    → (t + timeout ≤ now
        → state_of (expired_row (seconds (now - timeout)) (some (lease t r))) ≡ some pending)
      × (now + 1_000_000_000 ≤ t + timeout
          → state_of (expired_row (seconds (now - timeout)) (some (lease t r))) ≡ some leased)
unfolding lease lease_expired release
expired_lease t now timeout r h = (λ old. ground arith, λ young. ground arith)

lease_duration :
    (order : QueueOrder) (f f' : Faults) (env : LoopEnv) (t now later timeout : ℕ)
    (event_id role handle : String) (db db' db'' : Db) (d : Dispatch)
    → IsKeyed dispatch_id db.dispatches
    → IsKeyed dispatch_id db'.dispatches
    → timeout ≤ now
    → claim_next_dispatch order f t event_id role handle db ≡ (ok (some d), db')
    → expire_leases f' env now later timeout db' ≡ (ok tt, db'')
    → (t + timeout ≤ now → status d.id db'' ≡ some pending)
      × (now + 1_000_000_000 ≤ t + timeout → status d.id db'' ≡ some leased)
lease_duration order f f' env t now later timeout event_id role handle db db' db'' d k k' small
      claim expire =
    let (r, c) = claim_sound order f t event_id role handle db db' d k claim in
    let after = expire_leases_lem f' env now later timeout db' db'' k' expire d.id in
    let at : row dispatch_id d.id db'.dispatches ≡ some (lease t r) =
      rw eq_refl at (c.rows_after d.id) in
    rw (after, at) (expired_lease t now timeout r small)

orphan_row :
    (gone : String) (t : ℕ) (r : DispatchRow)
    → string_or_empty r.worker_handle ≡ ""
    → gone ≢ ""
    → requeued_row gone (some (lease t r)) ≡ some (lease t r)
unfolding lease leased_by pending_for string_or_empty
orphan_row gone t r anyone named = ground (arith, eq_iff "" gone)

-- A dispatch claimed at time t is back in the queue after an ExpireLeases at a time now that is at
-- least the timeout later.
-- The time now is at least the timeout, and no two dispatches of either table have the same id.
pub lease_returns :
    (order : QueueOrder) (f f' : Faults) (env : LoopEnv) (t now later timeout : ℕ)
    (event_id role handle : String) (db db' db'' : Db) (d : Dispatch)
    → IsKeyed dispatch_id db.dispatches
    → IsKeyed dispatch_id db'.dispatches
    → timeout ≤ now
    → claim_next_dispatch order f t event_id role handle db ≡ (ok (some d), db')
    → expire_leases f' env now later timeout db' ≡ (ok tt, db'')
    → t + timeout ≤ now
    → status d.id db'' ≡ some pending
lease_returns order f f' env t now later timeout event_id role handle db db' db'' d k k' small claim
      expire over =
    (lease_duration order f f' env t now later timeout event_id role handle db db' db'' d k k' small
        claim expire).0
      over

-- A dispatch claimed at time t is still leased after an ExpireLeases at a time now that is a second
-- or more before the timeout is over.
-- The time now is at least the timeout, and no two dispatches of either table have the same id.
pub lease_kept :
    (order : QueueOrder) (f f' : Faults) (env : LoopEnv) (t now later timeout : ℕ)
    (event_id role handle : String) (db db' db'' : Db) (d : Dispatch)
    → IsKeyed dispatch_id db.dispatches
    → IsKeyed dispatch_id db'.dispatches
    → timeout ≤ now
    → claim_next_dispatch order f t event_id role handle db ≡ (ok (some d), db')
    → expire_leases f' env now later timeout db' ≡ (ok tt, db'')
    → now + 1_000_000_000 ≤ t + timeout
    → status d.id db'' ≡ some leased
lease_kept order f f' env t now later timeout event_id role handle db db' db'' d k k' small claim
      expire young =
    (lease_duration order f f' env t now later timeout event_id role handle db db' db'' d k k' small
        claim expire).1
      young

-- A dispatch that was queued for anyone does not get the handle of the worker that claims it: when
-- RequeueByWorker is run for any worker, the claimant too, the dispatch stays leased, and its row
-- stays as the claim left it.
-- No two dispatches of either table have the same id.
pub orphaned_lease :
    (order : QueueOrder) (f f' : Faults) (env : LoopEnv) (t now : ℕ)
    (event_id role handle gone : String) (db db' db'' : Db) (d : Dispatch)
    → IsKeyed dispatch_id db.dispatches
    → IsKeyed dispatch_id db'.dispatches
    → d.worker_handle ≡ ""
    → gone ≢ ""
    → claim_next_dispatch order f t event_id role handle db ≡ (ok (some d), db')
    → requeue_by_worker f' env now gone db' ≡ (ok tt, db'')
    → (row dispatch_id d.id db''.dispatches ≡ row dispatch_id d.id db'.dispatches)
      × (status d.id db'' ≡ some leased)
orphaned_lease order f f' env t now event_id role handle gone db db' db'' d k k' open_to_all named
      claim requeue =
    let (r, c) = claim_sound order f t event_id role handle db db' d k claim in
    let after = requeue_by_worker_lem f' env now gone db' db'' k' requeue d.id in
    let at : row dispatch_id d.id db'.dispatches ≡ some (lease t r) =
      rw eq_refl at (c.rows_after d.id) in
    let anyone : string_or_empty r.worker_handle ≡ "" =
      sym (ap (λ (x : Dispatch). x.worker_handle) c.returned ∙ (unfold scan_dispatch in refl))
      ∙ open_to_all in
    let kept = orphan_row gone t r anyone named in
    let end : row dispatch_id d.id db''.dispatches ≡ some (lease t r) =
      after ∙ ap (requeued_row gone) at ∙ kept in
    (end ∙ sym at, ap state_of end ∙ (unfold lease in refl))
