-- ===== src/Queue/Requeue.antt =====
-- ExpireLeases and RequeueByWorker: which leases are taken back, and which are not.
use coworker.Prelude.{
  ℕ, ◌-◌, String, ◌≡◌, refl, ap, ◌∙◌, Bool, true, false, ◌&&◌, ◌||◌, Option, none, some, List, [],
  ◌∷◌, arith, ◌==◌, if◌then◌else◌, any, select, update_where, ok, eq_refl,
}
use coworker.Core.{Payload, completed, seconds}
use coworker.Store.Schema.{DispatchRow, Db, Faults, LoopEnv, dispatch_id, after, after_ok, Outcome}
use coworker.Store.Rows.{
  row, IsKeyed, changed, row-update, row-update_where, IsKeyed-update, passes, any-select,
}
use coworker.Store.Events.{publish}
use coworker.Store.Events.Log.{logged, write_ok}
use coworker.Store.Dispatches.{is_leased}
use coworker.Store.Leases.{
  release, release_dispatch, release_one, release_each, expired_event, lease_expired,
  expired_payload, expire_leases, leased_by, evicted_payload, pending_for, untarget, clear_targets,
  requeue_by_worker,
}

-- What a release makes of a row: a lease goes back into the queue, for anyone.
abbrev released : Option DispatchRow → Option DispatchRow
released = changed dispatch_id (λ (r : DispatchRow). is_leased r.state) release

release_ok :
    (f : Faults) (id : String) (db p : Db)
    → release_dispatch f id db ≡ ok p
    → p.dispatches
      ≡ update_where (λ r. dispatch_id r == id && is_leased r.state) release db.dispatches
unfolding release_dispatch
release_ok f id db p a = ground arith

-- One round of a loop that reports no error: the table is keyed after it, and one row is released.
release_one_rows :
    (env : LoopEnv) (now : ℕ) (payload : Payload) (id run_id : String) (db db' : Db)
    → IsKeyed dispatch_id db.dispatches
    → release_one env now payload id run_id db ≡ (ok tt, db')
    → IsKeyed dispatch_id db'.dispatches
      × ((j : String)
          → row dispatch_id j db'.dispatches ≡ (
              if id == j
              then released (row dispatch_id j db.dispatches)
              else row dispatch_id j db.dispatches))
unfolding release_one publish
release_one_rows env now payload id run_id db db' d h =
    let e = expired_event (env.event_id id) now payload id run_id in
    let (p, a, made) = write_ok (env.faults id) e (release_dispatch (env.faults id) id) db db' h in
    let table = release_ok (env.faults id) id (logged e db) p a in
    (
      rw (made, table)
          (IsKeyed-update dispatch_id (λ (o : DispatchRow). is_leased o.state) release
            (λ o. unfold release in refl) (λ r. dispatch_id r == id && is_leased r.state)
            db.dispatches d),
      λ j.
          rw (made, table)
            (row-update dispatch_id (λ (o : DispatchRow). is_leased o.state) release
              (λ o. unfold release in refl) id j db.dispatches d),
    )

released_idem : (o : Option DispatchRow) → released (released o) ≡ released o
unfolding is_leased release
released_idem none = refl
released_idem (some r) = ground arith

-- The whole loop, where it reports no error: the rows of the list are released, the others stay.
release_each_rows :
    (env : LoopEnv) (now : ℕ) (payload : DispatchRow → Payload) (rows : List DispatchRow)
    (db db' : Db)
    → IsKeyed dispatch_id db.dispatches
    → release_each env now payload rows db ≡ (ok tt, db')
    → (j : String)
    → row dispatch_id j db'.dispatches ≡ (
        if any (λ r. dispatch_id r == j) rows
        then released (row dispatch_id j db.dispatches)
        else row dispatch_id j db.dispatches)
unfolding release_each
release_each_rows env now payload [] db db' d h j =
    let same : db ≡ db' = cc (ap (λ (o : Outcome). o.1) h) in rw same
release_each_rows env now payload (r ∷ rest) db db' d h j =
    let (mid, one, others) =
      after_ok (release_one env now (payload r) r.id r.run_id db)
        (release_each env now payload rest) db' h in
    let (keyed, rows) = release_one_rows env now (payload r) r.id r.run_id db mid d one in
    release_each_rows env now payload rest mid db' keyed others j
    ∙ (rw (rows j)
        (both (r.id == j) (any (λ o. dispatch_id o == j) rest) (row dispatch_id j db.dispatches)))
  where
    both :
        (b c : Bool) (o : Option DispatchRow)
        → (if c then released (if b then released o else o) else (if b then released o else o))
          ≡ (if b || c then released o else o)
    both true true o = released_idem o
    both true false o = refl
    both false true o = refl
    both false false o = refl

-- The loop over what a query selected.
release_selected :
    (q : DispatchRow → Bool) (env : LoopEnv) (now : ℕ) (payload : DispatchRow → Payload)
    (db db' : Db)
    → IsKeyed dispatch_id db.dispatches
    → release_each env now payload (select q db.dispatches) db ≡ (ok tt, db')
    → (j : String)
    → row dispatch_id j db'.dispatches ≡ (
        if passes dispatch_id q (row dispatch_id j db.dispatches)
        then released (row dispatch_id j db.dispatches)
        else row dispatch_id j db.dispatches)
release_selected q env now payload db db' d h j =
    release_each_rows env now payload (select q db.dispatches) db db' d h j
    ∙ (rw (any-select dispatch_id q j db.dispatches d))

-- What ExpireLeases makes of a row: a lease taken at or before the cutoff goes back, for anyone.
abbrev pub expired_row : ℕ → Option DispatchRow → Option DispatchRow
expired_row cutoff none = none
expired_row cutoff (some r) = some (if lease_expired cutoff r then release r else r)

-- An ExpireLeases that reports no error puts exactly the leases that are at least `timeout` old,
-- by their stored seconds, back into the queue for anyone, and changes no other row.
-- No two dispatches of the table have the same id.
pub expire_leases_lem :
    (f : Faults) (env : LoopEnv) (now later timeout : ℕ) (db db' : Db)
    → IsKeyed dispatch_id db.dispatches
    → expire_leases f env now later timeout db ≡ (ok tt, db')
    → (id : String)
    → row dispatch_id id db'.dispatches
      ≡ expired_row (seconds (now - timeout)) (row dispatch_id id db.dispatches)
unfolding expire_leases
expire_leases_lem f env now later timeout db db' d h id =
    release_selected q env later expired_payload db db' d loop id
    ∙ each (row dispatch_id id db.dispatches)
  where
    q : DispatchRow → Bool
    q = lease_expired (seconds (now - timeout))

    loop : release_each env later expired_payload (select q db.dispatches) db ≡ (ok tt, db')
    loop = ground arith

    each :
        (o : Option DispatchRow)
        → (if passes dispatch_id q o then released o else o)
          ≡ expired_row (seconds (now - timeout)) o
    each none = refl
    each (some r) = unfold lease_expired in ground arith

-- What RequeueByWorker makes of a row: a lease of the worker goes back, and a dispatch that waits
-- for it, for anyone.
abbrev pub requeued_row : String → Option DispatchRow → Option DispatchRow
requeued_row handle none = none
requeued_row handle (some r) =
    some (if leased_by handle r then release r else if pending_for handle r then untarget r else r)

clear_ok :
    (f : Faults) (handle : String) (db db' : Db)
    → clear_targets f handle db ≡ (ok tt, db')
    → db'.dispatches ≡ update_where (pending_for handle) untarget db.dispatches
unfolding clear_targets
clear_ok f handle db db' h = ground arith

requeued_phases :
    (handle : String) (r : DispatchRow)
    → changed dispatch_id
        (pending_for handle)
        untarget
        (if leased_by handle r then released (some r) else some r)
      ≡ requeued_row handle (some r)
unfolding leased_by pending_for release untarget
requeued_phases handle r = ground arith

pub requeue_by_worker_lem :
    (f : Faults) (env : LoopEnv) (now : ℕ) (handle : String) (db db' : Db)
    → IsKeyed dispatch_id db.dispatches
    → requeue_by_worker f env now handle db ≡ (ok tt, db')
    → (id : String)
    → row dispatch_id id db'.dispatches ≡ requeued_row handle (row dispatch_id id db.dispatches)
unfolding requeue_by_worker
requeue_by_worker_lem f env now handle db db' d h id =
    let (mid, released_all, cleared) =
      after_ok
        (release_each env now (evicted_payload handle) (select (leased_by handle) db.dispatches) db)
        (clear_targets f handle) db' both_phases in
    rw (clear_ok f handle mid db' cleared) (
      rw
        (row-update_where dispatch_id (pending_for handle) untarget (λ r. unfold untarget in refl)
          id mid.dispatches)
        (rw
          (release_selected (leased_by handle) env now (evicted_payload handle) db mid d
            released_all id)
          (each (row dispatch_id id db.dispatches))))
  where
    both_phases :
        after
          (release_each env now
            (evicted_payload handle)
            (select (leased_by handle) db.dispatches)
            db)
          (clear_targets f handle)
        ≡ (ok tt, db')
    both_phases = ground arith

    each :
        (o : Option DispatchRow)
        → changed dispatch_id
            (pending_for handle)
            untarget
            (if passes dispatch_id (leased_by handle) o then released o else o)
          ≡ requeued_row handle o
    each none = refl
    each (some r) = requeued_phases handle r

-- An expiry that comes after the completion of its dispatch (which another caller may have made
-- since ExpireLeases or RequeueByWorker ran its query) still logs a dispatch.expired event, and
-- leaves the completed row as it is.
-- No two dispatches of the table have the same id.
pub phantom_expiry :
    (env : LoopEnv) (now : ℕ) (payload : Payload) (id run_id : String) (r : DispatchRow)
    (db db' : Db)
    → IsKeyed dispatch_id db.dispatches
    → row dispatch_id id db.dispatches ≡ some r
    → r.state ≡ completed
    → release_one env now payload id run_id db ≡ (ok tt, db')
    → (row dispatch_id id db'.dispatches ≡ some r)
      × (db'.events ≡ (logged (expired_event (env.event_id id) now payload id run_id) db).events)
unfolding release_one publish
phantom_expiry env now payload id run_id r db db' d at state h =
    let e = expired_event (env.event_id id) now payload id run_id in
    let (p, a, made) = write_ok (env.faults id) e (release_dispatch (env.faults id) id) db db' h in
    let (keyed, rows) = release_one_rows env now payload id run_id db db' d h in
    (rows id ∙ (rw (eq_refl, at) (stays r state)), rw made (keeps p a))
  where
    stays : (r : DispatchRow) → r.state ≡ completed → released (some r) ≡ some r
    stays r c = unfold is_leased in ground arith

    keeps :
        (p : Db)
        → release_dispatch
            (env.faults id)
            id
            (logged (expired_event (env.event_id id) now payload id run_id) db)
          ≡ ok p
        → p.events ≡ (logged (expired_event (env.event_id id) now payload id run_id) db).events
    keeps p a = unfold release_dispatch in ground arith
