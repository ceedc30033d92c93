-- ===== src/Store/Replay/Writes.antt =====
-- Each operation of the queue keeps the table a projection of the log.
use coworker.Prelude.{
  ℕ, String, ◌≡◌, refl, sym, ap, ◌∙◌, Bool, true, false, ◌&&◌, Option, none, some, List, [], ◌∷◌,
  ◌++◌, arith, ◌==◌, eq_iff, if◌then◌else◌, update_where, Result, ok, subst,
}
use coworker.Core.{
  dispatch_queued, dispatch_leased, dispatch_completed, dispatch_expired, Event, DispatchState,
  pending,
}
use coworker.Store.Schema.{EventRow, DispatchRow, Db, Faults, Error, dispatch_id}
use coworker.Store.Rows.{
  row, any-row, row-append_self, IsKeyed-append_lem, changed, row-update, IsKeyed-update,
}
use coworker.Store.Events.{event_row, stamped, publish, write_event_then_row}
use coworker.Store.Events.Log.{logged, write_rule}
use coworker.Store.Dispatches.{
  is_pending, is_leased, insert_dispatch, lease, lease_dispatch, complete, finish_dispatch,
}
use coworker.Store.Leases.{release, release_dispatch}
use coworker.Store.Replay.{advance, about, replay_from, replay, state_of, status, IsProjected}

replay_from-append :
    (s : Option DispatchState) (id : String) (events : List EventRow) (e : EventRow)
    → replay_from s id (events ++ e ∷ [])
      ≡ (if about id e then advance e.kind (replay_from s id events) else replay_from s id events)
unfolding replay_from
replay_from-append s id [] e = refl
replay_from-append s id (x ∷ events) e =
    replay_from-append (if about id x then advance x.kind s else s) id events e

pub about-event_row : (id : String) (e : Event) → about id (event_row e) ≡ (e.correlation_id == id)
unfolding about event_row
about-event_row id e =
    ground (arith, eq_iff id "", eq_iff e.correlation_id "", eq_iff e.correlation_id id)

-- One more event in the log is one more step of the dispatch that it is about.
pub replay-logged :
    (id : String) (e : Event) (db : Db)
    → replay id (logged e db).events ≡ (
        if e.correlation_id == id
        then advance e.kind (replay id db.events)
        else replay id db.events)
unfolding event_row
replay-logged id e db =
    replay_from-append none id db.events (event_row (stamped e db))
    ∙ ap (λ b. if b then advance e.kind (replay id db.events) else replay id db.events)
        (about-event_row id (stamped e db))

-- An UPDATE of the row of `id` that does to every state what the event of the write does.
update-IsProjected :
    (e : Event) (id : String) (db : Db) (p : DispatchRow → Bool) (g : DispatchRow → DispatchRow)
    → e.correlation_id ≡ id
    → ((r : DispatchRow) → dispatch_id (g r) ≡ dispatch_id r)
    → ((r : DispatchRow)
        → some (if p r then (g r).state else r.state) ≡ advance e.kind (some r.state))
    → advance e.kind none ≡ none
    → IsProjected db
    → IsProjected (record (logged e db) {
      dispatches = update_where (λ r. dispatch_id r == id && p r) g db.dispatches;
    })
update-IsProjected e id db p g corr same follows absent h = record {
  keyed =
      IsKeyed-update dispatch_id p g same (λ r. dispatch_id r == id && p r) db.dispatches h.keyed;
  agrees = λ j. rw replay-logged (
      rw (row-update dispatch_id p g same id j db.dispatches h.keyed)
        (rw (corr, h.agrees) (split (id == j) j)));
}
  where
    follow :
        (o : Option DispatchRow)
        → advance e.kind (state_of o) ≡ state_of (changed dispatch_id p g o)
    follow none = absent
    follow (some r) = sym (follows r) ∙ ground arith

    split :
        (b : Bool) (j : String)
        → (if b then advance e.kind (status j db) else status j db)
          ≡ state_of (
              if b
              then changed dispatch_id p g (row dispatch_id j db.dispatches)
              else row dispatch_id j db.dispatches)
    split true j = follow (row dispatch_id j db.dispatches)
    split false j = refl

publish-IsProjected : (e : Event) (p : Db) → IsProjected p → IsProjected (publish e p)
unfolding publish
publish-IsProjected e p h = record { keyed = h.keyed; agrees = h.agrees }

-- A write of which the projection keeps the agreement, inside the transaction, keeps it.
pub write-IsProjected :
    (f : Faults) (e : Event) (apply_fn : Db → Result Error Db) (db : Db)
    → IsProjected db
    → ((p : Db) → apply_fn (logged e db) ≡ ok p → IsProjected p)
    → IsProjected (write_event_then_row f e apply_fn db).1
write-IsProjected f e apply_fn db h keeps =
    write_rule IsProjected f e apply_fn db h
      (λ p a. publish-IsProjected (stamped e db) p (keeps p a))

insert_ok :
    (f : Faults) (r : DispatchRow) (db p : Db)
    → insert_dispatch f r db ≡ ok p
    → (row dispatch_id r.id db.dispatches ≡ none)
      × (p ≡ record db { dispatches = db.dispatches ++ r ∷ [] })
unfolding insert_dispatch
insert_ok f r db p a = ground (arith, any-row dispatch_id r.id db.dispatches)

pub insert-IsProjected :
    (f : Faults) (e : Event) (r : DispatchRow) (db p : Db)
    → e.kind ≡ dispatch_queued
    → e.correlation_id ≡ r.id
    → r.state ≡ pending
    → IsProjected db
    → insert_dispatch f r (logged e db) ≡ ok p
    → IsProjected p
insert-IsProjected f e r db p kind corr state h a =
    let (fresh, made) = insert_ok f r (logged e db) p a in
    subst IsProjected (sym made) (record {
      keyed = IsKeyed-append_lem dispatch_id db.dispatches r fresh h.keyed;
      agrees = λ j. rw replay-logged (
          rw (row-append_self dispatch_id db.dispatches r j fresh)
            (rw (corr, h.agrees, kind) (split j fresh)));
    })
  where
    split :
        (j : String)
        → row dispatch_id r.id db.dispatches ≡ none
        → (if r.id == j then advance dispatch_queued (status j db) else status j db)
          ≡ state_of (if dispatch_id r == j then some r else row dispatch_id j db.dispatches)
    split j fresh = ground (arith, eq_iff r.id j)

pub lease-IsProjected :
    (f : Faults) (now : ℕ) (e : Event) (db p : Db)
    → e.kind ≡ dispatch_leased
    → IsProjected db
    → lease_dispatch f now e.correlation_id (logged e db) ≡ ok p
    → IsProjected p
unfolding lease_dispatch
lease-IsProjected f now e db p kind h a = subst IsProjected made (
    update-IsProjected e e.correlation_id db (λ r. is_pending r.state) (lease now) refl (λ r. refl)
      follows (rw kind) h)
  where
    follows :
        (r : DispatchRow)
        → some (if is_pending r.state then (lease now r).state else r.state)
          ≡ advance e.kind (some r.state)
    follows r = rw kind (ground arith)

    made :
        record (logged e db) {
          dispatches =
              update_where
                (λ r. dispatch_id r == e.correlation_id && is_pending r.state)
                (lease now)
                db.dispatches;
        }
        ≡ p
    made = ground arith

pub finish-IsProjected :
    (f : Faults) (now : ℕ) (e : Event) (db p : Db)
    → e.kind ≡ dispatch_completed
    → IsProjected db
    → finish_dispatch f now e.correlation_id (logged e db) ≡ ok p
    → IsProjected p
unfolding finish_dispatch
finish-IsProjected f now e db p kind h a = subst IsProjected made (
    update-IsProjected e e.correlation_id db (λ r. is_leased r.state) (complete now) refl
      (λ r. refl) follows (rw kind) h)
  where
    follows :
        (r : DispatchRow)
        → some (if is_leased r.state then (complete now r).state else r.state)
          ≡ advance e.kind (some r.state)
    follows r = rw kind (ground arith)

    made :
        record (logged e db) {
          dispatches =
              update_where
                (λ r. dispatch_id r == e.correlation_id && is_leased r.state)
                (complete now)
                db.dispatches;
        }
        ≡ p
    made = ground arith

pub release-IsProjected :
    (f : Faults) (e : Event) (db p : Db)
    → e.kind ≡ dispatch_expired
    → IsProjected db
    → release_dispatch f e.correlation_id (logged e db) ≡ ok p
    → IsProjected p
unfolding release_dispatch
release-IsProjected f e db p kind h a = subst IsProjected made (
    update-IsProjected e e.correlation_id db (λ r. is_leased r.state) release refl (λ r. refl)
      follows (rw kind) h)
  where
    follows :
        (r : DispatchRow)
        → some (if is_leased r.state then (release r).state else r.state)
          ≡ advance e.kind (some r.state)
    follows r = rw kind (ground arith)

    made :
        record (logged e db) {
          dispatches =
              update_where
                (λ r. dispatch_id r == e.correlation_id && is_leased r.state)
                release
                db.dispatches;
        }
        ≡ p
    made = ground arith
