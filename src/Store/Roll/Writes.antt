-- ===== src/Store/Roll/Writes.antt =====
-- The events and rows of a worker: what one write does to the life that the log tells of, and to the
-- table in step with it.
use coworker.Prelude.{
  String, ◌≡◌, refl, sym, subst, ap, ◌∙◌, Bool, true, ◌&&◌, Option, none, some, List, [], ◌∷◌, ◌++◌,
  arith, ◌==◌, eq_iff, if◌then◌else◌, update_where, Result, ok, ◌≢◌, inl, inr, Bool-cases,
}
use coworker.Core.{worker_registered, Event, live}
use coworker.Store.Schema.{EventRow, WorkerRow, Db, Faults, Error, worker_handle}
use coworker.Store.Rows.{
  row, any-row, row-append_self, IsKeyed-append_lem, changed, affected, count-row, row-update,
  IsKeyed-update,
}
use coworker.Store.Events.{event_row, stamped, publish, write_event_then_row}
use coworker.Store.Events.Log.{logged, write_rule}
use coworker.Store.Workers.{insert_worker, update_worker}
use coworker.Store.Replay.{about}
use coworker.Store.Replay.Writes.{about-event_row}
use coworker.Store.Roll.{Life, live_on, life_from, life, life_of, unknown, IsTracked}

life_from-append :
    (l : Life) (handle : String) (events : List EventRow) (e : EventRow)
    → life_from l handle (events ++ e ∷ []) ≡ (
        if about handle e
        then live_on e.kind (life_from l handle events)
        else life_from l handle events)
unfolding life_from
life_from-append l handle [] e = refl
life_from-append l handle (x ∷ events) e =
    life_from-append (if about handle x then live_on x.kind l else l) handle events e

-- One more event in the log is one more step of the worker that it is about.
pub life-logged :
    (handle : String) (e : Event) (db : Db)
    → life handle (logged e db).events ≡ (
        if e.correlation_id == handle
        then live_on e.kind (life handle db.events)
        else life handle db.events)
unfolding event_row
life-logged handle e db =
    life_from-append unknown handle db.events (event_row (stamped e db))
    ∙ ap (λ b. if b then live_on e.kind (life handle db.events) else life handle db.events)
        (about-event_row handle (stamped e db))

publish-IsTracked : (e : Event) (p : Db) → IsTracked p → IsTracked (publish e p)
unfolding publish
publish-IsTracked e p h = record { keyed = h.keyed; agrees = h.agrees }

pub write-IsTracked :
    (f : Faults) (e : Event) (apply_fn : Db → Result Error Db) (db : Db)
    → IsTracked db
    → ((p : Db) → apply_fn (logged e db) ≡ ok p → IsTracked p)
    → IsTracked (write_event_then_row f e apply_fn db).1
write-IsTracked f e apply_fn db h keeps =
    write_rule IsTracked f e apply_fn db h (λ p a. publish-IsTracked (stamped e db) p (keeps p a))

insert_ok :
    (f : Faults) (r : WorkerRow) (db p : Db)
    → insert_worker f r db ≡ ok p
    → (row worker_handle r.handle db.workers ≡ none)
      × (p ≡ record db { workers = db.workers ++ r ∷ [] })
unfolding insert_worker
insert_ok f r db p a = ground (arith, any-row worker_handle r.handle db.workers)

pub insert-IsTracked :
    (f : Faults) (e : Event) (r : WorkerRow) (db p : Db)
    → e.kind ≡ worker_registered
    → e.correlation_id ≡ r.handle
    → r.state ≡ live
    → IsTracked db
    → insert_worker f r (logged e db) ≡ ok p
    → IsTracked p
insert-IsTracked f e r db p kind corr state h a =
    let (fresh, made) = insert_ok f r (logged e db) p a in
    subst IsTracked (sym made) (record {
      keyed = IsKeyed-append_lem worker_handle db.workers r fresh h.keyed;
      agrees = λ j. rw life-logged (
          rw (row-append_self worker_handle db.workers r j fresh)
            (rw (corr, h.agrees, kind) (split j fresh)));
    })
  where
    split :
        (j : String)
        → row worker_handle r.handle db.workers ≡ none
        → (if r.handle == j
            then live_on worker_registered (life_of (row worker_handle j db.workers))
            else life_of (row worker_handle j db.workers))
          ≡ life_of (if worker_handle r == j then some r else row worker_handle j db.workers)
    split j fresh = ground (arith, eq_iff r.handle j)

-- An UPDATE that reaches a row, and does to the life of such a row what the event does.
pub update-IsTracked :
    (f : Faults) (missing : Error) (q : WorkerRow → Bool) (g : WorkerRow → WorkerRow) (e : Event)
    (db p : Db)
    → ((r : WorkerRow) → worker_handle (g r) ≡ worker_handle r)
    → ((r : WorkerRow) → q r ≡ true → life_of (some (g r)) ≡ live_on e.kind (life_of (some r)))
    → IsTracked db
    → update_worker f missing q g e.correlation_id (logged e db) ≡ ok p
    → IsTracked p
unfolding update_worker
update-IsTracked f missing q g e db p same follows h a = subst IsTracked made (record {
  keyed =
      IsKeyed-update worker_handle q g same (λ r. worker_handle r == id && q r) db.workers h.keyed;
  agrees = λ j.
      rw life-logged
        (rw (row-update worker_handle q g same id j db.workers h.keyed) (rw h.agrees (split j)));
})
  where
    id : String
    id = e.correlation_id

    made :
        record (logged e db) {
          workers = update_where (λ r. worker_handle r == id && q r) g db.workers;
        }
        ≡ p
    made = ground arith

    reached : affected worker_handle q g (row worker_handle id db.workers) ≢ 0
    reached = ground (arith, count-row worker_handle q g id db.workers h.keyed)

    follow :
        (o : Option WorkerRow)
        → affected worker_handle q g o ≢ 0
        → live_on e.kind (life_of o) ≡ life_of (changed worker_handle q g o)
    follow none n = absurd (n refl)
    follow (some r) n = ground (arith, follows r)

    split :
        (j : String)
        → (if id == j
            then live_on e.kind (life_of (row worker_handle j db.workers))
            else life_of (row worker_handle j db.workers))
          ≡ life_of (
              if id == j
              then changed worker_handle q g (row worker_handle j db.workers)
              else row worker_handle j db.workers)
    split j = elim (Bool-cases (id == j)) [
      | inl e ↦ rw e (
          follow (row worker_handle j db.workers) (
            subst (λ k. affected worker_handle q g (row worker_handle k db.workers) ≢ 0)
              ((eq_iff id j).0 e) reached))
      | inr e ↦ rw e refl
    ]
