-- ===== src/Queue/Complete.antt =====
-- CompleteDispatch: only a leased dispatch completes, and only once.
use coworker.Prelude.{
  ℕ, String, ◌≡◌, ◌≢◌, ◌⊎◌, refl, sym, ◌∙◌, true, false, ◌&&◌, Option, none, some, arith, ◌==◌,
  eq_iff, if◌then◌else◌, update_where, count_where, Bool-cases, Option-cases, inl, inr, ok, eq_refl,
}
use coworker.Core.{Event, leased}
use coworker.Store.Schema.{DispatchRow, Db, Faults, dispatch_id}
use coworker.Store.Rows.{row, IsKeyed, changed, count-row, row-update}
use coworker.Store.Events.{publish, write_event_then_row}
use coworker.Store.Events.Log.{logged, write_ok}
use coworker.Store.Dispatches.{
  is_leased, complete, finish_dispatch, completed_event, complete_found, complete_dispatch,
}

finish_ok :
    (f : Faults) (now : ℕ) (id : String) (db p : Db)
    → finish_dispatch f now id db ≡ ok p
    → (p.dispatches
        ≡ update_where (λ r. dispatch_id r == id && is_leased r.state) (complete now) db.dispatches)
      × (count_where (λ r. dispatch_id r == id && is_leased r.state) db.dispatches ≢ 0)
unfolding finish_dispatch
finish_ok f now id db p a = ground arith

-- What a completion does.
pub record IsCompleted (now : ℕ) (id : String) (db db' : Db) (r : DispatchRow) : Type 0 where
  pub was_there : row dispatch_id id db.dispatches ≡ some r
  pub was_leased : r.state ≡ leased
  pub rows_after :
      (j : String)
      → row dispatch_id j db'.dispatches
        ≡ (if id == j then some (complete now r) else row dispatch_id j db.dispatches)

finish-IsCompleted :
    (f : Faults) (now : ℕ) (e : Event) (id : String) (r : DispatchRow) (db db' : Db)
    → IsKeyed dispatch_id db.dispatches
    → row dispatch_id id db.dispatches ≡ some r
    → write_event_then_row f e (finish_dispatch f now id) db ≡ (ok tt, db')
    → IsCompleted now id db db' r
unfolding publish
finish-IsCompleted f now e id r db db' d at h =
    let (p, a, made) = write_ok f e (finish_dispatch f now id) db db' h in
    let (table, reached) = finish_ok f now id (logged e db) p a in
    let state = was_leased reached in
    record {
      was_there = at;
      was_leased = state;
      rows_after = λ j.
          rw (made, table)
            (rw
              (row-update dispatch_id (λ (o : DispatchRow). is_leased o.state) (complete now)
                (λ o. unfold complete in refl) id j db.dispatches d)
              (split j state (Bool-cases (id == j))));
    }
  where
    was_leased :
        count_where (λ o. dispatch_id o == id && is_leased o.state) db.dispatches ≢ 0
        → r.state ≡ leased
    was_leased n =
        unfold is_leased in
        ground (
          arith,
          count-row dispatch_id (λ (o : DispatchRow). is_leased o.state) (complete now) id
              db.dispatches d,
        )

    split :
        (j : String)
        → r.state ≡ leased
        → ((id == j) ≡ true) ⊎ ((id == j) ≡ false)
        → (if id == j
            then changed dispatch_id
                (λ (o : DispatchRow). is_leased o.state)
                (complete now)
                (row dispatch_id j db.dispatches)
            else row dispatch_id j db.dispatches)
          ≡ (if id == j then some (complete now r) else row dispatch_id j db.dispatches)
    split j state (inl e) = rw (e, ← (eq_iff id j).0 e, at, state) (unfold is_leased in refl)
    split j state (inr e) = rw e refl

-- A completion that reports no error was of a leased dispatch: its row is marked completed, and no
-- other row changes.
-- No two dispatches of the table have the same id.
pub complete_sound :
    (f : Faults) (now : ℕ) (event_id id outputs : String) (db db' : Db)
    → IsKeyed dispatch_id db.dispatches
    → complete_dispatch f now event_id id outputs db ≡ (ok tt, db')
    → (r : DispatchRow) × IsCompleted now id db db' r
unfolding complete_dispatch complete_found
complete_sound f now event_id id outputs db db' d h =
    go (Option-cases (row dispatch_id id db.dispatches))
  where
    found :
        complete_found f now event_id id outputs (row dispatch_id id db.dispatches) db
        ≡ (ok tt, db')
    found = ground arith

    go :
        (row dispatch_id id db.dispatches ≡ none)
          ⊎ ((r : DispatchRow) × (row dispatch_id id db.dispatches ≡ some r))
        → (r : DispatchRow) × IsCompleted now id db db' r
    go (inl e) = absurd (cc (rw e at found))
    go (inr (r, e)) = (
      r,
      finish-IsCompleted f now (completed_event event_id now id outputs r.run_id) id r db db' d e
          (rw e at found),
    )

-- A dispatch completes once: after a completion, no second one of the same dispatch succeeds on
-- the database that it left behind.
-- No two dispatches of either table have the same id.
pub complete_once :
    (f f' : Faults) (now now' : ℕ) (event_id event_id' id outputs outputs' : String)
    (db db' db'' : Db)
    → IsKeyed dispatch_id db.dispatches
    → IsKeyed dispatch_id db'.dispatches
    → complete_dispatch f now event_id id outputs db ≡ (ok tt, db')
    → complete_dispatch f' now' event_id' id outputs' db' ≢ (ok tt, db'')
complete_once f f' now now' event_id event_id' id outputs outputs' db db' db'' d d' h h' =
    let (r, c) = complete_sound f now event_id id outputs db db' d h in
    let (r', c') = complete_sound f' now' event_id' id outputs' db' db'' d' h' in
    not_leased now r r' (sym (rw (eq_refl) at (c.rows_after id)) ∙ c'.was_there) c'.was_leased
  where
    not_leased :
        (now : ℕ) (r r' : DispatchRow)
        → ◌≡◌ {A = Option DispatchRow} (some (complete now r)) (some r')
        → r'.state ≢ leased
    not_leased now r r' e p = unfold complete in ground arith
