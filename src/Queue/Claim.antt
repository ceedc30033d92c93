-- ===== src/Queue/Claim.antt =====
-- ClaimNextDispatch and EnqueueDispatch.
use coworker.Prelude.{
  ℕ, ◌≤◌, String, ◌≡◌, ◌≢◌, ◌⊎◌, refl, sym, ◌∙◌, true, false, ◌&&◌, Option, none, some, List, [],
  arith, ◌==◌, eq_iff, if◌then◌else◌, All, select, update_where, Bool-cases, Option-cases, inl, inr,
  ok, err,
}
use coworker.Core.{Event, pending, leased, Dispatch}
use coworker.Store.Schema.{DispatchRow, Db, Faults, claim_lost, dispatch_id, Outcome}
use coworker.Store.Rows.{row, IsKeyed, changed, count-row, row-update, row_of_selected}
use coworker.Store.Events.{publish, write_event_then_row}
use coworker.Store.Events.Log.{logged, write_ok, write_err_cause}
use coworker.Store.Dispatches.{
  is_pending, eligible, QueueOrder, lease, lease_dispatch, scan_dispatch, claimed, leased_event,
  claim_found, claim_next_dispatch,
}

-- The update of the claim reaches the row that the query returned: no race inside the transaction.
lease_never_lost :
    (f : Faults) (now : ℕ) (r : DispatchRow) (db : Db)
    → IsKeyed dispatch_id db.dispatches
    → row dispatch_id r.id db.dispatches ≡ some r
    → r.state ≡ pending
    → lease_dispatch f now r.id db ≢ err claim_lost
unfolding lease_dispatch
lease_never_lost f now r db d at state e = ground (
  arith,
  count-row dispatch_id (λ (o : DispatchRow). is_pending o.state) (lease now) r.id db.dispatches d,
)

claimed-some :
    (now : ℕ) (r : DispatchRow) (out : Outcome) (d : Dispatch) (db' : Db)
    → claimed now r out ≡ (ok (some d), db')
    → (out ≡ (ok tt, db'))
      × (d ≡ record (scan_dispatch r) { state = leased; leased_at = some now; completed_at = none })
unfolding claimed
claimed-some now r (ok u, db) d db' h = (cc, cc)
claimed-some now r (err claim_lost, db) d db' h = absurd (cc)
claimed-some now r (err _, db) d db' h = absurd (cc)

lease_table :
    (f : Faults) (now : ℕ) (id : String) (db p : Db)
    → lease_dispatch f now id db ≡ ok p
    → p.dispatches
      ≡ update_where (λ r. dispatch_id r == id && is_pending r.state) (lease now) db.dispatches
unfolding lease_dispatch
lease_table f now id db p a = ground arith

leased_rows :
    (f : Faults) (now : ℕ) (e : Event) (r : DispatchRow) (db db' : Db)
    → IsKeyed dispatch_id db.dispatches
    → row dispatch_id r.id db.dispatches ≡ some r
    → r.state ≡ pending
    → write_event_then_row f e (lease_dispatch f now r.id) db ≡ (ok tt, db')
    → (j : String)
    → row dispatch_id j db'.dispatches
      ≡ (if r.id == j then some (lease now r) else row dispatch_id j db.dispatches)
unfolding publish
leased_rows f now e r db db' d at state h j =
    let (p, a, made) = write_ok f e (lease_dispatch f now r.id) db db' h in
    rw (made, lease_table f now r.id (logged e db) p a)
      (rw
        (row-update dispatch_id (λ (o : DispatchRow). is_pending o.state) (lease now)
          (λ o. unfold lease in refl) r.id j db.dispatches d)
        (split (Bool-cases (r.id == j))))
  where
    split :
        ((r.id == j) ≡ true) ⊎ ((r.id == j) ≡ false)
        → (if r.id == j
            then changed dispatch_id
                (λ (o : DispatchRow). is_pending o.state)
                (lease now)
                (row dispatch_id j db.dispatches)
            else row dispatch_id j db.dispatches)
          ≡ (if r.id == j then some (lease now r) else row dispatch_id j db.dispatches)
    split (inl e) = rw (e, ← (eq_iff r.id j).0 e, at, state) (unfold is_pending in refl)
    split (inr e) = rw e refl

-- The outcome of a claim that returns a dispatch.
pub record IsClaimed (order : QueueOrder) (now : ℕ) (role handle : String) (db db' : Db)
    (d : Dispatch) (r : DispatchRow) : Type 0 where
  pub returned :
      d ≡ record (scan_dispatch r) { state = leased; leased_at = some now; completed_at = none }
  pub was_there : row dispatch_id d.id db.dispatches ≡ some r
  pub was_eligible : eligible role handle r ≡ true
  pub was_oldest :
      All
        (λ (o : DispatchRow). r.created_at ≤ o.created_at)
        (select (eligible role handle) db.dispatches)
  pub rows_after :
      (j : String)
      → row dispatch_id j db'.dispatches
        ≡ (if d.id == j then some (lease now r) else row dispatch_id j db.dispatches)

pending_of_eligible :
    (role handle : String) (r : DispatchRow) → eligible role handle r ≡ true → r.state ≡ pending
unfolding eligible
pending_of_eligible role handle r h = ground arith

claim_selects :
    (order : QueueOrder) (f : Faults) (now : ℕ) (event_id role handle : String) (db db' : Db)
    (d : Dispatch)
    → claim_next_dispatch order f now event_id role handle db ≡ (ok (some d), db')
    → (r : DispatchRow) × (order.oldest (select (eligible role handle) db.dispatches) ≡ some r)
      × (write_event_then_row f (leased_event event_id now r) (lease_dispatch f now r.id) db
          ≡ (ok tt, db'))
      × (d ≡ record (scan_dispatch r) { state = leased; leased_at = some now; completed_at = none })
unfolding claim_next_dispatch claim_found
claim_selects order f now event_id role handle db db' d h =
    go (Option-cases (order.oldest (select (eligible role handle) db.dispatches)))
  where
    oldest : Option DispatchRow
    oldest = order.oldest (select (eligible role handle) db.dispatches)

    found : claim_found f now event_id oldest db ≡ (ok (some d), db')
    found = ground arith

    go :
        (oldest ≡ none) ⊎ ((r : DispatchRow) × (oldest ≡ some r))
        → (r : DispatchRow) × (oldest ≡ some r)
          × (write_event_then_row f (leased_event event_id now r) (lease_dispatch f now r.id) db
              ≡ (ok tt, db'))
          × (d ≡ record (scan_dispatch r) {
            state = leased;
            leased_at = some now;
            completed_at = none;
          })
    go (inl e) = absurd (cc (rw e at found))
    go (inr (r, e)) = let (w, x) = claimed-some now r _ d db' (rw e at found) in (r, e, w, x)

leased_not_pending :
    (now : ℕ) (r r' : DispatchRow)
    → ◌≡◌ {A = Option DispatchRow} (some (lease now r)) (some r')
    → r'.state ≢ pending
unfolding lease
leased_not_pending now r r' e p = ground arith

-- What a claim hands out: a claim that returns a dispatch returns the oldest pending dispatch of
-- the role that the caller may take (one for its own handle or for anyone; with no handle only one
-- for anyone), leases its row, and changes no other row.
-- No two dispatches of the table have the same id.
pub claim_sound :
    (order : QueueOrder) (f : Faults) (now : ℕ) (event_id role handle : String) (db db' : Db)
    (d : Dispatch)
    → IsKeyed dispatch_id db.dispatches
    → claim_next_dispatch order f now event_id role handle db ≡ (ok (some d), db')
    → (r : DispatchRow) × IsClaimed order now role handle db db' d r
claim_sound order f now event_id role handle db db' d keyed h =
    let (r, o, w, x) = claim_selects order f now event_id role handle db db' d h in
    let rows = select (eligible role handle) db.dispatches in
    let (at, ok_row) =
      row_of_selected dispatch_id (eligible role handle) db.dispatches r keyed
        (order.oldest_mem rows r o) in
    let id : d.id ≡ r.id = rw x (unfold scan_dispatch in refl) in
    (
      r,
      record {
        returned = x;
        was_there = rw id at;
        was_eligible = ok_row;
        was_oldest = order.oldest_min rows r o;
        rows_after = rw id (
            leased_rows f now (leased_event event_id now r) r db db' keyed at
              (pending_of_eligible role handle r ok_row) w);
      },
    )

-- No dispatch is handed out twice: of two claims, the second on the database that the first left
-- behind, by any callers for any roles, the dispatches have different ids.
-- No two dispatches of either table have the same id.
pub claim_exclusive :
    (order : QueueOrder) (f f' : Faults) (now now' : ℕ)
    (event_id event_id' role role' handle handle' : String) (db db' db'' : Db) (d d' : Dispatch)
    → IsKeyed dispatch_id db.dispatches
    → IsKeyed dispatch_id db'.dispatches
    → claim_next_dispatch order f now event_id role handle db ≡ (ok (some d), db')
    → claim_next_dispatch order f' now' event_id' role' handle' db' ≡ (ok (some d'), db'')
    → d.id ≢ d'.id
claim_exclusive order f f' now now' event_id event_id' role role' handle handle' db db' db'' d d' k
      k' h h' same =
    let (r, c) = claim_sound order f now event_id role handle db db' d k h in
    let (r', c') = claim_sound order f' now' event_id' role' handle' db' db'' d' k' h' in
    let p' = pending_of_eligible role' handle' r' c'.was_eligible in
    leased_not_pending now r r'
      (sym (rw ((eq_iff d.id d'.id).1 same) at (c.rows_after d'.id)) ∙ c'.was_there) p'

claimed-none :
    (now : ℕ) (r : DispatchRow) (out : Outcome) (db' : Db)
    → claimed now r out ≡ (ok none, db')
    → out ≡ (err claim_lost, db')
unfolding claimed
claimed-none now r (ok u, db) db' h = absurd (cc)
claimed-none now r (err claim_lost, db) db' h = cc
claimed-none now r (err _, db) db' h = absurd (cc)

-- A claim that finds the queue idle is right: no dispatch was there for the caller, and nothing
-- has changed.
-- No two dispatches of the table have the same id.
pub claim_idle :
    (order : QueueOrder) (f : Faults) (now : ℕ) (event_id role handle : String) (db db' : Db)
    → IsKeyed dispatch_id db.dispatches
    → claim_next_dispatch order f now event_id role handle db ≡ (ok none, db')
    → (select (eligible role handle) db.dispatches ≡ []) × (db' ≡ db)
unfolding claim_next_dispatch claim_found
claim_idle order f now event_id role handle db db' keyed h = go (Option-cases oldest)
  where
    rows : List DispatchRow
    rows = select (eligible role handle) db.dispatches

    oldest : Option DispatchRow
    oldest = order.oldest rows

    found : claim_found f now event_id oldest db ≡ (ok none, db')
    found = ground arith

    go : (oldest ≡ none) ⊎ ((r : DispatchRow) × (oldest ≡ some r)) → (rows ≡ []) × (db' ≡ db)
    go (inl e) = (order.oldest_none rows e, cc (rw e at found))
    go (inr (r, e)) =
        let ev = leased_event event_id now r in
        let (at, ok_row) =
          row_of_selected dispatch_id (eligible role handle) db.dispatches r keyed
            (order.oldest_mem rows r e) in
        absurd (
          lease_never_lost f now r (logged ev db) keyed at
            (pending_of_eligible role handle r ok_row)
            (write_err_cause f ev (lease_dispatch f now r.id) db db' claim_lost
              (claimed-none now r _ db' (rw e at found)) refl))
