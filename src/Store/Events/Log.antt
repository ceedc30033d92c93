-- ===== src/Store/Events/Log.antt =====
-- What one write does: it is all or nothing, and the rows of a run are numbered 1, 2, 3, ... in
-- the order of the log, so that the constraint on (run_id, sequence) never fires.
use coworker.Prelude.{
  ℕ, zero, suc, ◌<◌, max, String, ◌≡◌, refl, sym, subst, ap, inl, inr, Bool, true, false, ◌&&◌,
  List, [], ◌∷◌, ◌++◌, map, arith, ◌==◌, eq_iff, eqb, if◌then◌else◌, any, select, Bool-cases,
  Result, ok, err,
}
use coworker.Core.{Event}
use coworker.Store.Schema.{
  EventRow, Db, Faults, Error, no_faults, begin_tx, compute_sequence, insert_event, duplicate_key,
  commit_tx,
}
use coworker.Store.Events.{
  max_sequence, next_sequence, event_row, violates, append_event, stamped, publish, transaction,
  settle, write_event_then_row,
}

-- The database inside the transaction once the event is written.
abbrev pub logged : Event → Db → Db
logged e db = record db { events = db.events ++ event_row (stamped e db) ∷ [] }

-- How a write ends: rolled back with an error, or committed with its projection.
pub data Ends (e : Event) (apply_fn : Db → Result Error Db) (db : Db)
    : Result Error (Unit {0}) × Db → Type 0 where
  rolled_back : (x : Error) → Ends e apply_fn db (err x, db)
  committed :
      (p : Db)
      → violates (event_row (stamped e db)) db.events ≡ false
      → apply_fn (logged e db) ≡ ok p
      → Ends e apply_fn db (ok tt, publish (stamped e db) p)

settle-Ends :
    (e : Event) (apply_fn : Db → Result Error Db) (db : Db) (t : Result Error Db)
    → ((p : Db)
        → t ≡ ok p
        → (violates (event_row (stamped e db)) db.events ≡ false) × (apply_fn (logged e db) ≡ ok p))
    → Ends e apply_fn db (settle (stamped e db) db t)
unfolding settle
settle-Ends e apply_fn db (ok p) h = let (v, a) = h p refl in committed p v a
settle-Ends e apply_fn db (err x) h = rolled_back x

transaction_ok :
    (f : Faults) (e : Event) (apply_fn : Db → Result Error Db) (db p : Db)
    → transaction f e apply_fn db ≡ ok p
    → (violates (event_row (stamped e db)) db.events ≡ false) × (apply_fn (logged e db) ≡ ok p)
unfolding transaction append_event
transaction_ok f e apply_fn db p h = ground arith

-- Every write ends in one of the two ways.
pub write-Ends :
    (f : Faults) (e : Event) (apply_fn : Db → Result Error Db) (db : Db)
    → Ends e apply_fn db (write_event_then_row f e apply_fn db)
unfolding write_event_then_row
write-Ends f e apply_fn db =
    settle-Ends e apply_fn db (transaction f e apply_fn db) (transaction_ok f e apply_fn db)

-- A write that reports no error has made its projection after its event.
pub write_ok :
    (f : Faults) (e : Event) (apply_fn : Db → Result Error Db) (db db' : Db)
    → write_event_then_row f e apply_fn db ≡ (ok tt, db')
    → (p : Db) × (apply_fn (logged e db) ≡ ok p) × (db' ≡ publish (stamped e db) p)
write_ok f e apply_fn db db' h =
    go (write_event_then_row f e apply_fn db) (write-Ends f e apply_fn db) h
  where
    go :
        (out : Result Error (Unit {0}) × Db)
        → Ends e apply_fn db out
        → out ≡ (ok tt, db')
        → (p : Db) × (apply_fn (logged e db) ≡ ok p) × (db' ≡ publish (stamped e db) p)
    go out (rolled_back x) g = absurd (cc (ap (λ (o : Result Error (Unit {0}) × Db). o.0) g))
    go out (committed p v a) g = (p, a, sym (ap (λ (o : Result Error (Unit {0}) × Db). o.1) g))

-- A write that reports an error has changed nothing.
pub write_err :
    (f : Faults) (e : Event) (apply_fn : Db → Result Error Db) (db db' : Db) (x : Error)
    → write_event_then_row f e apply_fn db ≡ (err x, db')
    → db' ≡ db
write_err f e apply_fn db db' x h =
    go (write_event_then_row f e apply_fn db) (write-Ends f e apply_fn db) h
  where
    go :
        (out : Result Error (Unit {0}) × Db)
        → Ends e apply_fn db out
        → out ≡ (err x, db')
        → db' ≡ db
    go out (rolled_back y) g = sym (ap (λ (o : Result Error (Unit {0}) × Db). o.1) g)
    go out (committed p v a) g = absurd (cc (ap (λ (o : Result Error (Unit {0}) × Db). o.0) g))

settle_err :
    (e : Event) (db db' : Db) (t : Result Error Db) (x : Error)
    → settle e db t ≡ (err x, db')
    → t ≡ err x
unfolding settle
settle_err e db db' (ok p) x h = absurd (cc (ap (λ (o : Result Error (Unit {0}) × Db). o.0) h))
settle_err e db db' (err y) x h = cc (ap (λ (o : Result Error (Unit {0}) × Db). o.0) h)

-- The errors of the calls that every write makes.
abbrev pub of_write : Error → Bool
of_write begin_tx = true
of_write compute_sequence = true
of_write insert_event = true
of_write duplicate_key = true
of_write commit_tx = true
of_write _ = false

transaction_err :
    (f : Faults) (e : Event) (apply_fn : Db → Result Error Db) (db : Db) (x : Error)
    → transaction f e apply_fn db ≡ err x
    → of_write x ≡ false
    → apply_fn (logged e db) ≡ err x
unfolding transaction append_event
transaction_err f e apply_fn db x h n = ground arith

-- Any other error is the projection's own.
pub write_err_cause :
    (f : Faults) (e : Event) (apply_fn : Db → Result Error Db) (db db' : Db) (x : Error)
    → write_event_then_row f e apply_fn db ≡ (err x, db')
    → of_write x ≡ false
    → apply_fn (logged e db) ≡ err x
unfolding write_event_then_row
write_err_cause f e apply_fn db db' x h =
    transaction_err f e apply_fn db x
      (settle_err (stamped e db) db db' (transaction f e apply_fn db) x h)

-- The converse: without a fault, a write whose row is admissible and whose projection is made
-- commits.
pub write_commits :
    (e : Event) (apply_fn : Db → Result Error Db) (db p : Db)
    → violates (event_row (stamped e db)) db.events ≡ false
    → apply_fn (logged e db) ≡ ok p
    → write_event_then_row no_faults e apply_fn db ≡ (ok tt, publish (stamped e db) p)
unfolding write_event_then_row transaction settle append_event
write_commits e apply_fn db p v h = rw v (rw h)

-- The sequence numbers of a run, in the order of the log.
abbrev pub sequences : String → List EventRow → List ℕ
sequences run_id events =
    map (λ (r : EventRow). r.sequence) (select (λ r. r.run_id == run_id) events)

-- 1, 2, ..., n.
abbrev pub upto : ℕ → List ℕ
upto zero = []
upto (suc n) = upto n ++ suc n ∷ []

-- Every run's events are numbered without a gap.
pub record IsNumbered (events : List EventRow) : Type 0 where
  pub at : (run_id : String) → (n : ℕ) × (sequences run_id events ≡ upto n)

-- The largest number.
abbrev maximum : List ℕ → ℕ
maximum [] = 0
maximum (n ∷ ns) = max n (maximum ns)

max_sequence-eq-maximum :
    (run_id : String) (events : List EventRow)
    → max_sequence run_id events ≡ maximum (sequences run_id events)
unfolding max_sequence
max_sequence-eq-maximum run_id [] = refl
max_sequence-eq-maximum run_id (e ∷ events) = ground (arith, max_sequence-eq-maximum run_id events)

maximum-append : (ns : List ℕ) (n : ℕ) → maximum (ns ++ n ∷ []) ≡ max (maximum ns) n
maximum-append [] n = omega arith
maximum-append (m ∷ ns) n = omega (arith, maximum-append ns n)

maximum-upto : (n : ℕ) → maximum (upto n) ≡ n
maximum-upto zero = refl
maximum-upto (suc n) = omega (arith, maximum-append (upto n) (suc n), maximum-upto n)

sequences-append :
    (run_id : String) (events : List EventRow) (r : EventRow)
    → sequences run_id (events ++ r ∷ []) ≡ (
        if r.run_id == run_id
        then sequences run_id events ++ r.sequence ∷ []
        else sequences run_id events)
sequences-append run_id [] r = ground arith
sequences-append run_id (e ∷ events) r = ground (arith, sequences-append run_id events r)

next_of_IsNumbered :
    (run_id : String) (events : List EventRow) (n : ℕ)
    → sequences run_id events ≡ upto n
    → next_sequence run_id events ≡ suc n
unfolding next_sequence
next_of_IsNumbered run_id events n h =
    omega (arith, max_sequence-eq-maximum run_id events, ap maximum h, maximum-upto n)

logged-IsNumbered : (e : Event) (db : Db) → IsNumbered db.events → IsNumbered (logged e db).events
unfolding event_row
logged-IsNumbered e db h = record {
  at = λ run_id. elim (Bool-cases (e.run_id == run_id)) [
    | inl same ↦
        let (n, numbered) = h.at run_id in
        let here : sequences e.run_id db.events ≡ upto n =
          rw ((eq_iff e.run_id run_id).0 same) numbered in
        (
          suc n,
          rw sequences-append (rw (same, numbered, next_of_IsNumbered e.run_id db.events n here)),
        )
    | inr other ↦
        (let (n, numbered) = h.at run_id in (n, rw (sequences-append) (rw other numbered)))
  ];
}

-- A projection that leaves the log alone.
abbrev pub KeepsLog : (Db → Result Error Db) → Type 0
KeepsLog apply_fn = (db p : Db) → apply_fn db ≡ ok p → p.events ≡ db.events

-- To show something of the database after a write: it holds before, and of what is committed.
pub write_rule {ℓ} :
    (P : Db → Type ℓ) (f : Faults) (e : Event) (apply_fn : Db → Result Error Db) (db : Db)
    → P db
    → ((p : Db) → apply_fn (logged e db) ≡ ok p → P (publish (stamped e db) p))
    → P (write_event_then_row f e apply_fn db).1
write_rule P f e apply_fn db before after =
    go (write_event_then_row f e apply_fn db) (write-Ends f e apply_fn db)
  where
    go : (out : Result Error (Unit {0}) × Db) → Ends e apply_fn db out → P out.1
    go out (rolled_back x) = before
    go out (committed p v a) = after p a

-- Whether it commits or not, a write keeps every run's numbering.
pub write-IsNumbered :
    (f : Faults) (e : Event) (apply_fn : Db → Result Error Db) (db : Db)
    → KeepsLog apply_fn
    → IsNumbered db.events
    → IsNumbered (write_event_then_row f e apply_fn db).1.events
unfolding publish
write-IsNumbered f e apply_fn db keeps h =
    write_rule (λ s. IsNumbered s.events) f e apply_fn db h
      (λ p a. subst IsNumbered (sym (keeps (logged e db) p a)) (logged-IsNumbered e db h))

number_free_above :
    (run_id : String) (n : ℕ) (events : List EventRow)
    → max_sequence run_id events < n
    → any (λ o. o.run_id == run_id && eqb o.sequence n) events ≡ false
unfolding max_sequence
number_free_above run_id n [] h = refl
number_free_above run_id n (e ∷ events) h = ground (arith, number_free_above run_id n events)

-- The number that a write stamps on its event is free in the event's run, whatever the log holds.
pub next_sequence_free :
    (run_id : String) (events : List EventRow)
    → any (λ o. o.run_id == run_id && eqb o.sequence (next_sequence run_id events)) events ≡ false
unfolding next_sequence
next_sequence_free run_id events = number_free_above run_id _ events (omega arith)
