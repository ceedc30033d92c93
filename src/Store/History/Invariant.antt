-- ===== src/Store/History/Invariant.antt =====
-- What holds of the database after every history, whatever fails and however the callers
-- interleave.
use coworker.Prelude.{
  ℕ, zero, suc, String, ◌≡◌, ◌≢◌, refl, sym, ◌∙◌, Option, none, some, List, [], ◌∷◌, arith, length,
  length-append,
}
use coworker.Core.{Event}
use coworker.Store.Schema.{RunRow, WorkerRow, Db, worker_handle}
use coworker.Store.Rows.{row}
use coworker.Store.Events.Log.{sequences, upto}
use coworker.Store.Dispatches.{QueueOrder}
use coworker.Store.Replay.{replay, status}
use coworker.Store.Roll.{life, life_of, broken}
use coworker.Store.History.{
  Operation, enqueue, claim, complete, release, clear, enroll, beat, leave, stale, evict, open_run,
  close_run, open_job, move_job, report, resolve, judge, ask, answer, settle, log, perform, history,
  fresh,
}
use coworker.Store.History.Consistency.{
  IsConsistent, enqueue-IsConsistent, claim-IsConsistent, complete-IsConsistent,
  release-IsConsistent, clear-IsConsistent, register-IsConsistent, heartbeat-IsConsistent,
  deregister-IsConsistent, stale-IsConsistent, evict_one-IsConsistent,
}
use coworker.Store.History.Elsewhere.{
  log-IsConsistent, create_run-IsConsistent, complete_run-IsConsistent, create_job-IsConsistent,
  update_job_state-IsConsistent, insert_finding-IsConsistent, resolve_finding-IsConsistent,
  record_verdict-IsConsistent, insert_attention-IsConsistent, answer_attention-IsConsistent,
  resolve_attention-IsConsistent,
}

module _ (order : QueueOrder) where
  perform-IsConsistent :
      (o : Operation) (db : Db) → IsConsistent db → IsConsistent (perform order o db)
  unfolding perform
  perform-IsConsistent (enqueue f now fresh_id event_id d) db =
      enqueue-IsConsistent f now fresh_id event_id d db
  perform-IsConsistent (claim f now event_id role handle) db =
      claim-IsConsistent order f now event_id role handle db
  perform-IsConsistent (complete f now event_id id outputs) db =
      complete-IsConsistent f now event_id id outputs db
  perform-IsConsistent (release env now payload id run_id) db =
      release-IsConsistent env now payload id run_id db
  perform-IsConsistent (clear f handle) db = clear-IsConsistent f handle db
  perform-IsConsistent (enroll f now event_id w) db = register-IsConsistent f now event_id w db
  perform-IsConsistent (beat f now event_id handle) db =
      heartbeat-IsConsistent f now event_id handle db
  perform-IsConsistent (leave f now event_id handle) db =
      deregister-IsConsistent f now event_id handle db
  perform-IsConsistent (stale f cutoff) db = stale-IsConsistent f cutoff db
  perform-IsConsistent (evict env now handle) db = evict_one-IsConsistent env now handle db
  perform-IsConsistent (open_run f event_id run) db = create_run-IsConsistent f event_id run db
  perform-IsConsistent (close_run f now event_id run_id state) db =
      complete_run-IsConsistent f now event_id run_id state db
  perform-IsConsistent (open_job f event_id job) db = create_job-IsConsistent f event_id job db
  perform-IsConsistent (move_job f now event_id job_id state) db =
      update_job_state-IsConsistent f now event_id job_id state db
  perform-IsConsistent (report fp f now event_id finding) db =
      insert_finding-IsConsistent f fp now event_id finding db
  perform-IsConsistent (resolve f now event_id id job_id) db =
      resolve_finding-IsConsistent f now event_id id job_id db
  perform-IsConsistent (judge f now event_id row_id run_id job_id r) db =
      record_verdict-IsConsistent f now event_id row_id run_id job_id r db
  perform-IsConsistent (ask f now fresh_id item) db =
      insert_attention-IsConsistent f now fresh_id item db
  perform-IsConsistent (answer f id text by) db = answer_attention-IsConsistent f id text by db
  perform-IsConsistent (settle f now id) db = resolve_attention-IsConsistent f now id db
  perform-IsConsistent (log f e foreign) db = log-IsConsistent f e db foreign

  history-IsConsistent_from :
      (ops : List Operation) (db : Db) → IsConsistent db → IsConsistent (history order ops db)
  unfolding history
  history-IsConsistent_from [] db h = h
  history-IsConsistent_from (o ∷ ops) db h =
      history-IsConsistent_from ops (perform order o db) (perform-IsConsistent o db h)

fresh-IsConsistent :
    (runs : List RunRow) (bus : Option (List Event)) → IsConsistent (fresh runs bus)
unfolding coworker.Store.Replay.replay_from coworker.Store.Roll.life_from
fresh-IsConsistent runs bus = record {
  numbered = record { at = λ run_id. (0, refl) };
  projected = record { keyed = tt; agrees = λ id. refl };
  tracked = record { keyed = tt; agrees = λ handle. refl };
}

life_of_sound : (o : Option WorkerRow) → life_of o ≢ broken
life_of_sound none e = cc
life_of_sound (some r) e = ground arith

length-upto : (n : ℕ) → length (upto n) ≡ n
length-upto zero = refl
length-upto (suc n) = omega (arith, length-append (upto n) (suc n ∷ []), length-upto n)

module _ (order : QueueOrder) (runs : List RunRow) (bus : Option (List Event))
    (ops : List Operation) where
  after_all : IsConsistent (history order ops (fresh runs bus))
  after_all = history-IsConsistent_from order ops (fresh runs bus) (fresh-IsConsistent runs bus)

  -- After any history of the store's operations, whatever fails in them and however their
  -- transactions interleave, the state that the table dispatches has for any id is the one that
  -- the events about the id lead to when they are read back from the log.
  pub dispatches_replay :
      (id : String)
      → replay id (history order ops (fresh runs bus)).events
        ≡ status id (history order ops (fresh runs bus))
  dispatches_replay = after_all.projected.agrees

  -- After any history of the store's operations the log of every handle is a life of a worker
  -- (one registration, then heartbeats, then at most one deregistration), and the table workers
  -- has a row that is not evicted exactly where that life goes on.
  pub workers_replay :
      (handle : String)
      → (life handle (history order ops (fresh runs bus)).events
          ≡ life_of (row worker_handle handle (history order ops (fresh runs bus)).workers))
        × (life handle (history order ops (fresh runs bus)).events ≢ broken)
  workers_replay handle =
      let e = after_all.tracked.agrees handle in
      (
        e,
        λ b.
            life_of_sound (row worker_handle handle (history order ops (fresh runs bus)).workers)
              (sym e ∙ b),
      )

  -- After any history of the store's operations the events of every run have the sequence numbers
  -- 1, 2, ..., n, in the order in which they stand in the log.
  pub sequences_gapless :
      (run_id : String)
      → sequences run_id (history order ops (fresh runs bus)).events
        ≡ upto (length (sequences run_id (history order ops (fresh runs bus)).events))
  sequences_gapless run_id = let (n, e) = after_all.numbered.at run_id in rw e (rw length-upto)
