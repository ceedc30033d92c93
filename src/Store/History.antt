-- ===== src/Store/History.antt =====
-- Every interleaving of the callers of the store, at the grain of one transaction: the loops of
-- ExpireLeases, RequeueByWorker and MarkEvicted are given by their rounds, for any row whatever, so
-- that other callers may come between the query of a loop and its rounds.
pub mod Footprint
pub mod Consistency
pub mod Elsewhere
pub mod Immutable
pub mod Invariant
use coworker.Prelude.{ℕ, String, ◌≡◌, Bool, Option, none, some, List, [], ◌∷◌, ok}
use coworker.Core.{EventKind, Payload, Event, DispatchState, Dispatch, Worker}
use coworker.Core.Jobs.{Run, RunState, Job, JobState, Finding, AttentionItem}
use coworker.Manifest.Integers.{ℤ}
use coworker.Supervisor.{RuleResult}
use coworker.Store.Schema.{RunRow, Db, Faults, LoopEnv}
use coworker.Store.Events.{write_event_then_row}
use coworker.Store.Dispatches.{QueueOrder, enqueue_dispatch, claim_next_dispatch, complete_dispatch}
use coworker.Store.Leases.{release_one, clear_targets}
use coworker.Store.Workers.{register, heartbeat, deregister, mark_stale, evict_one}
use coworker.Store.Runs.{create_run, complete_run}
use coworker.Store.Jobs.{create_job, update_job_state}
use coworker.Store.Findings.{insert_finding, resolve_finding, record_verdict}
use coworker.Store.Attention.{insert_attention, answer_attention, resolve_attention}
use coworker.Store.Replay.{advance}
use coworker.Store.Roll.{Life, live_on}

-- An event of neither a dispatch nor a worker.
pub record IsForeign (kind : EventKind) : Type 0 where
  pub dispatches : (s : Option DispatchState) → advance kind s ≡ s
  pub workers : (l : Life) → live_on kind l ≡ l

pub data Operation : Type 0 where
  enqueue : Faults → ℕ → String → String → Dispatch → Operation
  claim : Faults → ℕ → String → String → String → Operation
  complete : Faults → ℕ → String → String → String → Operation
  release : LoopEnv → ℕ → Payload → String → String → Operation
  clear : Faults → String → Operation
  enroll : Faults → ℕ → String → Worker → Operation
  beat : Faults → ℕ → String → String → Operation
  leave : Faults → ℕ → String → String → Operation
  stale : Faults → ℕ → Operation
  evict : LoopEnv → ℕ → String → Operation
  open_run : Faults → String → Run → Operation
  close_run : Faults → ℕ → String → String → RunState → Operation
  open_job : Faults → String → Job → Operation
  move_job : Faults → ℕ → String → String → JobState → Operation
  report : (String → ℤ → String → String → String) → Faults → ℕ → String → Finding → Operation
  resolve : Faults → ℕ → String → String → String → Operation
  judge : Faults → ℕ → String → String → String → String → RuleResult → Operation
  ask : Faults → ℕ → String → AttentionItem → Operation
  answer : Faults → String → String → String → Operation
  settle : Faults → ℕ → String → Operation
  -- What another component logs, with no projection.
  log : Faults → (e : Event) → IsForeign e.kind → Operation

module _ (order : QueueOrder) where
  unfoldable pub perform : Operation → Db → Db
  perform (enqueue f now fresh_id event_id d) db = (enqueue_dispatch f now fresh_id event_id d db).1
  perform (claim f now event_id role handle) db =
      (claim_next_dispatch order f now event_id role handle db).1
  perform (complete f now event_id id outputs) db =
      (complete_dispatch f now event_id id outputs db).1
  perform (release env now payload id run_id) db = (release_one env now payload id run_id db).1
  perform (clear f handle) db = (clear_targets f handle db).1
  perform (enroll f now event_id w) db = (register f now event_id w db).1
  perform (beat f now event_id handle) db = (heartbeat f now event_id handle db).1
  perform (leave f now event_id handle) db = (deregister f now event_id handle db).1
  perform (stale f cutoff) db = (mark_stale f cutoff db).1
  perform (evict env now handle) db = (evict_one env now handle db).1
  perform (open_run f event_id run) db = (create_run f event_id run db).1
  perform (close_run f now event_id run_id state) db =
      (complete_run f now event_id run_id state db).1
  perform (open_job f event_id job) db = (create_job f event_id job db).1
  perform (move_job f now event_id job_id state) db =
      (update_job_state f now event_id job_id state db).1
  perform (report fp f now event_id finding) db = (insert_finding fp f now event_id finding db).1
  perform (resolve f now event_id id job_id) db = (resolve_finding f now event_id id job_id db).1
  perform (judge f now event_id row_id run_id job_id r) db =
      (record_verdict f now event_id row_id run_id job_id r db).1
  perform (ask f now fresh_id item) db = (insert_attention f now fresh_id item db).1
  perform (answer f id text by) db = (answer_attention f id text by db).1
  perform (settle f now id) db = (resolve_attention f now id db).1
  perform (log f e foreign) db = (write_event_then_row f e ok db).1

  unfoldable pub history : List Operation → Db → Db
  history [] db = db
  history (o ∷ ops) db = history ops (perform o db)

-- A database that has its runs, and no event yet.
abbrev pub fresh : List RunRow → Option (List Event) → Db
fresh runs bus = record {
  runs = runs;
  jobs = [];
  findings = [];
  supervisor_events = [];
  attention = [];
  events = [];
  dispatches = [];
  workers = [];
  bus = bus;
}
