-- ===== src/Lib.antt =====
-- A model of the core of coworker: the queue of dispatches, the registry of workers and the event
-- log under both, the router that fills the queue, the watchdog that frees it of dead workers,
-- the scheduler of a run's plans, the loop of a plan's phase, and the dispatcher of a single job
-- with the permissions and the contract rules that it goes by.
--
-- How the parts interact: a change of a table that is an event of its own is made by
-- EventStore.WriteEventThenRow (ClaimNextDispatch does the same on its own), which writes the event
-- and then the row in one transaction; a stale mark and a cleared handle are written alone. The router asks the registry for the live
-- workers of a role and enqueues dispatches for them; workers claim and complete dispatches; the
-- watchdog marks silent workers stale, evicts them and puts their dispatches back. A workflow asks
-- the scheduler which plans of a manifest may start, and runs the phases of each. The dispatcher
-- makes a job (and a run, if the caller has none), asks whether the role may run its agent's
-- binary, launches the agent, has the supervisor judge the result, and tries again with the
-- supervisor's feedback until a verdict passes or no retry is left; then it stores the findings
-- and closes the job.
--
-- Files and code:
--   Prelude: shared tests, lists and results.
--   Core: core/event.go, core/dispatch.go, core/worker.go. Core/Jobs: core/run.go, core/job.go,
--   core/finding.go, core/artifact.go, core/attention.go.
--   Store/Schema: the tables of store/migrations as lists of records, with their constraints, and
--   the failures of a database call. Store/Rows: tables looked up by key.
--   Store/Events: store/event_store.go (WriteEventThenRow is write_event_then_row).
--   Store/Dispatches, Store/Leases: store/dispatch_store.go (EnqueueDispatch is enqueue_dispatch, and
--   so on). Store/Workers: store/worker_store.go.
--   Store/Runs: store/run_store.go. Store/Jobs: store/job_store.go. Store/Findings:
--   store/finding_store.go and store/supervisor_event_store.go. Store/Attention:
--   store/attention_store.go.
--   Store/Replay, Store/Roll: what the log says of a dispatch and of a worker. Store/History: the
--   operations in any order, at the grain of one transaction.
--   Queue: what the operations of the queue promise. Watchdog: mcp/watchdog.go.
--   Router: coding/router.go.
--   Manifest/Schema, Manifest/Scheduler: coding/manifest/schema.go and coding/manifest/scheduler.go.
--   Phase/Fanin: coding/phaseloop/fanin.go. Phase/Roles, Phase/Loop: coding/phaseloop/executor.go and
--   coding/phaseloop/fixloop.go. Phase/Merge, Phase/Rounds, Phase/Dedupe: DedupeFindings.
--   Permissions: core/permission.go. Supervisor: coding/supervisor/engine.go and predicates.go,
--   core/supervisor.go.
--   Orchestration: coding/dispatch.go. Effects holds its data and a computation over the database
--   and the world of the agents that may fail; Permission is checkPermission, Attempt is
--   executeAttempt, Loop the loop of Orchestrate. Histories, Launches and Results hold the proofs.
--   Tests: sample data and the theorems at it.
--
-- Arguments of the model: the clock, random ids and the failures of database calls (Faults), the
-- order that SQL leaves open between rows of one time (QueueOrder, RegistryOrder), and the order in
-- which Go visits a map (MapOrder). Times are nanoseconds, stored as whole seconds; the local zone
-- that one format omits to convert is left out. JSON texts are kept as their members, without the
-- numeric pid of a registration. Loops over rows and lists are structural; Kahn's loop has one unit
-- of fuel more than there are plans, and the fix loop runs on the budget that is left. The jobs of a phase are run
-- by an Orchestrator, those of a fan-out in the order of the roles. The loop over the attempts runs on
-- the retries that are left. An agent is a function on a world S of its own, and what a dispatch takes
-- from outside (ids, times, faults) is given per attempt (Calls). Regular expressions, git, sha256,
-- strings.EqualFold, filepath.Base and number formats are arguments where they are called.
--
-- Not modelled: agents and processes, git, YAML files, HTTP and the interfaces, which only call the
-- parts above; the quality rules, and the stores of plans, checkpoints, artifacts and costs. Amounts
-- in dollars are floating-point numbers, so that neither the columns that hold them nor the cost
-- writer is modelled. The templates of prompts are an argument of the dispatcher.
pub mod Prelude
pub mod Core
pub mod Store
pub mod Queue
pub mod Watchdog
pub mod Router
pub mod Manifest
pub mod Permissions
pub mod Supervisor
pub mod Orchestration
pub mod Phase
pub mod Tests
