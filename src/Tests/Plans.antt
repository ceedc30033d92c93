-- ===== src/Tests/Plans.antt =====
-- The router at two workers of a role, and a manifest of three plans.
use mathlib.Core.List.{Memᴰ}
use mathlib.Core.List.Perm
use coworker.Prelude.{
  ℕ, ◌+◌, ◌-◌, ◌≤◌, max, String, ◌≡◌, ◌≢◌, refl, Bool, true, false, Option, none, some, List, [],
  ◌∷◌, arith, ok, select, length, All,
}
use coworker.Core.{Worker, live}
use coworker.Store.Schema.{Db, WorkerRow, no_faults, nullable_string}
use coworker.Store.Events.{
  write_event_then_row, transaction, settle, publish, append_event, event_row, next_sequence,
  max_sequence, violates,
}
use coworker.Store.Dispatches.{
  enqueue_dispatch, prepared, queued_row, insert_dispatch, queued_event, dispatch_event,
}
use coworker.Store.Workers.{live_workers_for_role, live_for, is_live, scan_worker}
use coworker.Router.{
  worker, RouteResult, RouteEnv, enqueue_from, enqueue, route_many, route_live, route,
}
use coworker.Router.Targets.{IsRouted, targets, route_lem}
use coworker.Manifest.Integers.{ℤ, pos}
use coworker.Manifest.Schema.{
  PlanEntry, PlanManifest, check_entries, check_deps, check_references, in_degrees, dependents,
  release_dependents, MapOrder, kahn, validate,
}
use coworker.Manifest.Validate.{AreProper, AreKnown, validate_sound}
use coworker.Manifest.Scheduler.{IdSet, contains, DagScheduler, max_parallel_plans, ready_plans}
use coworker.Manifest.Ready.{first_of, startable, ready_plans_lem, ready_plans_cap}
use coworker.Manifest.Progress.{IsLayered, ready_plans_progress}
use coworker.Tests.Samples.{a_run, dispatch_for}
use coworker.Tests.Registry.{by_age, by_age_order}

abbrev worker_at : String → ℕ → WorkerRow
worker_at handle t = record {
  handle = handle;
  role = "reviewer";
  pid = 1;
  session_id = "";
  cli = "codex";
  registered_at = t;
  last_heartbeat_at = t;
  state = live;
}

abbrev two_workers : Db
two_workers = record {
  runs = a_run "run" ∷ [];
  jobs = [];
  findings = [];
  supervisor_events = [];
  attention = [];
  events = [];
  dispatches = [];
  workers = worker_at "young" 5 ∷ worker_at "old" 3 ∷ [];
  bus = none;
}

-- The id of a dispatch is named after its worker.
abbrev name_of : Option String → String
name_of none = "process"
name_of (some h) = h

abbrev route_env : RouteEnv
route_env = record {
  now = 9_000_000_000;
  query = no_faults;
  dispatch_id = name_of;
  event_id = name_of;
  faults = λ h. no_faults;
}

abbrev routed : Db
routed = (route by_age_order route_env (dispatch_for "" "reviewer" "") "many" two_workers).1

abbrev both : RouteResult
both = record { mode = worker; workers = "old" ∷ "young" ∷ []; dispatch_ids = "old" ∷ "young" ∷ [] }

route_run :
    route by_age_order route_env (dispatch_for "" "reviewer" "") "many" two_workers
    ≡ (ok both, routed)
unfolding route route_live route_many enqueue enqueue_from live_workers_for_role live_for is_live
    scan_worker coworker.Tests.Registry.by_age enqueue_dispatch prepared queued_row insert_dispatch
    queued_event dispatch_event write_event_then_row transaction settle publish append_event
    event_row next_sequence max_sequence violates nullable_string
route_run = refl

route_lem_example :
    (found : List Worker) × (live_workers_for_role by_age_order no_faults "reviewer" two_workers
      ≡ ok found)
    × IsRouted route_env
        (dispatch_for "" "reviewer" "")
        (targets "many" found)
        both
        two_workers
        routed
route_lem_example =
    route_lem by_age_order route_env (dispatch_for "" "reviewer" "") "many" both two_workers routed
      route_run

abbrev plan : ℕ → List ℤ → PlanEntry
plan id deps = record { id = pos id; title = "plan"; phases = []; blocks_on = deps }

-- The entry of id 3 waits for 1 and 2, that of id 2 for 1.
abbrev sample : PlanManifest
sample = record {
  spec_path = "spec.md";
  plans = plan 3 (pos 1 ∷ pos 2 ∷ []) ∷ plan 1 [] ∷ plan 2 (pos 1 ∷ []) ∷ [];
}

abbrev as_given : MapOrder
as_given = record { keys = λ ids. ids; keys_perm = λ ids. Perm.refl ids }

validate_run : validate as_given sample ≡ ok tt
unfolding validate check_entries check_references check_deps in_degrees kahn release_dependents
    dependents
validate_run = refl

validate_sound_example :
    (sample.spec_path ≢ "")
    × (sample.plans ≢ [])
    × AreProper sample.plans
    × All (λ (p : PlanEntry). AreKnown sample.plans p.blocks_on) sample.plans
validate_sound_example = validate_sound as_given sample validate_run

abbrev scheduler : DagScheduler
scheduler = record { manifest = some sample; max_parallel = none }

abbrev first_done : IdSet
first_done = (pos 1, true) ∷ []

ready_plans_lem_example :
    ready_plans scheduler first_done []
    ≡ first_of
        (max_parallel_plans scheduler - length {A = ℤ × Bool} [])
        (select (startable first_done []) sample.plans)
ready_plans_lem_example = ready_plans_lem scheduler sample first_done [] refl

ready_plans_cap_example :
    length first_done + length (ready_plans scheduler [] first_done)
    ≤ max (max_parallel_plans scheduler) (length first_done)
ready_plans_cap_example = ready_plans_cap scheduler [] first_done

-- The layer of a plan is its number.
abbrev number : ℤ → ℕ
number (pos n) = n
number _ = 0

sample-IsLayered : IsLayered number sample.plans
sample-IsLayered = ((omega arith, (omega arith, tt)), (tt, ((omega arith, tt), tt)))

third_open : contains first_done (pos 3) ≡ false
unfolding contains
third_open = refl

ready_plans_progress_example : ready_plans scheduler first_done [] ≢ []
ready_plans_progress_example =
    ready_plans_progress as_given scheduler sample first_done number (plan 3 (pos 1 ∷ pos 2 ∷ []))
      refl validate_run sample-IsLayered (Memᴰ.head refl) third_open
