-- ===== src/Router.antt =====
-- coding/router.go: a dispatch goes to live workers of its role, or to a process that is started for
-- it.
pub mod Targets
use coworker.Prelude.{
  ℕ, String, ◌≡◌, refl, ap, Option, none, some, List, [], ◌∷◌, ◌++◌, map, ◌==◌, ◌||◌, if◌then◌else◌,
  Result, ok, err,
}
use coworker.Core.{Dispatch, Worker, pending, dispatch_mode_ephemeral, dispatch_mode_persistent}
use coworker.Store.Schema.{Db, Faults, Error, unknown_concurrency, Outcome}
use coworker.Store.Dispatches.{enqueue_dispatch}
use coworker.Store.Workers.{RegistryOrder, live_workers_for_role}

pub data RouteMode : Type 0 where
  worker ephemeral : RouteMode

pub record RouteResult : Type 0 where
  pub mode : RouteMode
  pub workers : List String
  pub dispatch_ids : List String

-- What routing takes from outside: the clock, the fault of its query, and for each handle (`none`
-- for no worker) the fresh ids and the faults of the write.
pub record RouteEnv : Type 0 where
  pub now : ℕ
  pub query : Faults
  pub dispatch_id : Option String → String
  pub event_id : Option String → String
  pub faults : Option String → Faults

-- The dispatch that the literal of the code makes from the template.
abbrev pub from_template : Dispatch → String → String → String → Dispatch
from_template template id handle mode = record {
  id = id;
  run_id = template.run_id;
  role = template.role;
  job_id = template.job_id;
  prompt = template.prompt;
  inputs = template.inputs;
  state = pending;
  worker_handle = handle;
  leased_at = none;
  completed_at = none;
  created_at = none;
  mode = mode;
}

-- `if err := m; err != nil { return nil, err }`, and then the rest on the database as it is by then.
abbrev pub or_return :
    Outcome → (Db → Result Error RouteResult × Db) → Result Error RouteResult × Db
or_return (ok _, db) rest = rest db
or_return (err x, db) rest = (err x, db)

pub or_return_ok :
    (m : Outcome) (rest : Db → Result Error RouteResult × Db) (res : RouteResult) (db' : Db)
    → or_return m rest ≡ (ok res, db')
    → (db : Db) × (m ≡ (ok tt, db)) × (rest db ≡ (ok res, db'))
or_return_ok (ok _, db) rest res db' h = (db, refl, h)
or_return_ok (err x, db) rest res db' h =
    absurd (cc (ap (λ (o : Result Error RouteResult × Db). o.0) h))

unfoldable pub enqueue_ephemeral : RouteEnv → Dispatch → Db → Result Error RouteResult × Db
enqueue_ephemeral env template db =
    let d = from_template template (env.dispatch_id none) "" dispatch_mode_ephemeral in
    or_return
      (enqueue_dispatch (env.faults none) env.now (env.dispatch_id none) (env.event_id none) d db)
      (λ db'. (ok (record { mode = ephemeral; workers = []; dispatch_ids = d.id ∷ [] }), db'))

abbrev pub routed_to : RouteEnv → Dispatch → String → Dispatch
routed_to env template handle =
    from_template template (env.dispatch_id (some handle)) handle dispatch_mode_persistent

-- The loop over the workers, from the result that it has built so far. It stops at the first error,
-- and what it has enqueued by then stays.
unfoldable pub enqueue_from :
    RouteEnv → Dispatch → RouteResult → List Worker → Db → Result Error RouteResult × Db
enqueue_from env template result [] db = (ok result, db)
enqueue_from env template result (w ∷ ws) db =
    let h = some w.handle in
    let d = routed_to env template w.handle in
    let appended = record result {
      workers = result.workers ++ w.handle ∷ [];
      dispatch_ids = result.dispatch_ids ++ d.id ∷ [];
    } in
    or_return (enqueue_dispatch (env.faults h) env.now (env.dispatch_id h) (env.event_id h) d db)
      (enqueue_from env template appended ws)

unfoldable pub enqueue : RouteEnv → Dispatch → List Worker → Db → Result Error RouteResult × Db
enqueue env template ws db =
    enqueue_from env template (record { mode = worker; workers = []; dispatch_ids = [] }) ws db

unfoldable pub route_single : RouteEnv → Dispatch → List Worker → Db → Result Error RouteResult × Db
route_single env d [] db = enqueue_ephemeral env d db
route_single env d (target ∷ _) db = enqueue env d (target ∷ []) db

unfoldable pub route_many : RouteEnv → Dispatch → List Worker → Db → Result Error RouteResult × Db
route_many env d [] db = enqueue_ephemeral env d db
route_many env d (w ∷ ws) db = enqueue env d (w ∷ ws) db

unfoldable pub route_live :
    RouteEnv → Dispatch → String → Result Error (List Worker) → Db → Result Error RouteResult × Db
route_live env d concurrency (err x) db = (err x, db)
route_live env d concurrency (ok live) db =
    if concurrency == "single" || concurrency == ""
    then route_single env d live db
    else if concurrency == "many"
    then route_many env d live db
    else (err unknown_concurrency, db)

module _ (order : RegistryOrder) where
  unfoldable pub route : RouteEnv → Dispatch → String → Db → Result Error RouteResult × Db
  route env d concurrency db =
      route_live env d concurrency (live_workers_for_role order env.query d.role db) db
