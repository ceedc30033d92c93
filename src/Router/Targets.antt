-- ===== src/Router/Targets.antt =====
-- Where Route sends a dispatch.
use mathlib.Core.List.{append-nil, append_assoc}
use coworker.Prelude.{
  ℕ, String, ◌≡◌, refl, sym, ap, ◌∙◌, Bool, true, false, Option, none, some, List, [], ◌∷◌, ◌++◌,
  map, arith, ◌==◌, ◌||◌, eq_iff, if◌then◌else◌, Result, ok, inl, inr, Bool-cases, Result-cases,
}
use coworker.Core.{Dispatch, Worker, dispatch_mode_ephemeral}
use coworker.Store.Schema.{DispatchRow, Db, Faults, Error}
use coworker.Store.Events.{publish}
use coworker.Store.Events.Log.{write_ok}
use coworker.Store.Dispatches.{
  prepared, queued_row, queued_event, insert_dispatch, enqueue_dispatch,
}
use coworker.Store.Workers.{RegistryOrder, live_workers_for_role}
use coworker.Router.{
  worker, ephemeral, RouteResult, RouteEnv, from_template, enqueue_ephemeral, routed_to,
  enqueue_from, enqueue, route_single, route_many, route_live, or_return_ok, route,
}

insert_ok :
    (f : Faults) (r : DispatchRow) (db p : Db)
    → insert_dispatch f r db ≡ ok p
    → p.dispatches ≡ db.dispatches ++ r ∷ []
unfolding insert_dispatch
insert_ok f r db p h = ground arith

pub enqueue_ok :
    (f : Faults) (now : ℕ) (fresh_id event_id : String) (d : Dispatch) (db db' : Db)
    → enqueue_dispatch f now fresh_id event_id d db ≡ (ok tt, db')
    → db'.dispatches ≡ db.dispatches ++ queued_row now (prepared fresh_id now d) ∷ []
unfolding enqueue_dispatch publish
enqueue_ok f now fresh_id event_id d db db' h =
    let d' = prepared fresh_id now d in
    let r = queued_row now d' in
    let (p, made, out) = write_ok f (queued_event event_id now d') (insert_dispatch f r) db db' h in
    rw out (insert_ok f r _ p made)

-- The row of a dispatch for one worker, or for a process that is started for it.
abbrev pub target_row : RouteEnv → Dispatch → Option String → DispatchRow
target_row env template none = queued_row env.now (
    prepared (env.dispatch_id none) env.now
      (from_template template (env.dispatch_id none) "" dispatch_mode_ephemeral))
target_row env template (some h) =
    queued_row env.now (prepared (env.dispatch_id (some h)) env.now (routed_to env template h))

-- Who is to get a dispatch of a concurrency, of the live workers in order of age.
abbrev pub targets : String → List Worker → List (Option String)
targets concurrency [] = none ∷ []
targets concurrency (w ∷ ws) =
    some w.handle ∷ (if concurrency == "many" then map (λ (v : Worker). some v.handle) ws else [])

abbrev pub no_worker : List (Option String) → Bool
no_worker (none ∷ _) = true
no_worker _ = false

enqueue_from_ok :
    (env : RouteEnv) (template : Dispatch) (result res : RouteResult) (ws : List Worker)
    (db db' : Db)
    → enqueue_from env template result ws db ≡ (ok res, db')
    → (db'.dispatches
        ≡ db.dispatches ++ map (target_row env template) (map (λ (v : Worker). some v.handle) ws))
      × (res.workers ≡ result.workers ++ map (λ (v : Worker). v.handle) ws)
unfolding enqueue_from
enqueue_from_ok env template result res [] db db' h =
    let same : db ≡ db' = cc (ap (λ (o : Result Error RouteResult × Db). o.1) h) in
    let out : result ≡ res = cc (ap (λ (o : Result Error RouteResult × Db). o.0) h) in
    (rw (← same) (sym (append-nil db.dispatches)), rw (← out) (sym (append-nil result.workers)))
enqueue_from_ok env template result res (w ∷ ws) db db' h =
    let h1 = some w.handle in
    let d = routed_to env template w.handle in
    let appended = record result {
      workers = result.workers ++ w.handle ∷ [];
      dispatch_ids = result.dispatch_ids ++ d.id ∷ [];
    } in
    let (mid, one, rest) =
      or_return_ok
        (enqueue_dispatch (env.faults h1) env.now (env.dispatch_id h1) (env.event_id h1) d db)
        (enqueue_from env template appended ws) res db' h in
    let (rows, names) = enqueue_from_ok env template appended res ws mid db' rest in
    let handles = map (λ (v : Worker). some v.handle) ws in
    (
      rows
          ∙ ap (λ l. l ++ map (target_row env template) handles)
              (enqueue_ok (env.faults h1) env.now (env.dispatch_id h1) (env.event_id h1) d db mid
                one)
          ∙ append_assoc db.dispatches (target_row env template h1 ∷ [])
              (map (target_row env template) handles),
      names ∙ append_assoc result.workers (w.handle ∷ []) (map (λ (v : Worker). v.handle) ws),
    )

-- What Route does when it reports no error: the queue gets one dispatch for every target of the
-- concurrency (none is the process to be started), in the order of the workers, and the result
-- names the workers.
pub record IsRouted (env : RouteEnv) (template : Dispatch) (to : List (Option String))
    (res : RouteResult) (db db' : Db) : Type 0 where
  pub queued : db'.dispatches ≡ db.dispatches ++ map (target_row env template) to
  pub named : map some res.workers ≡ (if no_worker to then [] else to)

ephemeral-IsRouted :
    (env : RouteEnv) (template : Dispatch) (res : RouteResult) (db db' : Db)
    → enqueue_ephemeral env template db ≡ (ok res, db')
    → IsRouted env template (none ∷ []) res db db'
unfolding enqueue_ephemeral
ephemeral-IsRouted env template res db db' h =
    let d = from_template template (env.dispatch_id none) "" dispatch_mode_ephemeral in
    let (mid, one, rest) =
      or_return_ok
        (enqueue_dispatch (env.faults none) env.now (env.dispatch_id none) (env.event_id none) d db)
        (λ (b : Db). (ok (record { mode = ephemeral; workers = []; dispatch_ids = d.id ∷ [] }), b))
        res db' h in
    let same : mid ≡ db' = cc (ap (λ (o : Result Error RouteResult × Db). o.1) rest) in
    let out : record { mode = ephemeral; workers = []; dispatch_ids = d.id ∷ [] } ≡ res =
      cc (ap (λ (o : Result Error RouteResult × Db). o.0) rest) in
    record {
      queued = rw (← same) (
          enqueue_ok (env.faults none) env.now (env.dispatch_id none) (env.event_id none) d db mid
            one);
      named = rw (← out) refl;
    }

map-map-some :
    (ws : List Worker)
    → map (λ (h : String). some h) (map (λ (v : Worker). v.handle) ws)
      ≡ map (λ (v : Worker). some v.handle) ws
map-map-some [] = refl
map-map-some (w ∷ ws) = ap (λ l. some w.handle ∷ l) (map-map-some ws)

enqueue-IsRouted :
    (env : RouteEnv) (template : Dispatch) (res : RouteResult) (w : Worker) (ws : List Worker)
    (db db' : Db)
    → enqueue env template (w ∷ ws) db ≡ (ok res, db')
    → IsRouted env template (some w.handle ∷ map (λ (v : Worker). some v.handle) ws) res db db'
unfolding enqueue
enqueue-IsRouted env template res w ws db db' h =
    let (rows, names) =
      enqueue_from_ok env template (record { mode = worker; workers = []; dispatch_ids = [] }) res
        (w ∷ ws) db db' h in
    record { queued = rows; named = rw names (map-map-some (w ∷ ws)) }

single_not_many : (c : String) → c == "single" || c == "" ≡ true → c == "many" ≡ false
single_not_many c h = elim (Bool-cases (c == "many")) [
  | inl e ↦ absurd (cc (rw ((eq_iff c "many").0 e) at h))
  | inr e ↦ e
]

route_live-IsRouted :
    (env : RouteEnv) (template : Dispatch) (concurrency : String) (live : List Worker)
    (res : RouteResult) (db db' : Db)
    → route_live env template concurrency (ok live) db ≡ (ok res, db')
    → IsRouted env template (targets concurrency live) res db db'
unfolding route_live route_single route_many
route_live-IsRouted env template c [] res db db' h = elim (Bool-cases (c == "single" || c == "")) [
  | inl e ↦ ephemeral-IsRouted env template res db db' (rw e at h)
  | inr e ↦ elim (Bool-cases (c == "many")) [
    | inl e' ↦ ephemeral-IsRouted env template res db db' (rw (e, e') at h)
    | inr e' ↦ absurd (cc (ap (λ (o : Result Error RouteResult × Db). o.0) (rw (e, e') at h)))
  ]
]
route_live-IsRouted env template c (w ∷ ws) res db db' h =
    elim (Bool-cases (c == "single" || c == "")) [
      | inl e ↦ rw (single_not_many c e) (enqueue-IsRouted env template res w [] db db' (rw e at h))
      | inr e ↦ elim (Bool-cases (c == "many")) [
        | inl e' ↦ rw e' (enqueue-IsRouted env template res w ws db db' (rw (e, e') at h))
        | inr e' ↦ absurd (cc (ap (λ (o : Result Error RouteResult × Db). o.0) (rw (e, e') at h)))
      ]
    ]

-- A Route that reports no error has queued one dispatch for every target, after the dispatches
-- that were there, and names the workers it chose: with "many" every live worker of the role, else
-- the first of them, and with no live worker one process, which runs the dispatch of no handle.
pub route_lem :
    (order : RegistryOrder) (env : RouteEnv) (template : Dispatch) (concurrency : String)
    (res : RouteResult) (db db' : Db)
    → route order env template concurrency db ≡ (ok res, db')
    → (live : List Worker) × (live_workers_for_role order env.query template.role db ≡ ok live)
      × IsRouted env template (targets concurrency live) res db db'
unfolding route route_live
route_lem order env template concurrency res db db' h =
    elim (Result-cases (live_workers_for_role order env.query template.role db)) [
      | inl (live, e) ↦
          (live, e, route_live-IsRouted env template concurrency live res db db' (rw e at h))
      | inr (x, e) ↦ absurd (cc (ap (λ (o : Result Error RouteResult × Db). o.0) (rw e at h)))
    ]
