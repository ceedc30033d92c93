-- ===== src/Store/Findings.antt =====
-- store/finding_store.go and store/supervisor_event_store.go: what a review of a job says. A
-- finding is written once, and later resolved at most once.
use coworker.Prelude.{
  ℕ, ◌*◌, String, ◌≡◌, refl, Bool, false, ◌&&◌, ◌||◌, not, Option, none, some, [], ◌∷◌, ◌++◌, ◌==◌,
  eqb, if◌then◌else◌, any, count_where, update_where, Result, ok, err,
}
use coworker.Manifest.Integers.{ℤ, pos, eqz}
use coworker.Core.{finding_created, finding_resolved, supervisor_verdict, Event, seconds}
use coworker.Core.Jobs.{Finding}
use coworker.Supervisor.{RuleResult}
use coworker.Store.Schema.{
  string_or_empty, FindingRow, SupervisorRow, Db, Faults, Error, select_rows, write_row,
  duplicate_key, missing_run, missing_job, finding_not_found, already_resolved, finding_key,
  run_exists, job_exists, Outcome,
}
use coworker.Store.Rows.{row}
use coworker.Store.Events.{write_event_then_row}
use coworker.Store.Dispatches.{is_null}
use coworker.Store.Runs.{run_event}

-- `finding.Fingerprint = core.ComputeFingerprint(...)`, a hash of the four parts.
abbrev pub fingerprinted : (String → ℤ → String → String → String) → Finding → Finding
fingerprinted compute_fingerprint f = record f {
  fingerprint = compute_fingerprint f.path f.line f.severity f.body;
}

abbrev index_or_zero : Option ℤ → ℤ
index_or_zero none = pos 0
index_or_zero (some i) = i

unfoldable pub finding_row : Finding → FindingRow
finding_row f = record {
  id = f.id;
  run_id = f.run_id;
  job_id = f.job_id;
  path = f.path;
  line = f.line;
  severity = f.severity;
  body = f.body;
  fingerprint = f.fingerprint;
  resolved_by_job_id = none;
  resolved_at = none;
  plan_id = f.plan_id;
  phase_index = index_or_zero f.phase_index;
  reviewer_handle = f.reviewer_handle;
}

-- `INSERT INTO findings`, under PRIMARY KEY(id) and the references to runs and jobs.
unfoldable pub insert_finding_row : Faults → FindingRow → Db → Result Error Db
insert_finding_row f r db =
    if f.row
    then err write_row
    else if any (λ o. finding_key o == r.id) db.findings
    then err duplicate_key
    else if not (run_exists db r.run_id)
    then err missing_run
    else if not (job_exists db r.job_id)
    then err missing_job
    else ok (record db { findings = db.findings ++ r ∷ [] })

-- Of the members of the payload only the texts are kept; `line` is a number.
unfoldable pub finding_created_event : String → ℕ → Finding → Event
unfolding run_event
finding_created_event event_id now f =
    run_event event_id finding_created f.run_id f.job_id
      (("finding_id", f.id)
        ∷ ("fingerprint", f.fingerprint)
        ∷ ("job_id", f.job_id)
        ∷ ("path", f.path)
        ∷ ("severity", f.severity)
        ∷ [])
      now

unfoldable pub insert_finding :
    (String → ℤ → String → String → String) → Faults → ℕ → String → Finding → Db → Outcome
unfolding finding_created_event finding_row insert_finding_row
insert_finding compute_fingerprint f now event_id finding db =
    let finding' = fingerprinted compute_fingerprint finding in
    write_event_then_row f (finding_created_event event_id now finding')
      (insert_finding_row f (finding_row finding')) db

-- `SET resolved_by_job_id = ?, resolved_at = ?`. The trigger on the table lets no other update pass.
unfoldable pub resolved : ℕ → String → FindingRow → FindingRow
resolved now job_id r = record r {
  resolved_by_job_id = some job_id;
  resolved_at = some (seconds now);
}

abbrev pub unresolved : FindingRow → Bool
unresolved r = is_null r.resolved_by_job_id

unfoldable pub resolve_row : Faults → ℕ → String → String → Db → Result Error Db
unfolding resolved is_null
resolve_row f now id job_id db =
    if f.row
    then err write_row
    else if eqb (count_where (λ r. finding_key r == id && unresolved r) db.findings) 0
    then err already_resolved
    else ok (record db {
      findings =
          update_where (λ r. finding_key r == id && unresolved r) (resolved now job_id) db.findings;
    })

unfoldable pub finding_resolved_event : String → ℕ → String → String → String → Event
unfolding run_event
finding_resolved_event event_id now run_id id job_id =
    run_event event_id finding_resolved run_id ""
      (("finding_id", id) ∷ ("resolved_by_job_id", job_id) ∷ []) now

unfoldable pub resolve_found :
    Faults → ℕ → String → String → String → Option FindingRow → Db → Outcome
unfolding finding_resolved_event resolve_row
resolve_found f now event_id id job_id none db = (err finding_not_found, db)
resolve_found f now event_id id job_id (some r) db =
    write_event_then_row f (finding_resolved_event event_id now r.run_id id job_id)
      (resolve_row f now id job_id) db

unfoldable pub resolve_finding : Faults → ℕ → String → String → String → Db → Outcome
unfolding resolve_found
resolve_finding f now event_id id job_id db =
    if f.select
    then (err select_rows, db)
    else resolve_found f now event_id id job_id (row finding_key id db.findings) db

abbrev nanoseconds : Option ℕ → Option ℕ
nanoseconds none = none
nanoseconds (some t) = some (t * 1_000_000_000)

-- A row read back: ListFindings takes the index 0 without a plan for an unknown one.
unfoldable pub scan_finding : FindingRow → Finding
unfolding string_or_empty
scan_finding r = record {
  id = r.id;
  run_id = r.run_id;
  job_id = r.job_id;
  path = r.path;
  line = r.line;
  severity = r.severity;
  body = r.body;
  fingerprint = r.fingerprint;
  resolved_by_job_id = string_or_empty r.resolved_by_job_id;
  resolved_at = nanoseconds r.resolved_at;
  plan_id = r.plan_id;
  phase_index =
      if not (r.plan_id == "") || not (eqz r.phase_index (pos 0)) then some r.phase_index else none;
  reviewer_handle = r.reviewer_handle;
  source_job_ids = [];
}

-- The verdict of one rule, as RecordVerdict names it.
unfoldable pub verdict_text : RuleResult → String
verdict_text r = if r.skipped then "skipped" else if not r.passed then "fail" else "pass"

unfoldable pub supervisor_row : String → ℕ → String → String → RuleResult → SupervisorRow
unfolding verdict_text
supervisor_row id now run_id job_id r = record {
  id = id;
  run_id = run_id;
  job_id = job_id;
  verdict = verdict_text r;
  rule_id = r.rule_name;
  message = r.message;
  created_at = now;
}

-- `INSERT INTO supervisor_events`, under PRIMARY KEY(id) and the references to runs and jobs.
unfoldable pub insert_verdict : Faults → SupervisorRow → Db → Result Error Db
insert_verdict f r db =
    if f.row
    then err write_row
    else if any (λ (o : SupervisorRow). o.id == r.id) db.supervisor_events
    then err duplicate_key
    else if not (run_exists db r.run_id)
    then err missing_run
    else if not (job_exists db r.job_id)
    then err missing_job
    else ok (record db { supervisor_events = db.supervisor_events ++ r ∷ [] })

unfoldable pub verdict_event : String → ℕ → String → String → RuleResult → Event
unfolding run_event verdict_text
verdict_event event_id now run_id job_id r =
    run_event event_id supervisor_verdict run_id job_id
      (("job_id", job_id)
        ∷ ("message", r.message)
        ∷ ("rule", r.rule_name)
        ∷ ("run_id", run_id)
        ∷ ("verdict", verdict_text r)
        ∷ [])
      now

-- The ids are those of the event and of the row.
unfoldable pub record_verdict :
    Faults → ℕ → String → String → String → String → RuleResult → Db → Outcome
unfolding verdict_event supervisor_row insert_verdict
record_verdict f now event_id row_id run_id job_id r db =
    write_event_then_row f (verdict_event event_id now run_id job_id r)
      (insert_verdict f (supervisor_row row_id now run_id job_id r)) db

-- A finding of a phase of a plan is read back as it was inserted, unresolved and without the list
-- of jobs that is kept in memory.
pub scan-finding_row :
    (f : Finding) (i : ℤ)
    → (f.plan_id == "") ≡ false
    → f.phase_index ≡ some i
    → scan_finding (finding_row f)
      ≡ record f { resolved_by_job_id = ""; resolved_at = none; source_job_ids = [] }
unfolding scan_finding finding_row
scan-finding_row f i h k = rw (h, k) refl
