-- ===== src/Store/Attention.antt =====
-- store/attention_store.go: what a run asks of a human. These writes log no event.
use coworker.Prelude.{
  ℕ, String, ◌≡◌, refl, Bool, ◌&&◌, not, Option, none, some, List, [], ◌∷◌, ◌++◌, arith, ◌==◌, eqb,
  if◌then◌else◌, any, select, update_where, count_where, ok, err,
}
use coworker.Core.{seconds}
use coworker.Core.Jobs.{AttentionItem}
use coworker.Store.Schema.{
  AttentionRow, Db, Faults, write_row, duplicate_key, missing_run, attention_not_found,
  attention_key, run_exists, Outcome,
}
use coworker.Store.Dispatches.{is_null}

abbrev time_or : ℕ → Option ℕ → ℕ
time_or now none = now
time_or now (some t) = t

-- A fresh id and the clock's time stand in for what the item has not; `answered_by` counts only with
-- an answer.
unfoldable pub attention_row : ℕ → String → AttentionItem → AttentionRow
attention_row now fresh_id item = record {
  id = if item.id == "" then fresh_id else item.id;
  run_id = item.run_id;
  kind = item.kind;
  source = item.source;
  job_id = item.job_id;
  question = item.question;
  options = item.options;
  presented_on = item.presented_on;
  answered_on = item.answered_on;
  answered_by = if item.answer == "" then none else some item.answered_by;
  answer = if item.answer == "" then none else some item.answer;
  created_at = seconds (time_or now item.created_at);
  resolved_at = none;
}

-- `INSERT INTO attention`, under PRIMARY KEY(id) and the reference to runs.
unfoldable pub insert_attention_row : Faults → AttentionRow → Db → Outcome
insert_attention_row f r db =
    if f.row
    then (err write_row, db)
    else if any (λ o. attention_key o == r.id) db.attention
    then (err duplicate_key, db)
    else if run_exists db r.run_id
    then (ok tt, record db { attention = db.attention ++ r ∷ [] })
    else (err missing_run, db)

unfoldable pub insert_attention : Faults → ℕ → String → AttentionItem → Db → Outcome
unfolding attention_row insert_attention_row
insert_attention f now fresh_id item db =
    insert_attention_row f (attention_row now fresh_id item) db

unfoldable pub answered : String → String → AttentionRow → AttentionRow
answered answer by r = record r {
  answered_by = some by;
  answer = some answer;
  answered_on = by ∷ [];
}

unfoldable pub answer_attention : Faults → String → String → String → Db → Outcome
unfolding answered
answer_attention f id answer by db =
    if f.row
    then (err write_row, db)
    else if eqb (count_where (λ r. attention_key r == id) db.attention) 0
    then (err attention_not_found, db)
    else (
      ok tt,
      record db {
        attention = update_where (λ r. attention_key r == id) (answered answer by) db.attention;
      },
    )

-- The UPDATE is not checked for the rows it reaches.
unfoldable pub resolve_attention : Faults → ℕ → String → Db → Outcome
resolve_attention f now id db = if f.row then (err write_row, db) else (
  ok tt,
  record db {
    attention =
        update_where (λ r. attention_key r == id)
          (λ r. record r { resolved_at = some (seconds now) }) db.attention;
  },
)

-- `WHERE run_id = ? AND answer IS NULL`, before the order by time.
abbrev pub unanswered : String → AttentionRow → Bool
unanswered run_id r = r.run_id == run_id && is_null r.answer

answered_gone :
    (run_id id answer by : String) (rows : List AttentionRow)
    → select
        (unanswered run_id)
        (update_where (λ r. attention_key r == id) (answered answer by) rows)
      ≡ select (λ r. unanswered run_id r && not (attention_key r == id)) rows
unfolding answered is_null
answered_gone run_id id answer by [] = refl
answered_gone run_id id answer by (r ∷ rows) =
    ground (arith, answered_gone run_id id answer by rows)

-- After an answer that reports no error, what a run still waits for is what it waited for before,
-- without the item of that id.
pub answer_attention_lem :
    (f : Faults) (run_id id answer by : String) (db db' : Db)
    → answer_attention f id answer by db ≡ (ok tt, db')
    → select (unanswered run_id) db'.attention
      ≡ select (λ r. unanswered run_id r && not (attention_key r == id)) db.attention
unfolding answer_attention
answer_attention_lem f run_id id answer by db db' h =
    ground (arith, answered_gone run_id id answer by db.attention)
