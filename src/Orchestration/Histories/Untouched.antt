-- ===== src/Orchestration/Histories/Untouched.antt =====
-- What a dispatch in its caller's run leaves alone.
use coworker.Prelude.{◌≡◌}
use coworker.Store.Schema.{Db}

-- The tables runs, dispatches and workers are the same.
abbrev pub Apart : Db → Db → Type 0
Apart db p = (p.runs ≡ db.runs) × (p.dispatches ≡ db.dispatches) × (p.workers ≡ db.workers)
