-- ===== src/Runner/Ledger/Checkpoints.antt =====
-- The checkpoint methods of `EffectLedgerStore` (platform/app/effect_ledger.py).
use study_assistance_agent.Prelude.{
  ℕ, ◌+◌, max, String, str_eq, Bool, not, ◌||◌, Option, none, some, List, [], ◌∷◌, ◌++◌, any, leb,
  ◌==◌, if◌then◌else◌, is_some, select, order_by,
}
use study_assistance_agent.Exec.{Exec, ok, err, checkpoint_conflict}
use study_assistance_agent.Runner.Ledger.{Ledger, Checkpoint, find_job}

-- `WHERE job_id = ?`
unfoldable pub job_checkpoints : String → Ledger → List Checkpoint
job_checkpoints job_id db = select (λ c. str_eq c.job_id job_id) db.checkpoints

-- `COALESCE(MAX(seq), 0)`
unfoldable pub max_seq : List Checkpoint → ℕ
max_seq [] = 0
max_seq (c ∷ cs) = max c.seq (max_seq cs)

unfoldable pub next_checkpoint_seq : String → Ledger → ℕ
unfolding job_checkpoints max_seq
next_checkpoint_seq job_id db = max_seq (job_checkpoints job_id db) + 1

-- The primary key, the unique pair and the foreign key of `job_checkpoints`.
unfoldable pub is_checkpoint_refused : Checkpoint → Ledger → Bool
unfolding job_checkpoints
is_checkpoint_refused c db =
    any (λ d. str_eq d.checkpoint_id c.checkpoint_id) db.checkpoints
    || any (λ d. d.seq == c.seq) (job_checkpoints c.job_id db)
    || not (is_some (find_job c.job_id db))

unfoldable pub record_checkpoint : Checkpoint → Exec Ledger (Unit {0})
unfolding is_checkpoint_refused
record_checkpoint c db =
    if is_checkpoint_refused c db
    then (err checkpoint_conflict, db)
    else (ok tt, record db { checkpoints = db.checkpoints ++ c ∷ [] })

-- `ORDER BY seq DESC LIMIT 1`
unfoldable pub first_row : List Checkpoint → Option Checkpoint
first_row [] = none
first_row (c ∷ cs) = some c

unfoldable pub latest_checkpoint : String → Ledger → Option Checkpoint
unfolding job_checkpoints first_row
latest_checkpoint job_id db =
    first_row (order_by (λ a b. leb b.seq a.seq) (job_checkpoints job_id db))
