-- ===== src/Runner/Ledger/Retention.antt =====
-- `_older_than` and `purge_expired` of platform/app/effect_ledger.py.
use study_assistance_agent.Prelude.{
  ℕ, ◌+◌, ◌*◌, String, str_eq, Bool, true, false, not, ◌&&◌, Option, none, some, List, [], ◌∷◌, any,
  ltb, leb, if◌then◌else◌, or_else, delete_rows, order_by,
}
use study_assistance_agent.Exec.{Exec, Result, ok, err, retention_invalid, integrity_error}
use study_assistance_agent.Runner.Effects.{is_terminal}
use study_assistance_agent.Runner.Ledger.{Ledger, Job, EffectRow}

-- What `datetime.fromisoformat` makes of a text; a number is microseconds, UTC for an aware time.
pub data Stamp : Type 0 where
  malformed : Stamp
  naive : ℕ → Stamp
  aware : ℕ → Stamp

unfoldable pub older_than : Stamp → Stamp → ℕ → Bool
older_than (aware created) (aware reference) retention_seconds =
    ltb (created + retention_seconds * 1000000) reference
older_than _ _ _ = false

abbrev pub is_of_job : String → EffectRow → Bool
is_of_job job_id row = str_eq row.effect.job_id job_id

-- The count of the job's effects that are not terminal, read as a truth value.
unfoldable pub has_unfinished : String → Ledger → Bool
has_unfinished job_id db =
    any (λ row. is_of_job job_id row && not (is_terminal row.effect.state)) db.effects

-- `effect_id IN (SELECT effect_id FROM effect_ledger WHERE job_id = ?)`
unfoldable pub is_in_job : String → Ledger → String → Bool
is_in_job job_id db id =
    any (λ row. is_of_job job_id row && str_eq row.effect.effect_id id) db.effects

-- The four deletions. A row of `reconcile_attempts` that names one of the job's effects makes the
-- second one fail, since its foreign key is not satisfied any more.
unfoldable pub delete_job : Job → Exec Ledger (Unit {0})
unfolding is_in_job
delete_job job db =
    if any (λ a. is_in_job job.job_id db a.effect_id) db.attempts
    then (err integrity_error, db)
    else (
      ok tt,
      record {
        jobs = delete_rows (λ j. str_eq j.job_id job.job_id) db.jobs;
        effects = delete_rows (is_of_job job.job_id) db.effects;
        events = delete_rows (λ e. is_in_job job.job_id db e.effect_id) db.events;
        checkpoints = delete_rows (λ c. str_eq c.job_id job.job_id) db.checkpoints;
        attempts = db.attempts;
      },
    )

-- Does the loop skip the job?
unfoldable pub is_kept : Stamp → ℕ → Job → Ledger → Bool
unfolding has_unfinished
is_kept cutoff retention_seconds job db =
    if older_than (aware job.created_at) cutoff retention_seconds
    then has_unfinished job.job_id db
    else true

-- The loop over the jobs, with `purged` so far; the tables are changed as it goes.
unfoldable pub purge_jobs : Stamp → ℕ → List Job → ℕ → Exec Ledger ℕ
purge_jobs cutoff retention_seconds [] purged db = (ok purged, db)
purge_jobs cutoff retention_seconds (job ∷ rest) purged db =
    elim (is_kept cutoff retention_seconds job db) [
      | true ↦ purge_jobs cutoff retention_seconds rest purged db
      | false ↦ elim (delete_job job db).0 [
        | err code ↦ (err code, db)
        | ok _ ↦ purge_jobs cutoff retention_seconds rest (purged + 1) (delete_job job db).1
      ]
    ]

-- A raise inside the `with` block rolls all of it back.
unfoldable pub rolled_back : Ledger → Result ℕ × Ledger → Result ℕ × Ledger
rolled_back db (ok n, db') = (ok n, db')
rolled_back db (err code, db') = (err code, db)

-- `retention_seconds` is `none` where the argument is no integer, or a negative one. `clock` is
-- what `_now()` reads.
unfoldable pub purge_expired : Option ℕ → Option Stamp → ℕ → Exec Ledger ℕ
unfolding purge_jobs is_kept delete_job rolled_back
purge_expired none now clock db = (err retention_invalid, db)
purge_expired (some retention_seconds) now clock db =
    let cutoff = or_else now (aware clock) in
    let rows = order_by (λ a b. leb a.created_at b.created_at) db.jobs in
    rolled_back db (purge_jobs cutoff retention_seconds rows 0 db)
