-- ===== src/Runner/Ledger/Blocking.antt =====
-- A job that the reconciler has once looked at blocks retention: its rows of `reconcile_attempts`
-- are not deleted, so the deletion of its effects fails, and the purge of every job with it.
use mathlib.Core.List.{Memᴰ}
use mathlib.Core.List.Memᴰ.{head, tail}
use study_assistance_agent.Prelude.{
  ℕ, ◌+◌, String, str_eq, eq_iff, ◌≡◌, ◌∙◌, true, false, ◌&&◌, inl, inr, Option, some, List, [],
  ◌∷◌, arith, any, Bool-cases, or_else, leb,
}
use study_assistance_agent.Prelude.Tables.Deletes.{
  any-delete_rows, any-delete_rows-false, any-congr, mem-order_by,
}
use study_assistance_agent.Exec.{Code, Result, ok, err, integrity_error}
use study_assistance_agent.Runner.Ledger.{Ledger, EffectRow, Attempt, Job}
use study_assistance_agent.Runner.Ledger.Retention.{
  Stamp, aware, older_than, is_of_job, is_in_job, has_unfinished, is_kept, delete_job, purge_jobs,
  purge_expired, rolled_back,
}
use study_assistance_agent.Runner.Ledger.Purging.{without_job, delete_job-cases}

-- All effects of the job are terminal, and some reconcile attempt names one of them.
pub record IsReconciled (job_id : String) (db : Ledger) : Type 0 where
  pub finished : has_unfinished job_id db ≡ false
  pub attempted : any (λ (a : Attempt). is_in_job job_id db a.effect_id) db.attempts ≡ true

is_in_job-without_job :
    (job_id other id : String) (db : Ledger)
    → str_eq other job_id ≡ false
    → is_in_job job_id (without_job other db) id ≡ is_in_job job_id db id
unfolding is_in_job
is_in_job-without_job job_id other id db ne =
    any-delete_rows (λ (x : EffectRow). is_of_job job_id x && str_eq x.effect.effect_id id)
      (is_of_job other) db.effects
      (λ x h.
        ground
          (arith, eq_iff x.effect.job_id job_id, eq_iff x.effect.job_id other, eq_iff other job_id))

without_job-IsReconciled :
    (job_id other : String) (db : Ledger)
    → str_eq other job_id ≡ false
    → IsReconciled job_id db
    → IsReconciled job_id (without_job other db)
unfolding has_unfinished
without_job-IsReconciled job_id other db ne r = record {
  finished = any-delete_rows-false _ _ db.effects r.finished;
  attempted =
      any-congr _ _ db.attempts (λ a. is_in_job-without_job job_id other a.effect_id db ne)
      ∙ r.attempted;
}

module _ (cutoff : Stamp) (retention : ℕ) (job : Job)
    (expired : older_than (aware job.created_at) cutoff retention ≡ true) where
  delete_job-blocked :
      (db : Ledger) → IsReconciled job.job_id db → delete_job job db ≡ (err integrity_error, db)
  unfolding delete_job
  delete_job-blocked db r = rw r.attempted

  -- The deletion looks at the job's id alone.
  same_job :
      (other : Job) (db : Ledger)
      → other.job_id ≡ job.job_id
      → IsReconciled job.job_id db
      → delete_job other db ≡ (err integrity_error, db)
  unfolding delete_job
  same_job other db e r = rw e (rw r.attempted)

  purge_jobs-head :
      (rest : List Job) (n : ℕ) (db : Ledger)
      → IsReconciled job.job_id db
      → purge_jobs cutoff retention (job ∷ rest) n db ≡ (err integrity_error, db)
  unfolding purge_jobs is_kept
  purge_jobs-head rest n db r = rw (expired, r.finished, purge_jobs, delete_job-blocked db r)

  -- One round over another job ends the purge with the same error, or leaves the job as it is.
  purge_jobs-cons :
      (other : Job) (rest : List Job) (n : ℕ) (db : Ledger)
      → ((n' : ℕ) (db' : Ledger)
          → IsReconciled job.job_id db'
          → (purge_jobs cutoff retention rest n' db').0 ≡ err integrity_error)
      → IsReconciled job.job_id db
      → (purge_jobs cutoff retention (other ∷ rest) n db).0 ≡ err integrity_error
  unfolding purge_jobs
  purge_jobs-cons other rest n db ih r = elim (Bool-cases (is_kept cutoff retention other db)) [
    | inl k ↦ rw (k, purge_jobs) (ih n db r)
    | inr k ↦ elim (delete_job-cases other db) [
      | inl e ↦ rw (k, purge_jobs, e)
      | inr e ↦ elim (Bool-cases (str_eq other.job_id job.job_id)) [
        | inl same ↦ cc (e, same_job other db ((eq_iff other.job_id job.job_id).0 same) r)
        | inr ne ↦
            rw (k, purge_jobs, e, e)
              (ih (n + 1) (without_job other.job_id db)
                (without_job-IsReconciled job.job_id other.job_id db ne r))
      ]
    ]
  ]

  purge_jobs-blocked :
      (jobs : List Job) (n : ℕ) (db : Ledger)
      → Memᴰ job jobs
      → IsReconciled job.job_id db
      → (purge_jobs cutoff retention jobs n db).0 ≡ err integrity_error
  purge_jobs-blocked [] n db m r = elim m [ ]
  purge_jobs-blocked (other ∷ rest) n db (head e) r = rw (← e, purge_jobs-head rest n db r)
  purge_jobs-blocked (other ∷ rest) n db (tail m) r =
      purge_jobs-cons other rest n db (λ n' db'. purge_jobs-blocked rest n' db' m) r

rolled_back-err :
    (db : Ledger) (c : Code) (r : Result ℕ × Ledger) → r.0 ≡ err c → rolled_back db r ≡ (err c, db)
unfolding rolled_back
rolled_back-err db c (ok n, db') h = cc
rolled_back-err db c (err c', db') h = ground arith

-- If one job is older than the retention window, has no unfinished effect, and has an effect that
-- some reconcile attempt names, then the purge raises the database's integrity error and changes
-- nothing, so no other job is purged either.
pub purge_expired-blocked :
    (retention : ℕ) (now : Option Stamp) (clock : ℕ) (db : Ledger) (job : Job)
    → Memᴰ job db.jobs
    → older_than (aware job.created_at) (or_else now (aware clock)) retention ≡ true
    → IsReconciled job.job_id db
    → purge_expired (some retention) now clock db ≡ (err integrity_error, db)
unfolding purge_expired
purge_expired-blocked retention now clock db job m expired r =
    rolled_back-err db integrity_error _ (
      purge_jobs-blocked (or_else now (aware clock)) retention job expired _ 0 db
        (mem-order_by (λ a b. leb a.created_at b.created_at) job db.jobs m) r)
