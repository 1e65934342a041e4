-- ===== src/Runner/Ledger/Purging.antt =====
-- `purge_expired` keeps the histories, and never drops a job that has unfinished effects.
use study_assistance_agent.Prelude.{
  ℕ, ◌+◌, String, str_eq, eq_iff, ◌≡◌, refl, ap, ap, false, not, ◌&&◌, ◌⊎◌, inl, inr, Option, none,
  some, List, [], ◌∷◌, arith, if◌then◌else◌, Bool-cases, Option-cases, delete_rows,
}
use study_assistance_agent.Prelude.Tables.Keys.{IsKeyed, select-IsKeyed, find_row-select}
use study_assistance_agent.Prelude.Tables.Deletes.{
  select-delete_rows, has_kind-some, any-find_row, kept-find_row, find_row-kept,
  find_row-delete_key,
}
use study_assistance_agent.Exec.{Result, ok, err, integrity_error}
use study_assistance_agent.Runner.Effects.{is_terminal}
use study_assistance_agent.Runner.Ledger.{
  Ledger, EffectRow, Event, Job, find_effect, find_job, events,
}
use study_assistance_agent.Runner.Ledger.Reads.{id_of}
use study_assistance_agent.Runner.Ledger.Trail.{History, IsTrail, IsSound}
use study_assistance_agent.Runner.Ledger.Retention.{
  Stamp, is_of_job, is_in_job, has_unfinished, is_kept, delete_job, purge_jobs, purge_expired,
  rolled_back,
}

-- The tables that `delete_job` leaves, where it does not raise.
abbrev pub without_job : String → Ledger → Ledger
without_job job_id db = record {
  jobs = delete_rows (λ j. str_eq j.job_id job_id) db.jobs;
  effects = delete_rows (is_of_job job_id) db.effects;
  events = delete_rows (λ e. is_in_job job_id db e.effect_id) db.events;
  checkpoints = delete_rows (λ c. str_eq c.job_id job_id) db.checkpoints;
  attempts = db.attempts;
}

module _ (job_id : String) (db : Ledger) where
  is_in_job-some :
      (id : String) (row : EffectRow)
      → IsKeyed id_of db.effects
      → find_effect id db ≡ some row
      → is_in_job job_id db id ≡ is_of_job job_id row
  unfolding is_in_job find_effect
  is_in_job-some id row u h = has_kind-some id_of (is_of_job job_id) id db.effects row u h

  pub events-without_job :
      (id : String)
      → events id (without_job job_id db) ≡ (if is_in_job job_id db id then [] else events id db)
  unfolding events
  events-without_job id =
      rw
        (select-delete_rows (λ (e : Event). str_eq e.effect_id id)
          (λ (e : Event). is_in_job job_id db e.effect_id) (is_in_job job_id db id) db.events
          (λ e h. ap (is_in_job job_id db) ((eq_iff e.effect_id id).0 h)))
        (ground arith)

  pub find_effect-without_job :
      (id : String) (row : EffectRow)
      → IsKeyed id_of db.effects
      → find_effect id (without_job job_id db) ≡ some row
      → find_effect id db ≡ some row
  unfolding find_effect delete_rows
  find_effect-without_job id row = find_row-select id_of id _ db.effects row

  -- What is left is of another job, and all of that is left.
  other_job :
      (id : String) (row : EffectRow)
      → find_effect id (without_job job_id db) ≡ some row
      → is_of_job job_id row ≡ false
  unfolding find_effect delete_rows
  other_job id row h =
      ground (arith, kept-find_row id_of (λ x. not (is_of_job job_id x)) id db.effects row h)

  pub find_effect-other_job :
      (id : String) (row : EffectRow)
      → IsKeyed id_of db.effects
      → find_effect id db ≡ some row
      → is_of_job job_id row ≡ false
      → find_effect id (without_job job_id db) ≡ some row
  unfolding find_effect delete_rows
  find_effect-other_job id row u h e =
      find_row-kept id_of (λ x. not (is_of_job job_id x)) id db.effects row u h (rw e)

  without_job-traced :
      IsSound db
      → (id : String) (row : EffectRow) → find_effect id (without_job job_id db) ≡ some row
      → IsTrail (events id (without_job job_id db)) row.effect.state
  without_job-traced sound id row h =
      let before = find_effect-without_job id row sound.keyed h in
      ground (
        arith,
        events-without_job id,
        is_in_job-some id row sound.keyed before,
        other_job id row h,
        sound.traced id row before,
      )

  without_job-untraced :
      IsSound db
      → (id : String) → find_effect id (without_job job_id db) ≡ none
      → events id (without_job job_id db) ≡ []
  without_job-untraced sound id h = elim (Option-cases (find_effect id db)) [
    | inl e ↦ ground (arith, events-without_job id, sound.untraced id e)
    | inr (row, e) ↦ ground (
      arith,
      events-without_job id,
      is_in_job-some id row sound.keyed e,
      find_effect-other_job id row sound.keyed e,
    )
  ]

  pub without_job-IsSound : IsSound db → IsSound (without_job job_id db)
  without_job-IsSound sound = record {
    keyed =
        unfold delete_rows in
        select-IsKeyed id_of (λ x. not (is_of_job job_id x)) db.effects sound.keyed;
    traced = without_job-traced sound;
    untraced = without_job-untraced sound;
  }

pub delete_job-cases :
    (job : Job) (db : Ledger)
    → (delete_job job db ≡ (err integrity_error, db))
      ⊎ (delete_job job db ≡ (ok tt, without_job job.job_id db))
unfolding delete_job
delete_job-cases job db = ground arith

is_kept-has_unfinished :
    (cutoff : Stamp) (retention : ℕ) (job : Job) (db : Ledger)
    → is_kept cutoff retention job db ≡ false
    → has_unfinished job.job_id db ≡ false
unfolding is_kept
is_kept-has_unfinished cutoff retention job db h = ground arith

-- An invariant of the loop: what every deletion of a job without unfinished effects keeps.
module _ {ℓ} (P : Ledger → Type ℓ)
    (keep : (job_id : String) (db : Ledger)
      → has_unfinished job_id db ≡ false
      → P db
      → P (without_job job_id db)) where
  purge_jobs_inv :
      (cutoff : Stamp) (retention : ℕ) (jobs : List Job) (n : ℕ) (db : Ledger)
      → P db
      → P (purge_jobs cutoff retention jobs n db).1
  unfolding purge_jobs
  purge_jobs_inv cutoff retention [] n db h = h
  purge_jobs_inv cutoff retention (job ∷ rest) n db h =
      elim (Bool-cases (is_kept cutoff retention job db)) [
        | inl k ↦ rw (k, purge_jobs) (purge_jobs_inv cutoff retention rest n db h)
        | inr k ↦ elim (delete_job-cases job db) [
          | inl e ↦ rw (k, purge_jobs, e) h
          | inr e ↦
              rw (k, purge_jobs, e, e)
                (purge_jobs_inv cutoff retention rest (n + 1) (without_job job.job_id db)
                  (keep job.job_id db (is_kept-has_unfinished cutoff retention job db k) h))
        ]
      ]

  rolled_back_inv : (db : Ledger) (r : Result ℕ × Ledger) → P db → P r.1 → P (rolled_back db r).1
  unfolding rolled_back
  rolled_back_inv db (ok n, db') h h' = h'
  rolled_back_inv db (err c, db') h h' = h

  pub purge_expired_inv :
      (retention : Option ℕ) (now : Option Stamp) (clock : ℕ) (db : Ledger)
      → P db
      → P (purge_expired retention now clock db).1
  unfolding purge_expired
  purge_expired_inv none now clock db h = h
  purge_expired_inv (some retention) now clock db h =
      rolled_back_inv db _ h (purge_jobs_inv _ retention _ 0 db h)

pub purge_expired-IsSound :
    (retention : Option ℕ) (now : Option Stamp) (clock : ℕ) (db : Ledger)
    → IsSound db
    → IsSound (purge_expired retention now clock db).1
purge_expired-IsSound = purge_expired_inv IsSound (λ job_id db n. without_job-IsSound job_id db)

-- An effect that a resume needs: its row, its history, and the row of its job.
pub record IsResumable (id : String) (row : EffectRow) (job : Job) (history : History) (db : Ledger)
    : Type 0 where
  pub keyed : IsKeyed id_of db.effects
  pub known : find_effect id db ≡ some row
  pub job_known : find_job row.effect.job_id db ≡ some job
  pub history_kept : events id db ≡ history

-- An unfinished effect is not of a job without unfinished effects.
other_of_finished :
    (job_id : String) (db : Ledger) (id : String) (row : EffectRow)
    → is_terminal row.effect.state ≡ false
    → has_unfinished job_id db ≡ false
    → find_effect id db ≡ some row
    → is_of_job job_id row ≡ false
unfolding has_unfinished find_effect
other_of_finished job_id db id row unfinished n e = ground (
  arith,
  any-find_row id_of (λ (x : EffectRow). is_of_job job_id x && not (is_terminal x.effect.state)) id
      db.effects row e n,
)

without_job-IsResumable :
    (id : String) (row : EffectRow) (job : Job) (history : History)
    → is_terminal row.effect.state ≡ false
    → (job_id : String) (db : Ledger) → has_unfinished job_id db ≡ false
    → IsResumable id row job history db
    → IsResumable id row job history (without_job job_id db)
without_job-IsResumable id row job history unfinished job_id db n r =
    let other : is_of_job job_id row ≡ false =
      other_of_finished job_id db id row unfinished n r.known in
    record {
      keyed =
          unfold delete_rows in
          select-IsKeyed id_of (λ x. not (is_of_job job_id x)) db.effects r.keyed;
      known = find_effect-other_job job_id db id row r.keyed r.known other;
      job_known =
          unfold find_job in
          ground (
            arith,
            find_row-delete_key (λ (j : Job). j.job_id) row.effect.job_id job_id db.jobs,
            r.job_known,
            other,
            eq_iff job_id row.effect.job_id,
            eq_iff row.effect.job_id job_id,
          );
      history_kept = ground (
        arith,
        events-without_job job_id db id,
        is_in_job-some job_id db id row r.keyed r.known,
        other,
        r.history_kept,
      );
    }

-- On a sound ledger, a purge never takes an unfinished effect whose job has a row: the effect's row,
-- its history and its job's row are the same after it, whatever the retention, the time, and the way
-- the purge ends.
pub purge_expired-keeps_unfinished :
    (retention : Option ℕ) (now : Option Stamp) (clock : ℕ) (db : Ledger) (id : String)
    (row : EffectRow) (job : Job)
    → IsSound db
    → is_terminal row.effect.state ≡ false
    → find_effect id db ≡ some row
    → find_job row.effect.job_id db ≡ some job
    → let after = (purge_expired retention now clock db).1 in
      (find_effect id after ≡ some row)
      × (find_job row.effect.job_id after ≡ some job)
      × (events id after ≡ events id db)
purge_expired-keeps_unfinished retention now clock db id row job sound unfinished e j =
    let kept =
      purge_expired_inv (IsResumable id row job (events id db))
        (without_job-IsResumable id row job (events id db) unfinished) retention now clock db
        (record { keyed = sound.keyed; known = e; job_known = j; history_kept = refl }) in
    (kept.known, kept.job_known, kept.history_kept)
