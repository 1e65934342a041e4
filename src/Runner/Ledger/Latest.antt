-- ===== src/Runner/Ledger/Latest.antt =====
-- The checkpoint sequence of a job: the next number is free, and the newest checkpoint is read back.
use study_assistance_agent.Prelude.{
  ℕ, ◌<◌, str_eq, eq_iff, ◌≡◌, refl, Bool, true, false, some, List, [], ◌∷◌, ◌++◌, arith, leb, ◌==◌,
  any, is_some, select, select-append, order_by, insert_row,
}
use study_assistance_agent.Exec.{ok}
use study_assistance_agent.Runner.Ledger.{Ledger, Checkpoint, find_job}
use study_assistance_agent.Runner.Ledger.Checkpoints.{
  job_checkpoints, max_seq, next_checkpoint_seq, record_checkpoint, latest_checkpoint,
}

-- `seq DESC`
abbrev newest_first : Checkpoint → Checkpoint → Bool
newest_first a b = leb b.seq a.seq

no_seq_past_max : (s : ℕ) (cs : List Checkpoint) → max_seq cs < s → any (λ d. d.seq == s) cs ≡ false
unfolding max_seq
no_seq_past_max s [] h = refl
no_seq_past_max s (c ∷ cs) h = ground (arith, no_seq_past_max s cs)

order_by-newest :
    (c : Checkpoint) (cs : List Checkpoint)
    → max_seq cs < c.seq
    → order_by newest_first (cs ++ c ∷ []) ≡ c ∷ order_by newest_first cs
unfolding order_by insert_row max_seq
order_by-newest c [] h = refl
order_by-newest c (d ∷ ds) h = rw (order_by-newest c ds (omega arith)) (ground arith)

module _ (c : Checkpoint) (db : Ledger) (next : c.seq ≡ next_checkpoint_seq c.job_id db) where
  past_max : max_seq (job_checkpoints c.job_id db) < c.seq
  unfolding next_checkpoint_seq
  past_max = omega arith

  record_checkpoint-next :
      is_some (find_job c.job_id db) ≡ true
      → any (λ d. str_eq d.checkpoint_id c.checkpoint_id) db.checkpoints ≡ false
      → record_checkpoint c db ≡ (ok tt, record db { checkpoints = db.checkpoints ++ c ∷ [] })
  unfolding record_checkpoint
  record_checkpoint-next known fresh =
      rw (fresh, no_seq_past_max c.seq (job_checkpoints c.job_id db) past_max, known)

  latest_checkpoint-next :
      latest_checkpoint c.job_id (record db { checkpoints = db.checkpoints ++ c ∷ [] }) ≡ some c
  unfolding latest_checkpoint select
  latest_checkpoint-next =
      rw
        (
          select-append (λ (d : Checkpoint). str_eq d.job_id c.job_id) db.checkpoints (c ∷ []),
          (eq_iff c.job_id c.job_id).1 refl,
        )
        (rw (order_by-newest c (job_checkpoints c.job_id db) past_max) refl)

-- For a job that exists, a checkpoint with a new id and the job's next sequence number is recorded,
-- and is then the job's latest.
pub latest_checkpoint-record :
    (c : Checkpoint) (db : Ledger)
    → c.seq ≡ next_checkpoint_seq c.job_id db
    → is_some (find_job c.job_id db) ≡ true
    → any (λ d. str_eq d.checkpoint_id c.checkpoint_id) db.checkpoints ≡ false
    → ((record_checkpoint c db).0 ≡ ok tt)
      × (latest_checkpoint c.job_id (record_checkpoint c db).1 ≡ some c)
latest_checkpoint-record c db next known fresh =
    rw (record_checkpoint-next c db next known fresh) (refl, latest_checkpoint-next c db next)
