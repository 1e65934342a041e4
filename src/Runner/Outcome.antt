-- ===== src/Runner/Outcome.antt =====
-- The crash points and the outcomes of platform/app/runner_recovery.py.
use study_assistance_agent.Prelude.{ℕ, String, Bool, Option}
use study_assistance_agent.Exec.{Code}

pub data CrashPoint : Type 0 where
  before_propose after_propose after_authorize mid_apply after_apply_before_ledger : CrashPoint
  after_ledger_before_checkpoint mid_checkpoint mid_cancel disk_full provider_timeout : CrashPoint

pub data EffectTerminal : Type 0 where
  applied failed compensated cancelled poison needs_human_intervention : EffectTerminal

-- `refused` is the code of the error that `authorize` raised.
pub data Reason : Type 0 where
  idempotent_replay apply_failed applied attempts_exhausted : Reason
  cancelled_on_resume revoked_on_resume revalidation_refused crashed_before_apply : Reason
  reconciled_present reconciled_absent : Reason
  refused : Code → Reason

pub record EffectOutcome : Type 0 where
  pub terminal : EffectTerminal
  pub reason : Reason
  pub effect_id : Option String
  pub replayed : Bool
  pub applied_count : ℕ
