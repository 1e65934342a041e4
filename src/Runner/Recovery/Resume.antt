-- ===== src/Runner/Recovery/Resume.antt =====
-- `resume_job`, `cancel_job` and the poison threshold of `RunnerJobExecutor`
-- (platform/app/runner_recovery.py). `reconcile` is the caller's answer for an effect; `revalidate`,
-- where it is given, is the caller's answer when the loop comes to an effect.
use study_assistance_agent.Prelude.{
  ℕ, String, str_eq, Bool, false, not, Option, none, some, List, [], ◌∷◌, if◌then◌else◌, ltb,
  count_if, or_else,
}
use study_assistance_agent.Exec.{Code, Exec, ok, err, pure, ◌>>=◌, ◌>>◌}
use study_assistance_agent.Runner.Effects.{is_pending, is_failed}
use study_assistance_agent.Runner.Ledger.{
  Ledger, EffectRecord, get_job_state, set_job_state, unfinished_effects, all_effects, mark_failed,
  mark_applied,
}
use study_assistance_agent.Runner.Authority.{is_revoked}
use study_assistance_agent.Runner.Outcome.{CrashPoint, EffectTerminal, Reason, EffectOutcome}
use study_assistance_agent.Runner.Recovery.{outcome}

abbrev pub job_cancelled : String
job_cancelled = "cancelled"

abbrev pub is_cancelled : Option String → Bool
is_cancelled none = false
is_cancelled (some state) = str_eq state job_cancelled

-- The effect is marked failed, and this is its outcome.
unfoldable pub fail_effect : EffectTerminal → Reason → EffectRecord → Exec Ledger EffectOutcome
fail_effect terminal reason e = do
  mark_failed e.effect_id
  pure (outcome terminal reason e.effect_id)

unfoldable pub apply_effect : Reason → EffectRecord → Exec Ledger EffectOutcome
apply_effect reason e = do
  mark_applied e.effect_id (or_else e.result_digest "")
  pure (outcome EffectTerminal.applied reason e.effect_id)

-- The body of the loop over the job's unfinished effects, for a cancelled job.
unfoldable pub cancel_effect : EffectRecord → Exec Ledger EffectOutcome
cancel_effect = fail_effect EffectTerminal.cancelled Reason.cancelled_on_resume

-- The callers' answers of one `resume_job`.
pub record Answers : Type 0 where
  pub reconcile : EffectRecord → Bool
  pub revalidate : Option (EffectRecord → Bool)

abbrev pub is_invalid : Option (EffectRecord → Bool) → EffectRecord → Bool
is_invalid none e = false
is_invalid (some revalidate) e = not (revalidate e)

-- The body of the loop for any other job.
unfoldable pub resume_effect :
    List String → Answers → String → EffectRecord → Exec Ledger EffectOutcome
resume_effect revocations answers job_id e =
    if is_revoked job_id e.tool_name revocations
    then fail_effect EffectTerminal.failed Reason.revoked_on_resume e
    else if is_invalid answers.revalidate e
    then fail_effect EffectTerminal.failed Reason.revalidation_refused e
    else if not (is_pending e.state)
    then fail_effect EffectTerminal.failed Reason.crashed_before_apply e
    else if answers.reconcile e
    then apply_effect Reason.reconciled_present e
    else fail_effect EffectTerminal.failed Reason.reconciled_absent e

-- The loop over the unfinished effects, which passes over those of other jobs.
unfoldable pub resume_effects :
    (EffectRecord → Exec Ledger EffectOutcome)
    → String
    → List EffectRecord
    → Exec Ledger (List EffectOutcome)
resume_effects body job_id [] = pure []
resume_effects body job_id (e ∷ es) =
    let rest = resume_effects body job_id es in
    if str_eq e.job_id job_id
    then (do first ← body e; others ← rest; pure (first ∷ others))
    else rest

unfoldable pub resume_job : List String → Answers → String → Exec Ledger (List EffectOutcome)
resume_job revocations answers job_id db =
    resume_effects
      (if is_cancelled (get_job_state job_id db)
        then cancel_effect
        else resume_effect revocations answers job_id)
      job_id (unfinished_effects db) db

unfoldable pub cancel_job : (CrashPoint → Option Code) → String → Exec Ledger (Unit {0})
cancel_job crash_hook job_id db = elim (set_job_state job_id job_cancelled db).0 [
  | err code ↦ (err code, db)
  | ok _ ↦ elim (crash_hook CrashPoint.mid_cancel) [
    | none ↦ (ok tt, (set_job_state job_id job_cancelled db).1)
    | some code ↦ (err code, (set_job_state job_id job_cancelled db).1)
  ]
]

unfoldable pub failure_count : String → Ledger → ℕ
failure_count job_id db = count_if (λ e. is_failed e.state) (all_effects job_id db)

unfoldable pub poison_if_exhausted : ℕ → String → Ledger → Option EffectOutcome
unfolding failure_count
poison_if_exhausted max_attempts job_id db =
    if ltb (failure_count job_id db) max_attempts
    then none
    else some (record {
      terminal = EffectTerminal.poison;
      reason = Reason.attempts_exhausted;
      effect_id = none;
      replayed = false;
      applied_count = 0;
    })
