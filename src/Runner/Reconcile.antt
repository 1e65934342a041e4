-- ===== src/Runner/Reconcile.antt =====
-- `Reconciler` of platform/app/effect_reconcile.py: the sweep over the pending effects, the
-- compensation of an effect, and the queue of those that wait for a human. `probe` is the domain's
-- answer for an effect.
pub mod Sweeps
pub mod Counting
pub mod Passes
pub mod Settles
pub mod Progress
mod Tests
use study_assistance_agent.Prelude.{
  ℕ, ◌+◌, String, str_eq, Bool, true, false, Option, none, some, List, [], ◌∷◌, if◌then◌else◌, leb,
  count_if, or_else, map, select,
}
use study_assistance_agent.Exec.{Exec, ok, err, pure, raise, ◌>>=◌, ◌>>◌, value_error}
use study_assistance_agent.Runner.Effects.{is_failed}
use study_assistance_agent.Runner.Ledger.{
  Ledger, EffectRecord, get_effect, pending_effects, mark_failed, mark_applied, mark_compensated,
  record_reconcile_attempt, reconcile_attempts,
}

pub data Verdict : Type 0 where
  present absent unknown : Verdict

-- The outcomes of one effect in a sweep; `skipped` is the `continue` of the loop.
pub data Swept : Type 0 where
  skipped applied failed deferred escalated : Swept

abbrev pub outcome_deferred : String
outcome_deferred = "deferred"

abbrev pub outcome_escalated : String
outcome_escalated = "escalated"

pub record ReconcileReport : Type 0 where
  pub examined : ℕ
  pub applied : ℕ
  pub failed : ℕ
  pub deferred : ℕ
  pub escalated : ℕ

abbrev pub empty_report : ReconcileReport
empty_report = record { examined = 0; applied = 0; failed = 0; deferred = 0; escalated = 0 }

-- `attempts[-1] == OUTCOME_ESCALATED`, and false for no attempts.
abbrev pub ends_escalated : List String → Bool
ends_escalated [] = false
ends_escalated (a ∷ []) = str_eq a outcome_escalated
ends_escalated (a ∷ b ∷ rest) = ends_escalated (b ∷ rest)

unfoldable pub is_escalated : String → Ledger → Bool
is_escalated id db = ends_escalated (reconcile_attempts id db)

unfoldable pub deferrals : String → Ledger → ℕ
deferrals id db = count_if (λ a. str_eq a outcome_deferred) (reconcile_attempts id db)

-- The attempt is recorded, and counted.
unfoldable pub attempted : Swept → String → String → Exec Ledger Swept
attempted swept outcome id = do record_reconcile_attempt id outcome; pure swept

-- The body of the loop.
unfoldable pub sweep_effect : ℕ → (EffectRecord → Verdict) → EffectRecord → Exec Ledger Swept
sweep_effect max_deferrals probe e db =
    if is_escalated e.effect_id db then (ok Swept.skipped, db) else elim (probe e) [
      | present ↦
          (do
            mark_applied e.effect_id (or_else e.result_digest "")
            attempted Swept.applied "applied" e.effect_id)
            db
      | absent ↦ (do mark_failed e.effect_id; attempted Swept.failed "failed" e.effect_id) db
      | unknown ↦
          if leb max_deferrals (deferrals e.effect_id db + 1)
          then attempted Swept.escalated outcome_escalated e.effect_id db
          else attempted Swept.deferred outcome_deferred e.effect_id db
    ]

-- The counters of the loop.
unfoldable pub count_swept : Swept → ReconcileReport → ReconcileReport
count_swept Swept.skipped r = r
count_swept Swept.applied r = record r { examined = r.examined + 1; applied = r.applied + 1 }
count_swept Swept.failed r = record r { examined = r.examined + 1; failed = r.failed + 1 }
count_swept Swept.deferred r = record r { examined = r.examined + 1; deferred = r.deferred + 1 }
count_swept Swept.escalated r = record r { examined = r.examined + 1; escalated = r.escalated + 1 }

unfoldable pub sweep_effects :
    ℕ → (EffectRecord → Verdict) → List EffectRecord → ReconcileReport → Exec Ledger ReconcileReport
sweep_effects max_deferrals probe [] report = pure report
sweep_effects max_deferrals probe (e ∷ es) report = do
  swept ← sweep_effect max_deferrals probe e
  sweep_effects max_deferrals probe es (count_swept swept report)

unfoldable pub sweep : ℕ → (EffectRecord → Verdict) → Exec Ledger ReconcileReport
sweep max_deferrals probe db =
    sweep_effects max_deferrals probe (pending_effects db) empty_report db

unfoldable pub compensate : String → Exec Ledger EffectRecord
compensate id db = elim (get_effect id db) [
  | none ↦ (err value_error, db)
  | some e ↦ if is_failed e.state then (ok e, db) else mark_compensated id db
]

pub record Intervention : Type 0 where
  pub effect_id : String
  pub job_id : String
  pub tool_name : String
  pub reason : String

unfoldable pub open_interventions : Ledger → List Intervention
unfolding is_escalated
open_interventions db =
    map
      (λ e. record {
        effect_id = e.effect_id;
        job_id = e.job_id;
        tool_name = e.tool_name;
        reason = outcome_escalated;
      })
      (select (λ e. is_escalated e.effect_id db) (pending_effects db))

unfoldable pub resolve_intervention : String → Verdict → Exec Ledger EffectRecord
resolve_intervention id unknown = raise value_error
resolve_intervention id present = do
  e ← mark_applied id ""
  record_reconcile_attempt id "resolved-present"
  pure e
resolve_intervention id absent = do
  e ← mark_failed id
  record_reconcile_attempt id "resolved-absent"
  pure e
