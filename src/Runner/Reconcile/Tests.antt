-- ===== src/Runner/Reconcile/Tests.antt =====
-- A sweep of a small ledger.
use study_assistance_agent.Prelude.{
  find_row, update_rows, select, refl, String, ◌≡◌, ◌++◌, none, some, List, [], ◌∷◌,
}
use study_assistance_agent.Exec.{ok}
use study_assistance_agent.Runner.Effects.{
  assert_transition_allowed, is_pending, authorized, pending,
}
use study_assistance_agent.Runner.Ledger.{
  transition, begin_effect, find_key, create_job, find_job, move_to, EffectRow, EffectRecord,
  empty_ledger, find_effect, reconcile_attempts, pending_effects,
}
use study_assistance_agent.Runner.Ledger.Operations.{
  Op, create, begin, step, run_ops, run_ops-IsSound,
}
use study_assistance_agent.Runner.Reconcile.{
  is_escalated, Verdict, unknown, ReconcileReport, empty_report, sweep,
}
use study_assistance_agent.Runner.Reconcile.Sweeps.{row_after, attempts_of}
use study_assistance_agent.Runner.Reconcile.Progress.{IsNearer, sweep-IsNearer}
use study_assistance_agent.Runner.Reconcile.Counting.{IsBalanced, Counts}
use study_assistance_agent.Runner.Reconcile.Passes.{outcomes}
use study_assistance_agent.Runner.Reconcile.Settles.{swept_row, sweep-settles}

-- One pending effect.
abbrev waiting_ops : List Op
waiting_ops =
    create "j" "s" "l" 0
    ∷ begin "e" "j" "log_review" "d" "k" 1
    ∷ step "e" authorized none
    ∷ step "e" pending none
    ∷ []

-- A probe that cannot answer.
abbrev no_answer : EffectRecord → Verdict
no_answer e = unknown

sweep-settles_example :
    let r = sweep 3 no_answer (run_ops waiting_ops empty_ledger) in
    ((report : ReconcileReport) × (r.0 ≡ ok report)
      × IsBalanced report
      × Counts
          (outcomes 3 no_answer
            (run_ops waiting_ops empty_ledger)
            (pending_effects (run_ops waiting_ops empty_ledger)))
          empty_report
          report)
    × ((id : String) (row : EffectRow)
        → find_effect id (run_ops waiting_ops empty_ledger) ≡ some row
        → let s =
            swept_row 3 no_answer (reconcile_attempts id (run_ops waiting_ops empty_ledger)) row in
          (find_effect id r.1 ≡ some (row_after s row))
          × (reconcile_attempts id r.1
              ≡ reconcile_attempts id (run_ops waiting_ops empty_ledger) ++ attempts_of s))
sweep-settles_example =
    sweep-settles 3 no_answer (run_ops waiting_ops empty_ledger) (run_ops-IsSound waiting_ops)

abbrev waiting_row : EffectRow
waiting_row = record {
  effect = record {
    effect_id = "e";
    job_id = "j";
    tool_name = "log_review";
    argument_digest = "d";
    idempotency_key = "k";
    state = pending;
    result_digest = none;
  };
  created_at = 1;
}

sweep-IsNearer_example :
    IsNearer 3 "e" waiting_row
      (run_ops waiting_ops empty_ledger)
      (sweep 3 no_answer (run_ops waiting_ops empty_ledger)).1
unfolding run_ops find_effect find_row transition begin_effect find_key create_job find_job
    assert_transition_allowed update_rows move_to is_pending is_escalated reconcile_attempts select
sweep-IsNearer_example =
    sweep-IsNearer 3 no_answer (run_ops waiting_ops empty_ledger) "e" waiting_row
      (run_ops-IsSound waiting_ops) refl refl refl
