-- ===== src/Runner/Ledger/Tests.antt =====
-- The ledger's methods on small tables.
use mathlib.Core.List.Memᴰ.{head}
use study_assistance_agent.Prelude.{
  find_row, select, update_rows, ◌≡◌, refl, none, some, List, [], ◌∷◌, length, ◌≤◌,
}
use study_assistance_agent.Exec.{err, integrity_error, idempotency_conflict}
use study_assistance_agent.Runner.Effects.{
  assert_transition_allowed, is_terminal, EffectState, proposed, authorized, pending, applied,
  failed,
}
use study_assistance_agent.Runner.Ledger.{
  find_key, record_reconcile_attempt, move_to, Ledger, EffectRow, EffectRecord, Job, empty_ledger,
  find_effect, find_job, events, begin_effect, transition, create_job,
}
use study_assistance_agent.Runner.Ledger.Retention.{
  older_than, has_unfinished, is_in_job, aware, purge_expired,
}
use study_assistance_agent.Runner.Ledger.Trail.{IsSound}
use study_assistance_agent.Runner.Ledger.Purging.{purge_expired-keeps_unfinished}
use study_assistance_agent.Runner.Ledger.Blocking.{purge_expired-blocked}
use study_assistance_agent.Runner.Ledger.Operations.{
  Op, create, begin, step, attempt, run_ops, run_ops-IsSound, length-events,
}
use study_assistance_agent.Runner.Ledger.Replays.{
  IsLater, begin_effect-replays, run_ops-keeps_effect,
}

abbrev job : Job
job = record { job_id = "j"; scope_id = "s"; learner_id = "l"; state = "created"; created_at = 0 }

abbrev row_in : EffectState → EffectRow
row_in state = record {
  effect = record {
    effect_id = "e";
    job_id = "j";
    tool_name = "log_review";
    argument_digest = "d";
    idempotency_key = "k";
    state = state;
    result_digest = none;
  };
  created_at = 1;
}

-- A job with one effect that has been proposed.
abbrev opening : List Op
opening = create "j" "s" "l" 0 ∷ begin "e" "j" "log_review" "d" "k" 1 ∷ []

abbrev opened : Ledger
opened = record empty_ledger {
  jobs = job ∷ [];
  effects = row_in proposed ∷ [];
  events = record { effect_id = "e"; from_state = none; to_state = proposed } ∷ [];
}

pub opened-IsSound : IsSound opened
unfolding run_ops begin_effect find_key find_row create_job find_job find_effect
opened-IsSound = run_ops-IsSound opening

-- The effect goes to `pending`, fails, and is attempted.
abbrev failing : List Op
failing =
    step "e" authorized none
    ∷ step "e" pending none
    ∷ step "e" failed none
    ∷ attempt "e" "failed"
    ∷ []

failing_run :
    events "e" (run_ops failing opened)
    ≡ (none, proposed)
      ∷ (some proposed, authorized)
      ∷ (some authorized, pending)
      ∷ (some pending, failed)
      ∷ []
unfolding run_ops events select record_reconcile_attempt find_effect find_row transition
    assert_transition_allowed update_rows move_to
failing_run = refl

run_ops-IsSound_example : IsSound (run_ops failing empty_ledger)
run_ops-IsSound_example = run_ops-IsSound failing

length-events_example : length (events "e" (run_ops opening empty_ledger)) ≤ 5
length-events_example = length-events opening "e"

begin_effect-replays_example :
    let later = run_ops failing (begin_effect "e" "j" "log_review" "d" "k" 2 opened).1 in
    (e' : EffectRecord) × (e'.effect_id ≡ "e")
    × (begin_effect "f" "j" "log_review" "other" "k" 9 later ≡ (err idempotency_conflict, later))
unfolding begin_effect find_key find_row
begin_effect-replays_example =
    begin_effect-replays "e" "f" "j" "j" "log_review" "log_review" "d" "other" "k" 2 9 opened
      (row_in proposed).effect failing opened-IsSound refl refl

-- The effect of `failing`, at its end.
abbrev closed : Ledger
closed = record opened {
  effects = row_in failed ∷ [];
  events =
      record { effect_id = "e"; from_state = none; to_state = proposed }
      ∷ record { effect_id = "e"; from_state = some proposed; to_state = authorized }
      ∷ record { effect_id = "e"; from_state = some authorized; to_state = pending }
      ∷ record { effect_id = "e"; from_state = some pending; to_state = failed }
      ∷ [];
  attempts = record { effect_id = "e"; outcome = "failed" } ∷ [];
}

closed-IsSound : IsSound closed
unfolding run_ops record_reconcile_attempt find_effect find_row transition begin_effect find_key
    create_job find_job assert_transition_allowed update_rows move_to
closed-IsSound =
    run_ops-IsSound (create "j" "s" "l" 0 ∷ begin "e" "j" "log_review" "d" "k" 1 ∷ failing)

run_ops-keeps_effect_example :
    (y : EffectRow) × (find_effect "e" (run_ops (step "e" applied none ∷ []) closed) ≡ some y)
    × IsLater (row_in failed) y
unfolding find_effect find_row
run_ops-keeps_effect_example =
    run_ops-keeps_effect (step "e" applied none ∷ []) closed "e" (row_in failed) refl closed-IsSound
      refl

purge_expired-keeps_unfinished_example :
    let after = (purge_expired (some 0) (some (aware 10)) 0 opened).1 in
    (find_effect "e" after ≡ some (row_in proposed))
    × (find_job "j" after ≡ some job)
    × (events "e" after ≡ events "e" opened)
unfolding is_terminal find_effect find_row find_job
purge_expired-keeps_unfinished_example =
    purge_expired-keeps_unfinished (some 0) (some (aware 10)) 0 opened "e" (row_in proposed) job
      opened-IsSound refl refl refl

purge_expired-blocked_example :
    purge_expired (some 0) (some (aware 10)) 0 closed ≡ (err integrity_error, closed)
unfolding older_than has_unfinished is_terminal is_in_job
purge_expired-blocked_example =
    purge_expired-blocked 0 (some (aware 10)) 0 closed job (head refl) refl
      (record { finished = refl; attempted = refl })
