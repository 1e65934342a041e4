-- ===== src/Runner/Recovery/Tests.antt =====
-- The executor on a small ledger, with a domain that counts its writes.
use study_assistance_agent.Prelude.{
  ℕ, suc, String, ◌≡◌, refl, true, ◌⊎◌, none, some, Option, List, [], ◌∷◌,
}
use study_assistance_agent.Exec.{Code, ok, injected_crash}
use study_assistance_agent.Runner.Effects.{EffectState}
use study_assistance_agent.Runner.Ledger.{create_job, find_job, find_key, empty_ledger}
use study_assistance_agent.Runner.Ledger.Trail.{IsSound}
use study_assistance_agent.Runner.Ledger.Operations.{create, step, run_ops-IsSound, run_ops}
use study_assistance_agent.Runner.Authority.{
  Digests, Registry, Capability, runner_write_tool_allowlist, idempotency_key,
}
use study_assistance_agent.Runner.Outcome.{CrashPoint}
use study_assistance_agent.Runner.Effects.{is_terminal}
use study_assistance_agent.Runner.Ledger.{Ledger, EffectRow, find_effect}
use study_assistance_agent.Runner.Ledger.Operations.{Op, begin}
use study_assistance_agent.Prelude.{str_eq, ◌&&◌, not, false}
use study_assistance_agent.Runner.Outcome.{EffectOutcome}
use study_assistance_agent.Runner.Recovery.Resume.{Answers, resume_job}
use study_assistance_agent.Runner.Recovery.Settling.{resume_job-settles}
use study_assistance_agent.Runner.Recovery.{Setup, Call, World, execute_effect}
use study_assistance_agent.Runner.Recovery.Still.{IsUntouched}
use mathlib.Core.List.{Memᴰ}
use study_assistance_agent.Runner.Recovery.Once.{IsWrittenOnce}
use study_assistance_agent.Runner.Recovery.Windows.{IsStarted, execute_effect-window}
use study_assistance_agent.Runner.Recovery.Repeats.{
  Act, execute, other, run_acts, run_acts-at_most_once,
}

abbrev digests : Digests String
digests = record { dumps = λ x. some x; sha256 = λ x. x }

abbrev registry : Registry
registry = record {
  allowlist = runner_write_tool_allowlist;
  tools = record { name = "log_review"; capability = Capability.write; idempotent = true } ∷ [];
  revoked = [];
}

abbrev setup : Setup String
setup = record { digests = digests; registry = registry; revocations = []; max_attempts = 3 }

abbrev call_with : String → (CrashPoint → Option Code) → Call String ℕ
call_with id hook = record {
  job_id = "j";
  effect_id = id;
  tool_name = "log_review";
  arguments = "a";
  permissions = "write" ∷ [];
  confirmation = some (record { job_id = "j"; tool_name = "log_review"; argument_digest = "a" });
  scope_id = "s";
  apply = λ n. (some "r", suc n);
  crash_hook = hook;
  now = 1;
}

abbrev no_crash : CrashPoint → Option Code
no_crash p = none

-- The process dies between the domain write and the ledger's record of it.
abbrev crash_after_write : CrashPoint → Option Code
crash_after_write CrashPoint.after_apply_before_ledger = some injected_crash
crash_after_write _ = none

abbrev start : World ℕ
start = record {
  ledger = record empty_ledger {
    jobs =
        record { job_id = "j"; scope_id = "s"; learner_id = "l"; state = "created"; created_at = 0 }
        ∷ [];
  };
  domain = 0;
  applied_count = 0;
}

start-IsSound : IsSound start.ledger
unfolding run_ops create_job find_job
start-IsSound = run_ops-IsSound (create "j" "s" "l" 0 ∷ [])

-- A crash after the write, then two more calls under the same key.
abbrev acts : List (Act String ℕ)
acts =
    execute (call_with "e" crash_after_write)
    ∷ execute (call_with "f" no_crash)
    ∷ other (step "e" EffectState.failed none)
    ∷ execute (call_with "g" no_crash)
    ∷ []

run_acts-at_most_once_example :
    IsUntouched start (run_acts setup acts start)
    ⊎ ((find_key "j|log_review|a|s" start.ledger ≡ none)
        × ((call : Call String ℕ) × Memᴰ (execute call) acts
            × IsWrittenOnce call start (run_acts setup acts start)))
unfolding idempotency_key
run_acts-at_most_once_example =
    run_acts-at_most_once setup "j|log_review|a|s" acts start (refl, (refl, (refl, (refl, tt))))
      start-IsSound

execute_effect-window_example :
    let after = (execute_effect setup (call_with "e" crash_after_write) start).1 in
    IsUntouched start after ⊎ IsStarted "e" after
execute_effect-window_example =
    execute_effect-window setup (call_with "e" crash_after_write) start start-IsSound

-- An effect that was pending when the process died; the domain says that it is there.
abbrev crashed_ops : List Op
crashed_ops =
    create "j" "s" "l" 0
    ∷ begin "e" "j" "log_review" "d" "k" 1
    ∷ step "e" EffectState.authorized none
    ∷ step "e" EffectState.pending none
    ∷ []

abbrev crashed : Ledger
crashed = run_ops crashed_ops empty_ledger

abbrev answers : Answers
answers = record { reconcile = λ e. true; revalidate = none }

resume_job-settles_example :
    let r = resume_job [] answers "j" crashed in
    ((outcomes : List EffectOutcome) × (r.0 ≡ ok outcomes))
    × ((id : String) (row : EffectRow)
        → find_effect id r.1 ≡ some row
        → str_eq row.effect.job_id "j" ≡ true
        → is_terminal row.effect.state ≡ true)
    × ((id : String) (row : EffectRow)
        → find_effect id crashed ≡ some row
        → (str_eq row.effect.job_id "j" && not (is_terminal row.effect.state)) ≡ false
        → find_effect id r.1 ≡ some row)
resume_job-settles_example = resume_job-settles [] answers "j" crashed (run_ops-IsSound crashed_ops)
