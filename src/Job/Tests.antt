-- ===== src/Job/Tests.antt =====
-- Jobs whose world is a clock.
use study_assistance_agent.Prelude.{
  ℕ, suc, ◌+◌, ◌<◌, ◌≡◌, refl, false, none, some, List, [], ◌∷◌, if◌then◌else◌, ltb, arith,
}
use study_assistance_agent.Exec.{Exec, ok, ◌>>=◌}
use study_assistance_agent.Job.{
  Job, JobTerminal, no_reason, stopped, Place, Envelope, cancel, check, check_budget, check_first,
  step, run_bounded,
}
use study_assistance_agent.Job.Budget.{
  whole, millionths, Settings, JobBudget, make_budget, IsTightened, make_budget-IsTightened,
}
use study_assistance_agent.Job.Gate.{ConcurrencyGate, GateCall}
use study_assistance_agent.Job.Release.{run_bounded-gate}
use study_assistance_agent.Job.Liveness.{run_bounded-completes, run_bounded-cancel}
use study_assistance_agent.Exec.{job_cancelled_by_caller}

abbrev tight : Settings
tight = record {
  wall_clock_seconds = millionths 1500000;
  cpu_seconds = whole 1;
  disk_bytes = whole 1024;
  concurrency = whole 1;
  retention_seconds = whole 60;
  ai_tokens = whole 0;
  ai_cost_usd = whole 0;
}

abbrev tight_budget : JobBudget
tight_budget = record {
  wall_clock = 1500000;
  cpu = 1000000;
  disk_bytes = 1024;
  concurrency = 1;
  retention_seconds = 60;
  ai_tokens = 0;
  ai_cost = 0;
}

make_budget-IsTightened_example : IsTightened tight_budget
unfolding make_budget
make_budget-IsTightened_example = make_budget-IsTightened tight tight_budget refl

abbrev one_slot : ConcurrencyGate
one_slot = record { limit = 1; active = 0 }

abbrev calls : List GateCall
calls = GateCall.acquired 1 ∷ GateCall.acquired 1 ∷ GateCall.released 5 ∷ GateCall.acquired 2 ∷ []

-- The world is the time; there is no guard.
abbrev job : Job ℕ
job = record { budget = tight_budget; guard = none; wall = λ t. t; cpu = λ t. 0; workspace = none }

abbrev place : Place ℕ
place = record { world = 0; is_cancelled = false; gate = some one_slot }

abbrev envelope : Envelope
envelope = record { done = 0; total = 0; terminal = none; reason = no_reason }

-- Each step takes a second.
abbrev slow : ℕ → Exec (Place ℕ) (Unit {0})
slow i p = (ok tt, record p { world = p.world + 1000000 })

-- Each step takes no time.
abbrev quick : ℕ → Exec (Place ℕ) (Unit {0})
quick i p = (ok tt, p)

-- The second step cancels the job.
abbrev cancelling : ℕ → Exec (Place ℕ) (Unit {0})
cancelling i p = (ok tt, if ltb i 1 then p else cancel p)

-- The third step is not begun.
run_slow :
    (run_bounded job 1 (some slow) 3 envelope place).0.terminal ≡ some JobTerminal.deadline_exceeded
unfolding run_bounded
run_slow = refl

run_bounded-gate_example : (run_bounded job 1 (some slow) 3 envelope place).1.gate ≡ some one_slot
run_bounded-gate_example =
    run_bounded-gate job 1 (some slow) (λ p. refl) (λ i p. refl) 3 envelope place

abbrev IsIdle : ℕ → Place ℕ → Type 0
IsIdle i p = (p.world ≡ 0) × (p.is_cancelled ≡ false)

IsIdle-step :
    (i : ℕ) (p : Place ℕ)
    → i < 5
    → IsIdle i p
    → ((step job (some quick) i p).0 ≡ ok tt) × IsIdle (suc i) (step job (some quick) i p).1
unfolding step check check_budget ◌>>=◌
IsIdle-step i p l (time, on) = (ground arith, (ground arith, ground arith))

run_bounded-completes_example :
    ((run_bounded job 1 (some quick) 5 envelope place).0.terminal ≡ some JobTerminal.completed)
    × ((run_bounded job 1 (some quick) 5 envelope place).0.done ≡ 0 + 5)
unfolding check_first
run_bounded-completes_example =
    run_bounded-completes job (some quick) IsIdle 5 IsIdle-step 1 envelope place refl (refl, refl)

abbrev IsCancelling : ℕ → Place ℕ → Type 0
IsCancelling i p = (p.world ≡ 0) × (p.is_cancelled ≡ ltb 1 i)

cancelling-step :
    (i : ℕ) (p : Place ℕ)
    → i < 2
    → IsCancelling i p
    → ((step job (some cancelling) i p).0 ≡ ok tt)
      × IsCancelling (suc i) (step job (some cancelling) i p).1
unfolding step check check_budget ◌>>=◌
cancelling-step i p l (time, on) = (ground arith, (ground arith, ground arith))

run_bounded-cancel_example :
    ((run_bounded job 1 (some cancelling) 5 envelope place).0.terminal ≡ some JobTerminal.cancelled)
    × ((run_bounded job 1 (some cancelling) 5 envelope place).0.reason
        ≡ stopped job_cancelled_by_caller)
    × ((run_bounded job 1 (some cancelling) 5 envelope place).0.done ≡ 0 + 2)
    × ((run_bounded job 1 (some cancelling) 5 envelope place).1
        ≡ (run_bounded job 1 (some cancelling) 2 envelope place).1)
unfolding check_first
run_bounded-cancel_example =
    run_bounded-cancel job (some cancelling) IsCancelling 2 cancelling-step 1 3 envelope place refl
      (refl, refl) (λ q h. h.1) (omega arith)
