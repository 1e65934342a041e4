-- ===== src/Runner/Service/Tests.antt =====
-- A job whose world counts its steps, and whose runner is killed during the second.
use study_assistance_agent.Prelude.{
  ℕ, suc, ◌+◌, ◌<◌, ◌≡◌, refl, Bool, false, none, some, ltb, arith,
}
use study_assistance_agent.Exec.{Exec, ok, ◌>>=◌, job_killed}
use study_assistance_agent.Job.{
  Job, JobTerminal, stopped, Place, check, check_budget, check_first, step,
}
use study_assistance_agent.Runner.Service.{kill_guard, killable_job, run_job}
use study_assistance_agent.Runner.Service.Kill.{run_job-killed}

abbrev killed_at : ℕ → Bool
killed_at n = ltb 1 n

abbrev no_time : ℕ → ℕ
no_time n = 0

abbrev job : Job ℕ
job = killable_job killed_at no_time no_time none

abbrev counting : ℕ → Exec (Place ℕ) (Unit {0})
counting i p = (ok tt, record p { world = p.world + 1 })

abbrev IsCounted : ℕ → Place ℕ → Type 0
IsCounted i p = (p.world ≡ i) × (p.is_cancelled ≡ false)

IsCounted-step :
    (i : ℕ) (p : Place ℕ)
    → i < 2
    → IsCounted i p
    → ((step job (some counting) i p).0 ≡ ok tt)
      × IsCounted (suc i) (step job (some counting) i p).1
unfolding step check check_budget kill_guard ◌>>=◌
IsCounted-step i p l (count, on) = (ground arith, (ground arith, ground arith))

run_job-killed_example :
    ((run_job killed_at no_time no_time none (some counting) 5 0).0.terminal
      ≡ some JobTerminal.cancelled)
    × ((run_job killed_at no_time no_time none (some counting) 5 0).0.reason ≡ stopped job_killed)
    × ((run_job killed_at no_time no_time none (some counting) 5 0).0.done ≡ 2)
    × ((run_job killed_at no_time no_time none (some counting) 5 0).1
        ≡ (run_job killed_at no_time no_time none (some counting) 2 0).1)
unfolding check_first kill_guard
run_job-killed_example =
    run_job-killed killed_at no_time no_time none (some counting) IsCounted 2 3 0 IsCounted-step
      refl (refl, refl) (λ q h. (ground arith, h.1)) (omega arith)
