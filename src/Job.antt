-- ===== src/Job.antt =====
-- platform/app/job_envelope.py: the budget of a job, the concurrency gate, the check at every step,
-- and the runner's loop. Of an exception that is no `JobBudgetError` only its code is kept; messages
-- and time stamps are left out. Durations are whole numbers of microseconds.
pub mod Budget
pub mod Gate
mod Outcome
mod Release
pub mod Liveness
mod Tests
use study_assistance_agent.Prelude.{
  ℕ, zero, suc, ◌+◌, Bool, true, false, Option, none, some, if◌then◌else◌, ltb,
}
use study_assistance_agent.Exec.{
  Code, Exec, Result, ok, err, pure, raise, ◌>>=◌, ◌>>◌, job_budget_invalid,
  job_concurrency_exceeded, job_cancelled_by_caller, job_killed, job_deadline_exceeded,
  job_cpu_exceeded, job_disk_exceeded, job_steps_invalid,
}
use study_assistance_agent.Job.Budget.{JobBudget, Setting, whole}
use study_assistance_agent.Job.Gate.{ConcurrencyGate, acquire, release}

pub data JobTerminal : Type 0 where
  completed failed cancelled deadline_exceeded budget_exceeded refused : JobTerminal

-- `envelope.reason`
pub data Reason : Type 0 where
  no_reason all_steps step_raised : Reason
  stopped : Code → Reason

-- What the job runs in: the flag that `cancel` sets, the gate, and the rest of the world, which the
-- steps and the guard change and the clocks are read from.
pub record Place (W : Type 0) : Type 0 where
  pub world : W
  pub is_cancelled : Bool
  pub gate : Option ConcurrencyGate

-- `cancel`
abbrev pub cancel : {W : Type 0} → Place W → Place W
cancel p = record p { is_cancelled = true }

-- The parts of an envelope that a run reads, with the readings that its check takes: the time since
-- the start, on the wall and of the CPU, and the bytes of the workspace, where there is one.
pub record Job (W : Type 0) : Type 0 where
  pub budget : JobBudget
  pub guard : Option (Exec (Place W) (Unit {0}))
  pub wall : W → ℕ
  pub cpu : W → ℕ
  pub workspace : Option (W → ℕ)

-- The parts that a run writes.
pub record Envelope : Type 0 where
  pub done : ℕ
  pub total : ℕ
  pub terminal : Option JobTerminal
  pub reason : Reason

abbrev pub disk_used : {W : Type 0} → Option (W → ℕ) → W → ℕ
disk_used none w = 0
disk_used (some bytes) w = bytes w

module _ {W : Type 0} where
  abbrev pub run_guard : Option (Exec (Place W) (Unit {0})) → Exec (Place W) (Unit {0})
  run_guard none p = (ok tt, p)
  run_guard (some guard) p = guard p

  -- `if concurrency is not None: concurrency.acquire(requested)`
  abbrev pub take_slot : ℕ → Option ConcurrencyGate → Place W → Result (Unit {0}) × Place W
  take_slot requested none p = (ok tt, p)
  take_slot requested (some gate) p =
      ((acquire requested gate).0, record p { gate = some (acquire requested gate).1 })

  -- The comparisons of `check`, after the guard.
  unfoldable pub check_budget : Job W → Exec (Place W) (Unit {0})
  check_budget job p =
      if ltb job.budget.wall_clock (job.wall p.world)
      then (err job_deadline_exceeded, p)
      else if ltb job.budget.cpu (job.cpu p.world)
      then (err job_cpu_exceeded, p)
      else if ltb job.budget.disk_bytes (disk_used job.workspace p.world)
      then (err job_disk_exceeded, p)
      else (ok tt, p)

  -- `check` without a gate, as before every step.
  unfoldable pub check : Job W → Exec (Place W) (Unit {0})
  unfolding check_budget ◌>>=◌
  check job p =
      if p.is_cancelled
      then (err job_cancelled_by_caller, p)
      else (run_guard job.guard >>= λ _. check_budget job) p

  -- `check` with the runner's gate, as before the first step.
  unfoldable pub check_first : Job W → ℕ → Exec (Place W) (Unit {0})
  unfolding check acquire ◌>>=◌
  check_first job requested = do check job; λ p. take_slot requested p.gate p

  abbrev pub run_work : Option (ℕ → Exec (Place W) (Unit {0})) → ℕ → Exec (Place W) (Unit {0})
  run_work none i p = (ok tt, p)
  run_work (some work) i p = work i p

  -- One round of the loop, but the progress.
  unfoldable pub step :
      Job W → Option (ℕ → Exec (Place W) (Unit {0})) → ℕ → Exec (Place W) (Unit {0})
  unfolding check ◌>>=◌
  step job work i = do check job; run_work work i

  -- The loop over `range(steps)`, from an index on, with the steps done so far.
  unfoldable pub run_steps :
      Job W
      → Option (ℕ → Exec (Place W) (Unit {0}))
      → ℕ
      → ℕ
      → ℕ
      → Place W
      → (Result (Unit {0}) × ℕ) × Place W
  unfolding step
  run_steps job work zero i done p = ((ok tt, done), p)
  run_steps job work (suc n) i done p =
      let r = step job work i p in
      elim r.0 [ ok u ↦ run_steps job work n (suc i) (done + 1) r.1 | err c ↦ ((err c, done), r.1) ]

  -- `finally`
  abbrev pub give_back : ℕ → Place W → Place W
  give_back requested p = record p {
    gate = elim p.gate [ none ↦ none | some gate ↦ some (release requested gate) ];
  }

-- The two handlers.
unfoldable pub terminal_of : Code → JobTerminal
terminal_of job_cancelled_by_caller = JobTerminal.cancelled
terminal_of job_killed = JobTerminal.cancelled
terminal_of job_deadline_exceeded = JobTerminal.deadline_exceeded
terminal_of job_budget_invalid = JobTerminal.budget_exceeded
terminal_of job_concurrency_exceeded = JobTerminal.budget_exceeded
terminal_of job_cpu_exceeded = JobTerminal.budget_exceeded
terminal_of job_disk_exceeded = JobTerminal.budget_exceeded
terminal_of job_steps_invalid = JobTerminal.budget_exceeded
terminal_of _ = JobTerminal.failed

unfoldable pub reason_of : Code → Reason
reason_of job_cancelled_by_caller = stopped job_cancelled_by_caller
reason_of job_killed = stopped job_killed
reason_of job_deadline_exceeded = stopped job_deadline_exceeded
reason_of job_budget_invalid = stopped job_budget_invalid
reason_of job_concurrency_exceeded = stopped job_concurrency_exceeded
reason_of job_cpu_exceeded = stopped job_cpu_exceeded
reason_of job_disk_exceeded = stopped job_disk_exceeded
reason_of job_steps_invalid = stopped job_steps_invalid
reason_of _ = step_raised

abbrev pub finish : Result (Unit {0}) → Envelope → Envelope
finish (ok u) e = record e { terminal = some JobTerminal.completed; reason = all_steps }
finish (err c) e = record e { terminal = some (terminal_of c); reason = reason_of c }

module _ {W : Type 0} (job : Job W) (requested : ℕ)
    (work : Option (ℕ → Exec (Place W) (Unit {0}))) where
  -- `run` of `SyntheticJobRunner`, for a number of steps.
  unfoldable pub run_bounded : ℕ → Envelope → Place W → Envelope × Place W
  unfolding check_first run_steps terminal_of reason_of release
  run_bounded steps e p =
      let e' = record e { total = steps } in
      let first = check_first job requested p in
      elim first.0 [
        | err c ↦ (finish (err c) e', first.1)
        | ok u ↦
            let last = run_steps job work steps 0 e.done first.1 in
            (finish last.0.0 (record e' { done = last.0.1 }), give_back requested last.1)
      ]

  abbrev pub run : Setting → Envelope → Place W → Result Envelope × Place W
  run (whole steps) e p = (ok (run_bounded steps e p).0, (run_bounded steps e p).1)
  run _ e p = (err job_steps_invalid, p)
