-- ===== src/Runner/Service.antt =====
-- `RunnerService` of platform/app/runner_service.py: the kill switch in front of the executor, the
-- reconciler and the job loop. The caller's fault hook is a function of the crash point.
mod Kill
mod Tests
use study_assistance_agent.Prelude.{
  ℕ, ◌+◌, String, Bool, true, false, ◌||◌, Option, none, some, List, [], ◌∷◌, if◌then◌else◌, length,
  count_if,
}
use study_assistance_agent.Exec.{Code, Exec, Result, ok, err, runner_killed, job_killed}
use study_assistance_agent.Runner.Effects.{is_terminal}
use study_assistance_agent.Runner.Outcome.{CrashPoint, EffectOutcome}
use study_assistance_agent.Runner.Ledger.{EffectRecord, create_job, get_job_state, all_effects}
use study_assistance_agent.Runner.Recovery.{Setup, Call, World, execute_effect}
use study_assistance_agent.Job.{Job, Place, Envelope, Reason, no_reason, run_bounded}
use study_assistance_agent.Job.Budget.{JobBudget, defaults}

-- The service's state: what the executor works on, and `_killed`.
pub record Runner (Domain : Type 0) : Type 0 where
  pub world : World Domain
  pub is_killed : Bool

abbrev pub kill : {Domain : Type 0} → Runner Domain → Runner Domain
kill r = record r { is_killed = true }

abbrev pub revive : {Domain : Type 0} → Runner Domain → Runner Domain
revive r = record r { is_killed = false }

-- `boundary`: the kill switch first, then the caller's hook.
unfoldable pub kill_hook : Bool → (CrashPoint → Option Code) → CrashPoint → Option Code
kill_hook is_killed fault_hook point = if is_killed then some runner_killed else fault_hook point

unfoldable pub submit_write :
    {Arguments Domain : Type 0}
    → Setup Arguments
    → Call Arguments Domain
    → Exec (Runner Domain) EffectOutcome
unfolding kill_hook execute_effect
submit_write setup call r =
    let done =
      execute_effect setup (record call { crash_hook = kill_hook r.is_killed call.crash_hook })
        r.world in
    (done.0, record r { world = done.1 })

-- `RunnerStatus`. Its terminal is always none here.
pub record RunnerStatus : Type 0 where
  pub job_id : String
  pub state : String
  pub completed : ℕ
  pub total : ℕ

abbrev pub is_completed : EffectRecord → Bool
is_completed e = is_terminal e.state

unfoldable pub status : {Domain : Type 0} → String → Runner Domain → Option RunnerStatus
unfolding get_job_state all_effects is_terminal
status id r = elim (get_job_state id r.world.ledger) [
  | none ↦ none
  | some state ↦ some (record {
    job_id = id;
    state = if r.is_killed then "killed" else state;
    completed = count_if is_completed (all_effects id r.world.ledger);
    total = length (all_effects id r.world.ledger);
  })
]

-- `_kill_guard`, where the switch is a part of the job's world.
unfoldable pub kill_guard : {W : Type 0} → (W → Bool) → Exec (Place W) (Unit {0})
kill_guard is_killed p = if is_killed p.world then (err job_killed, p) else (ok tt, p)

abbrev pub budget_or_default : Option JobBudget → JobBudget
budget_or_default none = defaults
budget_or_default (some b) = b

-- The envelope of `run_bounded`, which has no workspace.
abbrev pub killable_job : {W : Type 0} → (W → Bool) → (W → ℕ) → (W → ℕ) → Option JobBudget → Job W
killable_job is_killed wall cpu budget = record {
  budget = budget_or_default budget;
  guard = some (kill_guard is_killed);
  wall = wall;
  cpu = cpu;
  workspace = none;
}

abbrev pub new_envelope : Envelope
new_envelope = record { done = 0; total = 0; terminal = none; reason = no_reason }

-- `run_bounded`: a new envelope, and a runner without a gate.
unfoldable pub run_job :
    {W : Type 0}
    → (W → Bool)
    → (W → ℕ)
    → (W → ℕ)
    → Option JobBudget
    → Option (ℕ → Exec (Place W) (Unit {0}))
    → ℕ
    → W
    → Envelope × Place W
unfolding kill_guard run_bounded
run_job is_killed wall cpu budget work steps w =
    run_bounded (killable_job is_killed wall cpu budget) 1 work steps new_envelope
      (record { world = w; is_cancelled = false; gate = none })
