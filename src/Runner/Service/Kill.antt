-- ===== src/Runner/Service/Kill.antt =====
-- What the kill switch stops.
use study_assistance_agent.Prelude.{
  ℕ, suc, ◌+◌, ◌<◌, ◌≡◌, refl, ap, ◌∙◌, Bool, true, false, Option, none, some, List, [], ◌∷◌, arith,
}
use study_assistance_agent.Exec.{Exec, ok, err, ◌>>=◌, runner_killed, job_killed}
use study_assistance_agent.Runner.Recovery.{Setup, Call, World, boundary, execute_effect}
use study_assistance_agent.Job.{
  JobTerminal, stopped, Place, check, check_first, step, terminal_of, reason_of,
}
use study_assistance_agent.Job.Budget.{JobBudget}
use study_assistance_agent.Job.Liveness.{run_bounded-stops}
use study_assistance_agent.Runner.Service.{
  Runner, kill_hook, submit_write, kill_guard, killable_job, new_envelope, run_job,
}

unfoldable pub submit_writes :
    {Arguments Domain : Type 0}
    → Setup Arguments
    → List (Call Arguments Domain)
    → Runner Domain
    → Runner Domain
submit_writes setup [] r = r
submit_writes setup (call ∷ calls) r = submit_writes setup calls (submit_write setup call r).1

module _ {Arguments Domain : Type 0} (setup : Setup Arguments) where
  submit_write-killed :
      (call : Call Arguments Domain) (w : World Domain)
      → submit_write setup call (record { world = w; is_killed = true })
        ≡ (err runner_killed, record { world = w; is_killed = true })
  unfolding submit_write execute_effect boundary kill_hook ◌>>=◌
  submit_write-killed call w = refl

  -- While the runner is killed, no write changes the ledger, the domain or a counter, whatever the calls
  -- and their hooks are.
  pub submit_writes-killed :
      (calls : List (Call Arguments Domain)) (w : World Domain)
      → submit_writes setup calls (record { world = w; is_killed = true })
        ≡ record { world = w; is_killed = true }
  unfolding submit_writes
  submit_writes-killed [] w = refl
  submit_writes-killed (call ∷ calls) w =
      ap (λ r. submit_writes setup calls r.1) (submit_write-killed call w)
      ∙ submit_writes-killed calls w

module _ {W : Type 0} (is_killed : W → Bool) (wall cpu : W → ℕ) (budget : Option JobBudget) where
  killed_check :
      (q : Place W)
      → is_killed q.world ≡ true
      → q.is_cancelled ≡ false
      → check (killable_job is_killed wall cpu budget) q ≡ (err job_killed, q)
  unfolding check kill_guard ◌>>=◌
  killed_check q k c = ground arith

  -- A job whose steps up to one succeed, where the runner is killed by then: the next check stops it, no
  -- later step is begun, and it ends as cancelled, with the reason that it was killed and the steps up to
  -- that one done; the world is left as the run of just those steps leaves it. There must be later steps, and the job must not be cancelled too.
  pub run_job-killed :
      (work : Option (ℕ → Exec (Place W) (Unit {0}))) (P : ℕ → Place W → Type 0) (limit later : ℕ)
      (w : W)
      → ((i : ℕ) (p : Place W)
          → i < limit
          → P i p
          → ((step (killable_job is_killed wall cpu budget) work i p).0 ≡ ok tt)
            × P (suc i) (step (killable_job is_killed wall cpu budget) work i p).1)
      → let first =
          check_first
            (killable_job is_killed wall cpu budget)
            1
            (record { world = w; is_cancelled = false; gate = none }) in
        (first.0 ≡ ok tt)
        → P 0 first.1
        → ((q : Place W) → P limit q → (is_killed q.world ≡ true) × (q.is_cancelled ≡ false))
        → 0 < later
        → let e = (run_job is_killed wall cpu budget work (limit + later) w).0 in
          (e.terminal ≡ some JobTerminal.cancelled)
          × (e.reason ≡ stopped job_killed)
          × (e.done ≡ limit)
          × ((run_job is_killed wall cpu budget work (limit + later) w).1
              ≡ (run_job is_killed wall cpu budget work limit w).1)
  unfolding run_job terminal_of reason_of
  run_job-killed work P limit later w fine first good killed l =
      let (t, r, d, same) =
        run_bounded-stops (killable_job is_killed wall cpu budget) work P limit fine 1 job_killed
          later new_envelope (record { world = w; is_cancelled = false; gate = none }) first good
          (λ q h. killed_check q (killed q h).0 (killed q h).1) l in
      (t, r, omega (arith, d), same)
