-- ===== src/Job/Release.antt =====
-- The gate after a run.
use study_assistance_agent.Prelude.{
  ℕ, zero, suc, ◌+◌, ◌≡◌, refl, ap, ◌∙◌, inl, inr, Bool, true, false, Option, none, some, arith,
  if◌then◌else◌,
}
use study_assistance_agent.Exec.{
  Code, Exec, Result, ok, err, rest_of, ◌>>=◌, job_cancelled_by_caller,
}
use study_assistance_agent.Job.{
  Job, Place, Envelope, run_guard, run_work, check_budget, check, check_first, take_slot, step,
  run_steps, give_back, run_bounded,
}
use study_assistance_agent.Job.Gate.{ConcurrencyGate, release, release-acquire, acquire-err}
use study_assistance_agent.Job.Outcome.{Result-cases}

stop-gate :
    {W : Type 0} (b : Bool) (c : Code) (p : Place W) (r : Result (Unit {0}) × Place W)
    → r.1.gate ≡ p.gate
    → (if b then (err c, p) else r).1.gate ≡ p.gate
stop-gate true c p r same = refl
stop-gate false c p r same = same

check_budget-same : {W : Type 0} (job : Job W) (p : Place W) → (check_budget job p).1 ≡ p
unfolding check_budget
check_budget-same job p = ground arith

-- What `finally` makes of the gate.
abbrev returned : ℕ → Option ConcurrencyGate → Option ConcurrencyGate
returned requested gate = elim gate [ none ↦ none | some g ↦ some (release requested g) ]

module _ {W : Type 0} (requested : ℕ) (p : Place W) where
  take_slot-ok :
      (g : Option ConcurrencyGate)
      → p.gate ≡ g
      → (take_slot requested g p).0 ≡ ok tt
      → returned requested (take_slot requested g p).1.gate ≡ g
  take_slot-ok none e h = ap (returned requested) e
  take_slot-ok (some gate) e h = ap some (release-acquire requested gate h)

  take_slot-err :
      (g : Option ConcurrencyGate) (c : Code)
      → p.gate ≡ g
      → (take_slot requested g p).0 ≡ err c
      → (take_slot requested g p).1.gate ≡ g
  take_slot-err none c e h = e
  take_slot-err (some gate) c e h = ap some (acquire-err requested gate c h)

module _ {W : Type 0} (job : Job W) (requested : ℕ)
    (work : Option (ℕ → Exec (Place W) (Unit {0}))) where
  refused_run :
      (steps : ℕ) (e : Envelope) (p : Place W) (c : Code)
      → (check_first job requested p).0 ≡ err c
      → (run_bounded job requested work steps e p).1 ≡ (check_first job requested p).1
  unfolding run_bounded
  refused_run steps e p c h = rw (run_bounded, h) refl

  started_run :
      (steps : ℕ) (e : Envelope) (p : Place W)
      → (check_first job requested p).0 ≡ ok tt
      → (run_bounded job requested work steps e p).1
        ≡ give_back requested (run_steps job work steps 0 e.done (check_first job requested p).1).1
  unfolding run_bounded
  started_run steps e p h = rw (run_bounded, h) refl

  module _ (guard_fair : (p : Place W) → (run_guard job.guard p).1.gate ≡ p.gate)
      (work_fair : (i : ℕ) (p : Place W) → (run_work work i p).1.gate ≡ p.gate) where
    guarded-gate :
        (p : Place W) (r : Result (Unit {0})) (p' : Place W)
        → p'.gate ≡ p.gate
        → (rest_of (λ _. check_budget job) r p').1.gate ≡ p.gate
    guarded-gate p (err c) p' same = same
    guarded-gate p (ok u) p' same = ap (λ z. z.gate) (check_budget-same job p') ∙ same

    check-gate : (p : Place W) → (check job p).1.gate ≡ p.gate
    unfolding check ◌>>=◌ check_budget
    check-gate p =
        stop-gate p.is_cancelled job_cancelled_by_caller p
          ((run_guard job.guard >>= λ _. check_budget job) p)
          (guarded-gate p (run_guard job.guard p).0 (run_guard job.guard p).1 (guard_fair p))

    step-gate : (i : ℕ) (p : Place W) → (step job work i p).1.gate ≡ p.gate
    unfolding step ◌>>=◌
    step-gate i p = elim (Result-cases (check job p).0) [
      | inr (c, h) ↦ rw (h, step) (check-gate p)
      | inl (u, h) ↦ rw (h, step) (work_fair i (check job p).1 ∙ check-gate p)
    ]

    run_steps-gate : (n i done : ℕ) (p : Place W) → (run_steps job work n i done p).1.gate ≡ p.gate
    unfolding run_steps
    run_steps-gate zero i done p = refl
    run_steps-gate (suc n) i done p = elim (Result-cases (step job work i p).0) [
      | inr (c, h) ↦ rw (h, run_steps) (step-gate i p)
      | inl (u, h) ↦
          rw (h, run_steps)
            (run_steps-gate n (suc i) (done + 1) (step job work i p).1 ∙ step-gate i p)
    ]

    -- Whatever the run's outcome, the gate is as before: a slot that was acquired is given back, and
    -- none is given back that was not acquired. The steps and the guard must leave the gate alone.
    pub run_bounded-gate :
        (steps : ℕ) (e : Envelope) (p : Place W)
        → (run_bounded job requested work steps e p).1.gate ≡ p.gate
    unfolding check_first ◌>>=◌
    run_bounded-gate steps e p =
        let q = (check job p).1 in
        elim (Result-cases (check job p).0) [
          | inr (c, h) ↦
              let first : check_first job requested p ≡ (err c, q) = rw (check_first, h) refl in
              ap (λ z. z.gate) (refused_run steps e p c (ap (λ r. r.0) first))
              ∙ ap (λ r. r.1.gate) first
              ∙ check-gate p
          | inl (u, h) ↦
              let first : check_first job requested p ≡ take_slot requested q.gate q =
                rw (check_first, h) refl in
              elim (Result-cases (take_slot requested q.gate q).0) [
                | inr (c, k) ↦
                    ap (λ z. z.gate) (refused_run steps e p c (ap (λ r. r.0) first ∙ k))
                    ∙ ap (λ r. r.1.gate) first
                    ∙ take_slot-err requested q q.gate c refl k
                    ∙ check-gate p
                | inl (v, k) ↦
                    ap (λ z. z.gate) (started_run steps e p (ap (λ r. r.0) first ∙ k))
                    ∙ ap (returned requested)
                        (run_steps-gate steps 0 e.done (check_first job requested p).1)
                    ∙ ap (λ r. returned requested r.1.gate) first
                    ∙ take_slot-ok requested q q.gate refl k
                    ∙ check-gate p
              ]
        ]
