-- ===== src/Job/Outcome.antt =====
-- How a run of a job ends.
use study_assistance_agent.Prelude.{
  ℕ, ◌+◌, ◌≤◌, ◌<◌, ◌≡◌, refl, ◌⊎◌, inl, inr, Bool, true, false, Option, some,
}
use study_assistance_agent.Exec.{Code, Exec, Result, ok, err}
use study_assistance_agent.Job.{
  Job, JobTerminal, all_steps, Place, Envelope, terminal_of, reason_of,
}

pub Result-cases {ℓ} :
    {A : Type ℓ} (r : Result A) → ((a : A) × (r ≡ ok a)) ⊎ ((c : Code) × (r ≡ err c))
Result-cases (ok a) = inl (a, refl)
Result-cases (err c) = inr (c, refl)

module _ {W : Type 0} (job : Job W) (work : Option (ℕ → Exec (Place W) (Unit {0}))) where
  -- All steps are done, or the loop was left before that.
  abbrev IsLoop : ℕ → ℕ → (Result (Unit {0}) × ℕ) × Place W → Type 0
  IsLoop n done r =
      ((r.0.0 ≡ ok tt) × (r.0.1 ≡ done + n))
      ⊎ ((c : Code) × (r.0.0 ≡ err c) × (done ≤ r.0.1) × (r.0.1 < done + n))

-- How a run ends whose first check has the result `first`: `completed` with all the steps done; or in
-- the state of an error that is another, with no step done if it is that of the first check, and else
-- with fewer than all the steps done.
abbrev pub IsEnded : Result (Unit {0}) → ℕ → Envelope → Envelope → Type 0
IsEnded first steps e e' =
    (e'.total ≡ steps)
    × (((first ≡ ok tt)
          × (e'.terminal ≡ some JobTerminal.completed)
          × (e'.reason ≡ all_steps)
          × (e'.done ≡ e.done + steps))
        ⊎ ((c : Code) × (e'.terminal ≡ some (terminal_of c))
            × (e'.reason ≡ reason_of c)
            × ((e'.terminal ≡ some JobTerminal.completed) → ⊥)
            × (((first ≡ err c) × (e'.done ≡ e.done))
                ⊎ ((first ≡ ok tt) × (e.done ≤ e'.done) × (e'.done < e.done + steps)))))

abbrev is_completed : Option JobTerminal → Bool
is_completed (some JobTerminal.completed) = true
is_completed _ = false
