-- ===== src/Job/Liveness.antt =====
-- What a job that nothing stops does, and one that is cancelled by a step.
use study_assistance_agent.Prelude.{
  ℕ, zero, suc, ◌+◌, ◌≤◌, ◌<◌, ◌≡◌, refl, sym, subst, ap, ◌∙◌, true, Option, some, arith,
}
use study_assistance_agent.Exec.{rest_of, Code, Exec, ok, err, ◌>>=◌, job_cancelled_by_caller}
use study_assistance_agent.Job.{
  run_work, Job, JobTerminal, stopped, Place, Envelope, check, check_first, step, run_steps,
  terminal_of, reason_of, finish, give_back, run_bounded,
}

module _ {W : Type 0} (job : Job W) (work : Option (ℕ → Exec (Place W) (Unit {0})))
    (P : ℕ → Place W → Type 0) (limit : ℕ)
    (fine : (i : ℕ) (p : Place W)
      → i < limit
      → P i p
      → ((step job work i p).0 ≡ ok tt) × P (suc i) (step job work i p).1) where
  step_on :
      (n i done : ℕ) (p : Place W)
      → (step job work i p).0 ≡ ok tt
      → run_steps job work (suc n) i done p
        ≡ run_steps job work n (suc i) (done + 1) (step job work i p).1
  unfolding run_steps
  step_on n i done p h = rw (run_steps, h) refl

  stopped_step :
      (c : Code) (i : ℕ) (p : Place W) → check job p ≡ (err c, p) → step job work i p ≡ (err c, p)
  unfolding step ◌>>=◌
  stopped_step c i p h = ap (λ r. rest_of (λ _. run_work work i) r.0 r.1) h

  stopped_loop :
      (c : Code) (n i done : ℕ) (p : Place W)
      → check job p ≡ (err c, p)
      → run_steps job work (suc n) i done p ≡ ((err c, done), p)
  unfolding run_steps
  stopped_loop c n i done p h =
      let stop = stopped_step c i p h in
      rw (run_steps, ap (λ r. r.0) stop) (ap (λ r. ((err c, done), r.1)) stop)

  -- The steps below the limit are done.
  reach :
      (m n i done : ℕ) (p : Place W)
      → i + m ≤ limit
      → P i p
      → (p' : Place W) × P (i + m) p'
        × (run_steps job work (m + n) i done p ≡ run_steps job work n (i + m) (done + m) p')
        × ((run_steps job work m i done p).1 ≡ p')
  unfolding run_steps
  reach zero n i done p l h =
      let none_more : 0 + n ≡ n = omega arith in
      let same_index : i + 0 ≡ i = omega arith in
      let same_done : done + 0 ≡ done = omega arith in
      (p, subst (λ k. P k p) (sym same_index) h, cc (none_more, same_index, same_done), refl)
  reach (suc m) n i done p l h =
      let (ok_step, next) = fine i p (omega arith) h in
      let (p', good, same, exact) =
        reach m n (suc i) (done + 1) (step job work i p).1 (omega arith) next in
      let more : suc m + n ≡ suc (m + n) = omega arith in
      let index : suc i + m ≡ i + suc m = omega arith in
      let count : done + 1 + m ≡ done + suc m = omega arith in
      (
        p',
        subst (λ k. P k p') index good,
        ap (λ k. run_steps job work k i done p) more
            ∙ step_on (m + n) i done p ok_step
            ∙ same
            ∙ ap (λ k. run_steps job work n k (done + 1 + m) p') index
            ∙ ap (λ k. run_steps job work n (i + suc m) k p') count,
        ap (λ r. r.1) (step_on m i done p ok_step) ∙ exact,
      )

  module _ (requested : ℕ) where
    -- The loop of a run whose first check passes.
    run_bounded-loop :
        (steps : ℕ) (e : Envelope) (p : Place W)
        → (check_first job requested p).0 ≡ ok tt
        → (run_bounded job requested work steps e p).0
          ≡ finish
              (run_steps job work steps 0 e.done (check_first job requested p).1).0.0
              (record e {
                total = steps;
                done = (run_steps job work steps 0 e.done (check_first job requested p).1).0.1;
              })
    unfolding run_bounded
    run_bounded-loop steps e p h = rw (run_bounded, h) refl

    run_bounded-place :
        (steps : ℕ) (e : Envelope) (p : Place W)
        → (check_first job requested p).0 ≡ ok tt
        → (run_bounded job requested work steps e p).1
          ≡ give_back requested
              (run_steps job work steps 0 e.done (check_first job requested p).1).1
    unfolding run_bounded
    run_bounded-place steps e p h = rw (run_bounded, h) refl

    -- A job that nothing stops completes, and has done all its steps: its first check passes, and
    -- there is a condition that holds then, that lets every step succeed, and that every step keeps.
    pub run_bounded-completes :
        (e : Envelope) (p : Place W)
        → (check_first job requested p).0 ≡ ok tt
        → P 0 (check_first job requested p).1
        → ((run_bounded job requested work limit e p).0.terminal ≡ some JobTerminal.completed)
          × ((run_bounded job requested work limit e p).0.done ≡ e.done + limit)
    unfolding run_steps
    run_bounded-completes e p first good =
        let (p', there, same, exact) =
          reach limit 0 0 e.done (check_first job requested p).1 (omega arith) good in
        let all : limit + 0 ≡ limit = omega arith in
        let last : run_steps job work limit 0 e.done (check_first job requested p).1
            ≡ ((ok tt, e.done + limit), p') =
          ap (λ k. run_steps job work k 0 e.done (check_first job requested p).1) (sym all)
          ∙ same in
        let loop = run_bounded-loop limit e p first in
        let out = loop ∙ ap (λ r. finish r.0.0 (record e { total = limit; done = r.0.1 })) last in
        (ap (λ x. x.terminal) out, ap (λ x. x.done) out)

    -- The steps below the limit succeed, and then the check raises.
    pub run_bounded-stops :
        (c : Code) (later : ℕ) (e : Envelope) (p : Place W)
        → (check_first job requested p).0 ≡ ok tt
        → P 0 (check_first job requested p).1
        → ((q : Place W) → P limit q → check job q ≡ (err c, q))
        → 0 < later
        → ((run_bounded job requested work (limit + later) e p).0.terminal ≡ some (terminal_of c))
          × ((run_bounded job requested work (limit + later) e p).0.reason ≡ reason_of c)
          × ((run_bounded job requested work (limit + later) e p).0.done ≡ e.done + limit)
          × ((run_bounded job requested work (limit + later) e p).1
              ≡ (run_bounded job requested work limit e p).1)
    run_bounded-stops c zero e p first good stops l = absurd (omega arith)
    run_bounded-stops c (suc later) e p first good stops l =
        let first_place = (check_first job requested p).1 in
        let (p', there, same, exact) =
          reach limit (suc later) 0 e.done first_place (omega arith) good in
        let last : run_steps job work (limit + suc later) 0 e.done first_place
            ≡ ((err c, e.done + limit), p') =
          same
          ∙ stopped_loop c later (0 + limit) (e.done + limit) p'
              (stops p' (subst (λ k. P k p') (omega arith) there)) in
        let out =
          run_bounded-loop (limit + suc later) e p first
          ∙ ap (λ r. finish r.0.0 (record e { total = limit + suc later; done = r.0.1 })) last in
        (
          ap (λ x. x.terminal) out,
          ap (λ x. x.reason) out,
          ap (λ x. x.done) out,
          run_bounded-place (limit + suc later) e p first
              ∙ ap (λ r. give_back requested r.1) last
              ∙ sym (ap (give_back requested) exact)
              ∙ sym (run_bounded-place limit e p first),
        )

    stopped_check :
        (q : Place W) → q.is_cancelled ≡ true → check job q ≡ (err job_cancelled_by_caller, q)
    unfolding check
    stopped_check q h = ground arith

    -- A job whose steps up to one succeed, where that one cancels the job: the next check stops it, no
    -- later step is begun, the job has done the steps up to that one, and it leaves the world and the
    -- gate as the run of just those steps does. There must be later steps.
    pub run_bounded-cancel :
        (later : ℕ) (e : Envelope) (p : Place W)
        → (check_first job requested p).0 ≡ ok tt
        → P 0 (check_first job requested p).1
        → ((q : Place W) → P limit q → q.is_cancelled ≡ true)
        → 0 < later
        → ((run_bounded job requested work (limit + later) e p).0.terminal
            ≡ some JobTerminal.cancelled)
          × ((run_bounded job requested work (limit + later) e p).0.reason
              ≡ stopped job_cancelled_by_caller)
          × ((run_bounded job requested work (limit + later) e p).0.done ≡ e.done + limit)
          × ((run_bounded job requested work (limit + later) e p).1
              ≡ (run_bounded job requested work limit e p).1)
    unfolding terminal_of reason_of
    run_bounded-cancel later e p first good stops l =
        run_bounded-stops job_cancelled_by_caller later e p first good
          (λ q h. stopped_check q (stops q h)) l
