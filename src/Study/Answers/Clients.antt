-- ===== src/Study/Answers/Clients.antt =====
-- A client that answers until the session is completed.
use study_assistance_agent.Prelude.{
  ℕ, zero, suc, ◌*◌, ◌≤◌, String, ◌≡◌, refl, ap, ◌∙◌, inl, inr, false, none, arith, length,
}
use study_assistance_agent.Study.{
  awaiting_answer, completed, is_answerable, Texts, QuestionState, Session,
}
use study_assistance_agent.Study.Grader.{normalize}
use study_assistance_agent.Study.Answers.{Desk, is_repeat, submit_answer}
use study_assistance_agent.Study.Answers.Quiz.{attempts_left, attempts-left, run-left}
use study_assistance_agent.Study.Answers.Steps.{IsStudy, IsGraded}
use study_assistance_agent.Study.Answers.Guards.{not_repeat}
use study_assistance_agent.Study.Answers.Submissions.{submit_answer_lem}
use study_assistance_agent.Study.Answers.Runs.{waiting-completed}

-- A client that asks for an answer to the current question, until the session is completed or the
-- fuel is used up.
unfoldable pub drive : Texts → (Session → String) → ℕ → ℕ → Desk → Desk
drive texts client now zero d = d
drive texts client now (suc n) d =
    drive texts client now n (submit_answer texts now none (client d.session) d).1

module _ (texts : Texts) (client : Session → String) (now : ℕ)
    (fresh_answers : (s : Session) (q : QuestionState)
      → is_repeat (normalize texts (client s)) q s ≡ false) where
  drive-still :
      (n : ℕ) (d : Desk)
      → d.session.state ≡ completed
      → (drive texts client now n d).session.state ≡ completed
  unfolding drive submit_answer is_answerable
  drive-still zero d over = over
  drive-still (suc n) d over =
      let answers : is_answerable d.session.state ≡ false = ap is_answerable over in
      let same : (submit_answer texts now none (client d.session) d).1 ≡ d =
        rw (submit_answer, answers) refl in
      drive-still n (submit_answer texts now none (client d.session) d).1
        (ap (λ z. z.session.state) same ∙ over)

  -- A waiting session grades the client's answer.
  drive-grades :
      (d : Desk)
      → IsStudy d.session
      → d.session.state ≡ awaiting_answer
      → IsGraded now d (submit_answer texts now none (client d.session) d).1
  drive-grades d study waits = elim (submit_answer_lem texts now none (client d.session) d study) [
    | inl (same, inl over) ↦ absurd (waiting-completed d.session.state waits over)
    | inl (same, inr (q, at, (id, other, apart))) ↦ ground (arith, other)
    | inr (inl (same, (q, at, own, again))) ↦
        absurd (not_repeat texts (client d.session) q d.session (fresh_answers d.session q) again)
    | inr (inr (fine, graded, why)) ↦ graded
  ]

  -- Each request uses up an attempt.
  drive-left :
      (n : ℕ) (d : Desk)
      → IsStudy d.session
      → attempts_left d.session.questions ≤ n
      → (drive texts client now n d).session.state ≡ completed
  unfolding drive
  drive-left zero d study l = elim study.run [
    | inl (waits, (run, fresh)) ↦
        absurd (omega (arith, run-left d.session.current_index d.session.questions run))
    | inr (over, rest) ↦ over
  ]
  drive-left (suc n) d study l = elim study.run [
    | inl (waits, rest) ↦
        let g = drive-grades d study waits in
        drive-left n (submit_answer texts now none (client d.session) d).1 g.study
          (omega (arith, g.left))
    | inr (over, rest) ↦ drive-still (suc n) d over
  ]

  -- A client that answers the current question again and again, right or wrong, completes the
  -- session: two requests per question are enough. The session must be well-formed, and in no session
  -- may the client's answer repeat the one that was evaluated last for the question.
  pub drive-completes :
      (d : Desk)
      → IsStudy d.session
      → (drive texts client now (2 * length d.session.questions) d).session.state ≡ completed
  drive-completes d study =
      drive-left (2 * length d.session.questions) d study (attempts-left d.session.questions)
