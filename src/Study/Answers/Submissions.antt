-- ===== src/Study/Answers/Submissions.antt =====
-- `submit_answer`: every branch of a request.
use study_assistance_agent.Prelude.{
  ℕ, String, ◌≡◌, refl, sym, subst, ap, ◌⊎◌, inl, inr, Bool, true, false, Option, none, some, arith,
  ◌==◌, length, Bool-cases,
}
use study_assistance_agent.Exec.{Result, ok, err, illegal_session_state}
use study_assistance_agent.Study.{awaiting_answer, completed, is_answerable, Texts, QuestionState}
use study_assistance_agent.Study.Grader.{normalize}
use study_assistance_agent.Study.Answers.{
  Desk, question_at, is_repeat, is_other, answer_question, submit_answer,
}
use study_assistance_agent.Study.Answers.Quiz.{
  is_open, IsRun, question_at-IsRun, attempts-left, run-left,
}
use study_assistance_agent.Study.Answers.Steps.{IsStudy, IsGraded}
use study_assistance_agent.Study.Answers.Grading.{grade-IsGraded}
use study_assistance_agent.Study.Answers.Guards.{
  IsAsked, IsOther, IsOwn, IsRepeated, is_other-IsOther, is_other-IsOwn, is_repeat-IsRepeated,
  not_repeat,
}

-- The three ways in which a submission ends.
abbrev pub IsSubmitted : Texts → ℕ → Option ℕ → String → Desk → Result Bool × Desk → Type 0
IsSubmitted texts now question_id answer d r =
    ((r ≡ (err illegal_session_state, d))
      × ((d.session.state ≡ completed)
          ⊎ ((q : QuestionState) × IsAsked d.session q × IsOther question_id q)))
    ⊎ (((r ≡ (ok false, d))
          × ((q : QuestionState) × IsAsked d.session q
              × IsOwn question_id q
              × IsRepeated texts answer q d.session))
        ⊎ ((r.0 ≡ ok true)
            × IsGraded now d r.1
            × ((q : QuestionState) × IsAsked d.session q
                × IsOwn question_id q
                × (IsRepeated texts answer q d.session → ⊥))))

module _ (texts : Texts) (now : ℕ) (question_id : Option ℕ) (answer : String) (d : Desk) where
  -- The session waits: the request reaches its current question.
  submit_answer-answer_question :
      (q : QuestionState)
      → d.session.state ≡ awaiting_answer
      → IsRun d.session.current_index d.session.questions
      → question_at d.session.current_index d.session.questions ≡ some q
      → submit_answer texts now question_id answer d
        ≡ answer_question texts now question_id answer q d
  unfolding submit_answer is_answerable
  submit_answer-answer_question q waits run at =
      let some_questions : (length d.session.questions == 0) ≡ false = ground (
        arith,
        run-left d.session.current_index d.session.questions run,
        attempts-left d.session.questions,
      ) in
      let answers : is_answerable d.session.state ≡ true = ap is_answerable waits in
      rw (submit_answer, answers, some_questions, at) refl

  answer_question-IsSubmitted :
      (q : QuestionState)
      → d.session.state ≡ awaiting_answer
      → IsRun d.session.current_index d.session.questions
      → IsStudy d.session
      → d.session.review ≡ none
      → question_at d.session.current_index d.session.questions ≡ some q
      → is_open q ≡ true
      → IsSubmitted texts now question_id answer d
          (answer_question texts now question_id answer q d)
  unfolding answer_question
  answer_question-IsSubmitted q waits run study fresh at current =
      let normalized = normalize texts answer in
      elim (Bool-cases (is_other question_id q)) [
        | inl o ↦
            rw (o, answer_question)
              (inl (refl, inr (q, (waits, at), is_other-IsOther question_id q o)))
        | inr o ↦ elim (Bool-cases (is_repeat normalized q d.session)) [
          | inl r ↦
              rw (o, answer_question, r)
                (inr (
                  inl (
                    refl,
                    (
                      q,
                      (waits, at),
                      is_other-IsOwn question_id q o,
                      is_repeat-IsRepeated texts answer q d.session r,
                    ),
                  )))
          | inr r ↦
              rw (o, answer_question, r)
                (inr (
                  inr (
                    refl,
                    grade-IsGraded texts now answer normalized d q run fresh study.numbered
                        study.recorded at current,
                    (
                      q,
                      (waits, at),
                      is_other-IsOwn question_id q o,
                      not_repeat texts answer q d.session r,
                    ),
                  )))
        ]
      ]

  pub submit_answer_lem :
      IsStudy d.session
      → IsSubmitted texts now question_id answer d (submit_answer texts now question_id answer d)
  unfolding submit_answer is_answerable
  submit_answer_lem study = elim study.run [
    | inr (done, rest) ↦
        let answers : is_answerable d.session.state ≡ false = ap is_answerable done in
        inl (rw (submit_answer, answers) refl, inl done)
    | inl (waits, (run, fresh)) ↦
        let (q, at, current) = question_at-IsRun d.session.current_index d.session.questions run in
        subst (λ r. IsSubmitted texts now question_id answer d r)
          (sym (submit_answer-answer_question q waits run at))
          (answer_question-IsSubmitted q waits run study fresh at current)
  ]
