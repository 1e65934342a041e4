-- ===== src/Study/Answers/Steps.antt =====
-- What one graded answer does to a session, and to the history of reviews.
use study_assistance_agent.Prelude.{
  ℕ, zero, suc, [], ◌∷◌, ◌++◌, length-append, ◌+◌, ◌≤◌, ◌<◌, String, ◌≡◌, refl, sym, subst, ap, ◌∙◌,
  ◌⊎◌, inl, inr, true, false, none, some, List, arith, ltb, length, is_some, Bool-cases,
}
use study_assistance_agent.Review.{log_review}
use study_assistance_agent.Study.{
  awaiting_answer, completed, QuizQuestion, QuestionState, AnswerRecord, Session,
}
use study_assistance_agent.Study.Answers.{
  Desk, add_review, complete, advance_or_complete, trace, question_at, set_question,
}
use study_assistance_agent.Study.Answers.Quiz.{
  is_done, AreDone, IsRun, IsNumbered, total_attempts, attempts_left, set_question-next,
  set_question-last, set_question-IsNumbered, set_question-length, set_question-attempt,
}

-- The questions of a session without what the answers change.
abbrev pub quiz_of : List QuestionState → List QuizQuestion
quiz_of [] = []
quiz_of (q ∷ qs) = q.question ∷ quiz_of qs

pub set_question-quiz_of :
    (i : ℕ) (p q : QuestionState) (qs : List QuestionState)
    → question_at i qs ≡ some q
    → p.question ≡ q.question
    → quiz_of (set_question i p qs) ≡ quiz_of qs
unfolding set_question question_at
set_question-quiz_of i p q [] at h = refl
set_question-quiz_of zero p q (x ∷ xs) at h = ground (arith, at, h)
set_question-quiz_of (suc i) p q (x ∷ xs) at h =
    ap (λ rest. x.question ∷ rest) (set_question-quiz_of i p q xs at h)

-- A session between two requests: it waits for an answer to its current question, and nothing has
-- been logged, or it is completed, all its questions are finished, and its review is logged. The ids
-- count the questions, and every attempt has its record.
pub record IsStudy (s : Session) : Type 0 where
  pub run :
      ((s.state ≡ awaiting_answer) × (IsRun s.current_index s.questions × (s.review ≡ none)))
      ⊎ ((s.state ≡ completed) × (AreDone s.questions × (is_some s.review ≡ true)))
  pub numbered : IsNumbered 1 s.questions
  pub recorded : length s.answer_records ≡ total_attempts s.questions

-- The history is the same and the session goes on, or the session's review has been logged.
abbrev pub IsLogged : ℕ → Desk → Desk → Type 0
IsLogged now d d' =
    ((d'.session.state ≡ awaiting_answer) × (d'.history ≡ d.history))
    ⊎ ((d'.session.state ≡ completed)
        × ((file : String) × (d'.history
              ≡ (log_review
                  (record {
                    file = file;
                    course = d.session.course;
                    source_session_id = some d.session.session_id;
                  })
                  now d.history).1)))

-- The record is of the session's current question, and numbers the attempt.
abbrev pub IsEntry : AnswerRecord → Session → Type 0
IsEntry entry s =
    (q : QuestionState) × (question_at s.current_index s.questions ≡ some q)
    × (entry.question_id ≡ q.id)
    × (entry.attempt_count ≡ q.attempt_count + 1)

pub record IsGraded (now : ℕ) (d d' : Desk) : Type 0 where
  pub study : IsStudy d'.session
  pub attempts : total_attempts d'.session.questions ≡ total_attempts d.session.questions + 1
  pub left : attempts_left d'.session.questions < attempts_left d.session.questions
  pub size : length d'.session.questions ≡ length d.session.questions
  pub same_questions : quiz_of d'.session.questions ≡ quiz_of d.session.questions
  pub entry : AnswerRecord
  pub records : d'.session.answer_records ≡ d.session.answer_records ++ entry ∷ []
  pub entry_of : IsEntry entry d.session
  pub same_id : d'.session.session_id ≡ d.session.session_id
  pub same_course : d'.session.course ≡ d.session.course
  pub logged : IsLogged now d d'

-- What is left of the desk when the current question is finished, before the session moves on.
pub record IsFinishing (d e : Desk) (p q : QuestionState) : Type 0 where
  pub done : is_done p ≡ true
  pub same_id : p.id ≡ q.id
  pub same_question : p.question ≡ q.question
  pub counted : p.attempt_count ≡ q.attempt_count + 1
  pub questions : e.session.questions ≡ set_question d.session.current_index p d.session.questions
  pub index : e.session.current_index ≡ d.session.current_index
  pub entry : AnswerRecord
  pub records : e.session.answer_records ≡ d.session.answer_records ++ entry ∷ []
  pub entry_id : entry.question_id ≡ q.id
  pub entry_count : entry.attempt_count ≡ q.attempt_count + 1
  pub review : e.session.review ≡ none
  pub session_id : e.session.session_id ≡ d.session.session_id
  pub course : e.session.course ≡ d.session.course
  pub history : e.history ≡ d.history

module _ (now : ℕ) (e : Desk) where
  -- The session goes on.
  advance-next :
      IsRun (suc e.session.current_index) e.session.questions
      → e.session.review ≡ none
      → IsNumbered 1 e.session.questions
      → length e.session.answer_records ≡ total_attempts e.session.questions
      → ltb (e.session.current_index + 1) (length e.session.questions) ≡ true
      → IsStudy (advance_or_complete now e).session
        × ((advance_or_complete now e).session.questions ≡ e.session.questions)
        × ((advance_or_complete now e).session.session_id ≡ e.session.session_id)
        × ((advance_or_complete now e).session.course ≡ e.session.course)
        × ((advance_or_complete now e).session.answer_records ≡ e.session.answer_records)
        × IsLogged now e (advance_or_complete now e)
  unfolding advance_or_complete trace
  advance-next run review numbered recorded h =
      let next : e.session.current_index + 1 ≡ suc e.session.current_index = omega arith in
      rw (h, advance_or_complete)
        (
          record {
            run = inl (refl, (subst (λ k. IsRun k e.session.questions) (sym next) run, review));
            numbered = numbered;
            recorded = recorded;
          },
          refl,
          refl,
          refl,
          refl,
          inl (refl, refl),
        )

  -- The session is completed, and logged.
  advance-last :
      AreDone e.session.questions
      → e.session.review ≡ none
      → IsNumbered 1 e.session.questions
      → length e.session.answer_records ≡ total_attempts e.session.questions
      → ltb (e.session.current_index + 1) (length e.session.questions) ≡ false
      → IsStudy (advance_or_complete now e).session
        × ((advance_or_complete now e).session.questions ≡ e.session.questions)
        × ((advance_or_complete now e).session.session_id ≡ e.session.session_id)
        × ((advance_or_complete now e).session.course ≡ e.session.course)
        × ((advance_or_complete now e).session.answer_records ≡ e.session.answer_records)
        × IsLogged now e (advance_or_complete now e)
  unfolding advance_or_complete complete add_review trace
  advance-last done review numbered recorded h =
      rw (h, advance_or_complete, review, add_review)
        (
          record { run = inr (refl, (done, refl)); numbered = numbered; recorded = recorded },
          refl,
          refl,
          refl,
          refl,
          inr (refl, (_, refl)),
        )

module _ (now : ℕ) (d e : Desk) (p q : QuestionState)
    (run : IsRun d.session.current_index d.session.questions)
    (numbered : IsNumbered 1 d.session.questions)
    (recorded : length d.session.answer_records ≡ total_attempts d.session.questions)
    (at : question_at d.session.current_index d.session.questions ≡ some q) where
  log_of :
      (d' : Desk)
      → e.session.session_id ≡ d.session.session_id
      → e.session.course ≡ d.session.course
      → e.history ≡ d.history
      → IsLogged now e d'
      → IsLogged now d d'
  log_of d' i c h (inl (s, same)) = inl (s, same ∙ h)
  log_of d' i c h (inr (s, (file, logged))) = inr (s, (file, logged ∙ cc (i, c, h)))

  finished :
      IsFinishing d e p q
      → IsStudy (advance_or_complete now e).session
        × ((advance_or_complete now e).session.questions ≡ e.session.questions)
        × ((advance_or_complete now e).session.session_id ≡ e.session.session_id)
        × ((advance_or_complete now e).session.course ≡ e.session.course)
        × ((advance_or_complete now e).session.answer_records ≡ e.session.answer_records)
        × IsLogged now e (advance_or_complete now e)
  finished f =
      let i = d.session.current_index in
      let qs = d.session.questions in
      let (more, fewer) = set_question-attempt i p q qs run at f.counted in
      let ids : IsNumbered 1 e.session.questions =
        subst (λ x. IsNumbered 1 x) (sym f.questions)
          (set_question-IsNumbered i 1 p q qs at f.same_id numbered) in
      let count : length e.session.answer_records ≡ total_attempts e.session.questions = omega (
        arith,
        ap (λ (x : List AnswerRecord). length x) f.records,
        length-append d.session.answer_records,
        recorded,
        more,
        ap total_attempts f.questions,
      ) in
      elim (Bool-cases (ltb (e.session.current_index + 1) (length e.session.questions))) [
        | inl h ↦
            let l : i + 1 < length (set_question i p qs) =
              ground (arith, h, ap (λ (x : List QuestionState). length x) f.questions, f.index) in
            advance-next now e
              (subst (λ k. IsRun (suc k) e.session.questions) (sym f.index)
                (subst (λ x. IsRun (suc i) x) (sym f.questions)
                  (set_question-next i p qs run f.done l)))
              f.review ids count h
        | inr h ↦
            let l : length (set_question i p qs) ≤ i + 1 =
              ground (arith, h, ap (λ (x : List QuestionState). length x) f.questions, f.index) in
            advance-last now e
              (subst AreDone (sym f.questions) (set_question-last i p qs run f.done l)) f.review ids
              count h
      ]

  pub finishing-IsGraded : IsFinishing d e p q → IsGraded now d (advance_or_complete now e)
  finishing-IsGraded f =
      let (study, same, id, course, records, logged) = finished f in
      let (more, fewer) =
        set_question-attempt d.session.current_index p q d.session.questions run at f.counted in
      record {
        study = study;
        attempts = ap total_attempts (same ∙ f.questions) ∙ more;
        left =
            subst (λ x. attempts_left x < attempts_left d.session.questions)
              (sym (same ∙ f.questions)) fewer;
        size =
            ap (λ (x : List QuestionState). length x) (same ∙ f.questions)
            ∙ set_question-length d.session.current_index p d.session.questions;
        same_questions =
            ap quiz_of (same ∙ f.questions)
            ∙ set_question-quiz_of d.session.current_index p q d.session.questions at
                f.same_question;
        entry = f.entry;
        records = records ∙ f.records;
        entry_of = (q, at, f.entry_id, f.entry_count);
        same_id = id ∙ f.session_id;
        same_course = course ∙ f.course;
        logged = log_of (advance_or_complete now e) f.session_id f.course f.history logged;
      }
