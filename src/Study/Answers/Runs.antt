-- ===== src/Study/Answers/Runs.antt =====
-- Sequences of requests to one session: `submit_answer` called again and again.
use study_assistance_agent.Prelude.{
  ℕ, ◌≤◌, ◌++◌, All, String, ◌≡◌, sym, ap, ◌∙◌, ◌⊎◌, Bool, true, false, Option, some, List, [], ◌∷◌,
  arith, length,
}
use study_assistance_agent.Review.{log_review}
use study_assistance_agent.Study.{
  SessionState, awaiting_answer, completed, Texts, AnswerRecord, Session,
}
use study_assistance_agent.Study.Answers.{Desk, submit_answer}
use study_assistance_agent.Study.Answers.Steps.{quiz_of, IsStudy}

pub record Submission : Type 0 where
  pub now : ℕ
  pub question_id : Option ℕ
  pub answer : String

unfoldable pub submit_all : Texts → List Submission → Desk → Desk
submit_all texts [] d = d
submit_all texts (x ∷ xs) d =
    submit_all texts xs (submit_answer texts x.now x.question_id x.answer d).1

-- The record names a question by its number.
abbrev pub IsEntryOf : Session → AnswerRecord → Type 0
IsEntryOf s entry = (1 ≤ entry.question_id) × (entry.question_id ≤ length s.questions)

-- A session is kept well-formed, with its questions, its id and its course, and with the records that
-- it had, before new ones of its questions.
pub record IsKept (d d' : Desk) : Type 0 where
  pub study : IsStudy d'.session
  pub size : length d'.session.questions ≡ length d.session.questions
  pub same_questions : quiz_of d'.session.questions ≡ quiz_of d.session.questions
  pub entries : List AnswerRecord
  pub records : d'.session.answer_records ≡ d.session.answer_records ++ entries
  pub entries_of : All (IsEntryOf d.session) entries
  pub same_id : d'.session.session_id ≡ d.session.session_id
  pub same_course : d'.session.course ≡ d.session.course

-- The history has been extended by the session's review if the session has been completed.
abbrev pub IsLoggedOnce : Desk → Desk → Type 0
IsLoggedOnce d d' =
    ((d'.session.state ≡ awaiting_answer) × (d'.history ≡ d.history))
    ⊎ ((d'.session.state ≡ completed)
        × ((now : ℕ) × ((file : String) × (d'.history
                ≡ (log_review
                    (record {
                      file = file;
                      course = d.session.course;
                      source_session_id = some d.session.session_id;
                    })
                    now d.history).1))))

abbrev is_waiting : SessionState → Bool
is_waiting awaiting_answer = true
is_waiting _ = false

pub waiting-completed : (s : SessionState) → s ≡ awaiting_answer → s ≡ completed → ⊥
waiting-completed s w c =
    let absurd_tests : true ≡ false = sym (ap is_waiting w) ∙ ap is_waiting c in ground arith
