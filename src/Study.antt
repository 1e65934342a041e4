-- ===== src/Study.antt =====
-- `StudySessionService` of platform/app/study_session.py: the data of a session, with its constants.
-- The id `q{n}` of a question is the number n; a requested id that is none of these is 0, and an empty
-- one is `none`. A score is the exact sum, in tenths, and the number that it is divided by. Time
-- stamps, and the texts that only people read, are left out.
pub mod Grader
pub mod Hints
pub mod Selection
pub mod Answers
pub mod Saved
pub mod Responses
pub mod Service
use study_assistance_agent.Prelude.{ℕ, String, Bool, true, false, Option, none, List, []}
use study_assistance_agent.Review.{Review}

pub data SessionState : Type 0 where
  created explaining awaiting_answer evaluating remediation completed : SessionState

-- `session.state in ANSWERABLE_STATES`
unfoldable pub is_answerable : SessionState → Bool
is_answerable SessionState.awaiting_answer = true
is_answerable SessionState.remediation = true
is_answerable _ = false

abbrev pub max_attempts : ℕ
max_attempts = 2

-- What the Python library does with texts: the class `\s` of its regular expressions, `str.lower`
-- on code points, `str.strip`, and the words of `str.split` joined by blanks.
pub record Texts : Type 0 where
  pub is_space : ℕ → Bool
  pub lower : List ℕ → List ℕ
  pub strip : String → String
  pub collapse : String → List ℕ

pub record QuizQuestion : Type 0 where
  pub question : String
  pub type : String
  pub answer : String
  pub source_file : String
  pub source_title : String
  pub tags : List String
  pub difficulty : String

-- What the session reads of a `RetrievalChunk`.
pub record Source : Type 0 where
  pub file : String
  pub title : String
  pub course : String
  pub tags : List String

pub record QuestionState : Type 0 where
  pub id : ℕ
  pub question : QuizQuestion
  pub attempt_count : ℕ
  pub correct : Option Bool

pub record AnswerEvaluation : Type 0 where
  pub question_id : ℕ
  pub correct : Bool
  pub score : ℕ
  pub attempt_count : ℕ
  pub feedback : String
  pub reference_answer : String

-- `session.remediation`: empty, a hint with the first sentence, a hint without one, the question's
-- answer, or the explanation.
pub data Remediation : Type 0 where
  no_remediation plain_hint : Remediation
  hint_with : List ℕ → Remediation
  full_answer full_explanation : String → Remediation

pub record TraceStep : Type 0 where
  pub step : String
  pub service : String
  pub status : String
  pub result_count : ℕ
  pub state_after : SessionState

pub record AnswerRecord : Type 0 where
  pub question_id : ℕ
  pub attempt_count : ℕ
  pub answer_normalized : List ℕ
  pub correct : Bool
  pub feedback : String

pub record Score : Type 0 where
  pub tenths : ℕ
  pub finished : ℕ

pub record Session : Type 0 where
  pub session_id : String
  pub course : String
  pub topic : String
  pub state : SessionState
  pub explanation : String
  pub sources : List Source
  pub questions : List QuestionState
  pub current_index : ℕ
  pub score : Option Score
  pub last_evaluation : Option AnswerEvaluation
  pub remediation : Remediation
  pub review : Option Review
  pub tool_trace : List TraceStep
  pub last_answer_normalized : List ℕ
  pub answer_records : List AnswerRecord
