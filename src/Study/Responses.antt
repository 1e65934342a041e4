-- ===== src/Study/Responses.antt =====
-- `to_response` and `_current_attempts` of platform/app/study_session.py. Of a source, only the file
-- is kept.
use study_assistance_agent.Prelude.{
  ℕ, String, not, ◌&&◌, Option, none, some, List, [], ◌∷◌, map, if◌then◌else◌, ◌==◌, length,
}
use study_assistance_agent.Exec.{Result, ok, err, index_error}
use study_assistance_agent.Review.{Review}
use study_assistance_agent.Study.{
  SessionState, QuestionState, AnswerEvaluation, Remediation, TraceStep, Score, Session,
  is_answerable,
}
use study_assistance_agent.Study.Answers.{question_at}

-- What a client sees of a question.
pub record StudyQuestionView : Type 0 where
  pub id : ℕ
  pub question : String
  pub type : String
  pub source_file : String
  pub source_title : String
  pub difficulty : String
  pub tags : List String

abbrev pub view_question : QuestionState → StudyQuestionView
view_question q = record {
  id = q.id;
  question = q.question.question;
  type = q.question.type;
  source_file = q.question.source_file;
  source_title = q.question.source_title;
  difficulty = q.question.difficulty;
  tags = q.question.tags;
}

abbrev pub last_attempts : List QuestionState → ℕ
last_attempts [] = 0
last_attempts (q ∷ []) = q.attempt_count
last_attempts (q ∷ q' ∷ qs) = last_attempts (q' ∷ qs)

-- `_current_attempts`
unfoldable pub current_attempts : Session → ℕ
unfolding question_at
current_attempts s = elim (question_at s.current_index s.questions) [
  | none ↦ last_attempts s.questions
  | some q ↦ q.attempt_count
]

pub record StudySessionResponse : Type 0 where
  pub session_id : String
  pub course : String
  pub topic : String
  pub state : SessionState
  pub explanation : String
  pub source_files : List String
  pub questions : List StudyQuestionView
  pub current_question_id : Option ℕ
  pub attempt_count : ℕ
  pub score : Option Score
  pub last_evaluation : Option AnswerEvaluation
  pub remediation : Remediation
  pub review : Option Review
  pub tool_trace : List TraceStep

-- The id of the current question; an index past the end raises.
abbrev pub current_id : Session → Result (Option ℕ)
current_id s =
    if not (length s.questions == 0) && is_answerable s.state
    then elim (question_at s.current_index s.questions) [
      | none ↦ err index_error
      | some q ↦ ok (some q.id)
    ]
    else ok none

unfoldable pub to_response : Session → Result StudySessionResponse
unfolding current_attempts is_answerable question_at
to_response s = elim (current_id s) [
  | err c ↦ err c
  | ok id ↦ ok (record {
    session_id = s.session_id;
    course = s.course;
    topic = s.topic;
    state = s.state;
    explanation = s.explanation;
    source_files = map (λ x. x.file) s.sources;
    questions = map view_question s.questions;
    current_question_id = id;
    attempt_count = current_attempts s;
    score = s.score;
    last_evaluation = s.last_evaluation;
    remediation = s.remediation;
    review = s.review;
    tool_trace = s.tool_trace;
  })
]
