-- ===== src/Study/Saved.antt =====
-- `serialize_session` and `deserialize_session` of platform/app/study_session.py: the record of a
-- session that the repository keeps.
pub mod Lossless
use mathlib.Core.Option
use study_assistance_agent.Prelude.{ℕ, String, Bool, Option, none, some, List, [], map}
use study_assistance_agent.Review.{Review}
use study_assistance_agent.Study.{
  SessionState, created, QuizQuestion, Source, QuestionState, AnswerEvaluation, Remediation,
  no_remediation, TraceStep, AnswerRecord, Score, Session,
}

-- `model_dump` and `model_validate` of the models, on the dictionaries that a repository keeps.
pub record Codec (D : Type 0) : Type 0 where
  pub dump_question : QuizQuestion → D
  pub validate_question : D → QuizQuestion
  pub dump_source : Source → D
  pub validate_source : D → Source
  pub dump_evaluation : AnswerEvaluation → D
  pub validate_evaluation : D → AnswerEvaluation
  pub dump_step : TraceStep → D
  pub validate_step : D → TraceStep

pub record SavedQuestion (D : Type 0) : Type 0 where
  pub id : ℕ
  pub question : D
  pub attempt_count : Option ℕ
  pub correct : Option Bool

-- The record of a session. A field with `none` is missing, except those whose value may be `None`.
pub record Saved (D : Type 0) : Type 0 where
  pub session_id : String
  pub course : Option String
  pub topic : Option String
  pub state : Option SessionState
  pub explanation : Option String
  pub sources : Option (List D)
  pub questions : Option (List (SavedQuestion D))
  pub current_index : Option ℕ
  pub score : Option Score
  pub last_evaluation : Option D
  pub remediation : Option Remediation
  pub review : Option Review
  pub tool_trace : Option (List D)
  pub last_answer_normalized : Option (List ℕ)
  pub answer_records : Option (List AnswerRecord)

-- `record.get(key, default)`
abbrev pub get_or {ℓ} : {A : Type ℓ} → A → Option A → A
get_or a none = a
get_or a (some b) = b

module _ {D : Type 0} (codec : Codec D) where
  abbrev pub serialize_question : QuestionState → SavedQuestion D
  serialize_question q = record {
    id = q.id;
    question = codec.dump_question q.question;
    attempt_count = some q.attempt_count;
    correct = q.correct;
  }

  abbrev pub deserialize_question : SavedQuestion D → QuestionState
  deserialize_question q = record {
    id = q.id;
    question = codec.validate_question q.question;
    attempt_count = get_or 0 q.attempt_count;
    correct = q.correct;
  }

  unfoldable pub serialize_session : Session → Saved D
  serialize_session s = record {
    session_id = s.session_id;
    course = some s.course;
    topic = some s.topic;
    state = some s.state;
    explanation = some s.explanation;
    sources = some (map codec.dump_source s.sources);
    questions = some (map serialize_question s.questions);
    current_index = some s.current_index;
    score = s.score;
    last_evaluation = Option.map codec.dump_evaluation s.last_evaluation;
    remediation = some s.remediation;
    review = s.review;
    tool_trace = some (map codec.dump_step s.tool_trace);
    last_answer_normalized = some s.last_answer_normalized;
    answer_records = some s.answer_records;
  }

  unfoldable pub deserialize_session : Saved D → Session
  deserialize_session r = record {
    session_id = r.session_id;
    course = get_or "" r.course;
    topic = get_or "" r.topic;
    state = get_or created r.state;
    explanation = get_or "" r.explanation;
    sources = map codec.validate_source (get_or [] r.sources);
    questions = map deserialize_question (get_or [] r.questions);
    current_index = get_or 0 r.current_index;
    score = r.score;
    last_evaluation = Option.map codec.validate_evaluation r.last_evaluation;
    remediation = get_or no_remediation r.remediation;
    review = r.review;
    tool_trace = map codec.validate_step (get_or [] r.tool_trace);
    last_answer_normalized = get_or [] r.last_answer_normalized;
    answer_records = get_or [] r.answer_records;
  }
