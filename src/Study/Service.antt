-- ===== src/Study/Service.antt =====
-- The methods of `StudySessionService` (platform/app/study_session.py) around `submit_answer`:
-- `create`, `get`, `_require` and `_persist`. The memory is the dictionary `_sessions`; the
-- repository, where there is one, holds the saved records. What `create` and `submit_answer` return is
-- the session, which `to_response` then shows.
mod Restart
mod Creation
mod Tests
use mathlib.Core.Option
use study_assistance_agent.Prelude.{
  ℕ, zero, suc, ◌+◌, String, str_eq, Bool, true, false, not, ◌&&◌, ◌||◌, Option, none, some, List,
  [], ◌∷◌, ◌++◌, map, if◌then◌else◌, ◌==◌, length, is_some, find_row,
}
use study_assistance_agent.Prelude.Tables.Keys.{at_key, put_row}
use study_assistance_agent.Exec.{
  Exec, Result, ok, err, session_not_found, service_failed, lift, ◌>>=◌,
}
use study_assistance_agent.Review.{Review}
use study_assistance_agent.Study.{
  SessionState, created, explaining, awaiting_answer, completed, Texts, QuizQuestion, Source,
  QuestionState, AnswerEvaluation, Remediation, no_remediation, TraceStep, AnswerRecord, Score,
  Session, is_answerable,
}
use study_assistance_agent.Study.Selection.{Services, select_questions}
use study_assistance_agent.Study.Saved.{Codec, Saved, serialize_session, deserialize_session}
use study_assistance_agent.Study.Responses.{StudySessionResponse, to_response}
use study_assistance_agent.Study.Answers.{Desk, trace, complete, question_at, submit_answer}

pub record World (D : Type 0) : Type 0 where
  pub memory : List Session
  pub repository : Option (List (Saved D))
  pub history : List Review

module _ {D : Type 0} (codec : Codec D) where
  abbrev pub remember : Session → World D → World D
  remember s w = record w { memory = put_row (λ x. x.session_id) s w.memory }

  -- `_persist`
  unfoldable pub persist : Session → World D → World D
  unfolding serialize_session put_row
  persist s w = record w {
    repository =
        Option.map (λ rows. put_row (λ x. x.session_id) (serialize_session codec s) rows)
          w.repository;
  }

  -- `self._session_repository.get(session_id)`, where there is a repository
  abbrev pub find_saved : String → World D → Option (Saved D)
  find_saved id w = elim w.repository [
    | none ↦ none
    | some rows ↦ find_row (at_key (λ r. r.session_id) id) rows
  ]

  -- `_require`
  unfoldable pub require : String → Exec (World D) Session
  unfolding deserialize_session put_row
  require id w = elim (find_row (at_key (λ s. s.session_id) id) w.memory) [
    | some s ↦ (ok s, w)
    | none ↦ elim (find_saved id w) [
      | some r ↦ (
        ok (deserialize_session codec r),
        record w { memory = put_row (λ x. x.session_id) (deserialize_session codec r) w.memory },
      )
      | none ↦ (err session_not_found, w)
    ]
  ]

-- The questions of a new session, `q{n}` and on.
unfoldable pub number_questions : ℕ → List QuizQuestion → List QuestionState
number_questions n [] = []
number_questions n (x ∷ xs) =
    record { id = n; question = x; attempt_count = 0; correct = none } ∷ number_questions (suc n) xs

-- A session whose object `create` has just made.
unfoldable pub new_session : Texts → String → String → String → Session
unfolding trace
new_session texts id course topic = trace "create" "StudySessionService" "ok" 1 created (record {
  session_id = id;
  course = course;
  topic = texts.strip topic;
  state = created;
  explanation = "";
  sources = [];
  questions = [];
  current_index = 0;
  score = none;
  last_evaluation = none;
  remediation = no_remediation;
  review = none;
  tool_trace = [];
  last_answer_normalized = [];
  answer_records = [];
})

-- The answer of the QA service is there.
unfoldable pub explain : String → List Source → Session → Session
unfolding trace
explain answer sources s = trace "explain" "StudySessionService" "ok" 1 explaining (
    trace "qa" "QaService" "ok" (length sources) explaining
      (record s { explanation = answer; sources = sources }))

-- The questions are there: the session waits, or is completed where there are none.
unfoldable pub start_quiz : ℕ → List QuizQuestion → Desk → Desk
unfolding number_questions trace complete
start_quiz now [] d = complete now (record d {
  session = trace "quiz" "QuizService" "fallback" 0 completed (record d.session { questions = [] });
})
start_quiz now (x ∷ xs) d =
    let questions = number_questions 1 (x ∷ xs) in
    record d {
      session =
          trace "quiz" "QuizService" "ok" (length questions) awaiting_answer
            (record d.session { questions = questions; state = awaiting_answer });
    }

pub record CreateRequest : Type 0 where
  pub course : String
  pub topic : String
  pub question_count : ℕ
  pub use_llm : Bool

module _ {D : Type 0} (codec : Codec D) (texts : Texts) where
  unfoldable pub get : String → Exec (World D) StudySessionResponse
  unfolding require ◌>>=◌ lift to_response
  get id = do s ← require codec id; lift (to_response s)

  -- The session's object is in the memory from the start, and stays there when a service raises.
  abbrev pub finish_create : ℕ → Session → Option (List QuizQuestion) → Exec (World D) Session
  finish_create now s none w = (err service_failed, remember codec s w)
  finish_create now s (some selected) w =
      let d = start_quiz now selected (record { session = s; history = w.history }) in
      (
        ok d.session,
        persist codec d.session (record (remember codec d.session w) { history = d.history }),
      )

  unfoldable pub create : Services → String → ℕ → CreateRequest → Exec (World D) Session
  unfolding new_session explain select_questions start_quiz persist put_row
  create services id now request w =
      let s = record (new_session texts id request.course request.topic) { state = explaining } in
      elim (services.answer s.topic s.course request.use_llm) [
        | none ↦ (err service_failed, remember codec s w)
        | some (answer, sources) ↦
            let explained = explain answer sources s in
            finish_create now explained
              (select_questions texts services explained.course explained.topic explained.sources
                request.question_count)
              w
      ]

  -- The world after `submit_answer` on the session's object.
  abbrev pub finish_submit : Result Bool × Desk → Exec (World D) Session
  finish_submit (err c, d) w = (err c, w)
  finish_submit (ok false, d) w = (ok d.session, w)
  finish_submit (ok true, d) w = (
    ok d.session,
    persist codec d.session (record (remember codec d.session w) { history = d.history }),
  )

  -- `submit_answer`
  unfoldable pub submit : ℕ → String → Option ℕ → String → Exec (World D) Session
  unfolding require submit_answer persist put_row ◌>>=◌
  submit now id question_id answer = do
    s ← require codec id
    λ w.
        finish_submit
          (submit_answer texts now question_id answer (record { session = s; history = w.history }))
          w
