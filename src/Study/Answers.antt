-- ===== src/Study/Answers.antt =====
-- `submit_answer` of platform/app/study_session.py on the session's object, with the review history
-- that a completed session is logged in: one action for the whole method. `now` is the time of the
-- review.
pub mod Quiz
pub mod Steps
pub mod Grading
pub mod Guards
pub mod Submissions
pub mod Runs
pub mod Clients
mod Tests
use study_assistance_agent.Prelude.{
  ℕ, zero, suc, ◌+◌, String, str_eq, ◌+++◌, Bool, true, false, not, ◌&&◌, ◌||◌, Option, none, some,
  List, [], ◌∷◌, ◌++◌, if◌then◌else◌, ltb, leb, ◌==◌, length, is_some, select,
}
use study_assistance_agent.Exec.{Exec, ok, err, illegal_session_state, index_error}
use study_assistance_agent.Review.{Review, log_review}
use study_assistance_agent.Study.{
  SessionState, awaiting_answer, evaluating, remediation, completed, is_answerable, max_attempts,
  Texts, Source, QuestionState, AnswerEvaluation, Remediation, no_remediation, TraceStep,
  AnswerRecord, Score, Session,
}
use study_assistance_agent.Study.Grader.{normalize, is_empty, same_text, evaluate_answer}
use study_assistance_agent.Study.Hints.{hint, give_full}

-- A session's object, and the review history.
pub record Desk : Type 0 where
  pub session : Session
  pub history : List Review

-- What an answer is worth, in tenths.
unfoldable pub tenths_of : QuestionState → ℕ
tenths_of q = elim q.correct [
  | none ↦ 0
  | some c ↦ if c && leb q.attempt_count 1 then 10 else if c then 6 else 0
]

abbrev pub total_tenths : List QuestionState → ℕ
total_tenths [] = 0
total_tenths (q ∷ qs) = tenths_of q + total_tenths qs

unfoldable pub session_score : List QuestionState → Option Score
session_score questions =
    let finished = select (λ q. is_some q.correct) questions in
    if length finished == 0
    then none
    else some (record { tenths = total_tenths finished; finished = length finished })

unfoldable pub trace : String → String → String → ℕ → SessionState → Session → Session
trace step service status result_count state_after s = record s {
  tool_trace =
      s.tool_trace
      ++ record {
        step = step;
        service = service;
        status = status;
        result_count = result_count;
        state_after = state_after;
      }
        ∷ [];
}

abbrev pub first_file : List Source → String
first_file [] = ""
first_file (s ∷ ss) = s.file

abbrev pub question_file : List QuestionState → String
question_file [] = ""
question_file (q ∷ qs) = q.question.source_file

abbrev pub has_sources : List Source → Bool
has_sources [] = false
has_sources (s ∷ ss) = true

-- The file of `_log_review`.
unfoldable pub review_file : Session → String
review_file s =
    let file = if has_sources s.sources then first_file s.sources else question_file s.questions in
    if str_eq file "" then "knowledge/" +++ (s.course +++ ("/" +++ (s.topic +++ ".md"))) else file

unfoldable pub add_review : ℕ → Desk → Desk
unfolding review_file
add_review now d =
    let logged =
      log_review
        (record {
          file = review_file d.session;
          course = d.session.course;
          source_session_id = some d.session.session_id;
        })
        now d.history in
    if is_some d.session.review
    then d
    else record { session = record d.session { review = some logged.0 }; history = logged.1 }

unfoldable pub complete : ℕ → Desk → Desk
unfolding session_score add_review trace
complete now d =
    let reviewed =
      add_review now
        (record d { session = record d.session { score = session_score d.session.questions } }) in
    record reviewed {
      session =
          trace "review-log" "ReviewSchedulerService" "ok" 1 completed
            (record reviewed.session { state = completed });
    }

unfoldable pub advance_or_complete : ℕ → Desk → Desk
unfolding session_score complete trace
advance_or_complete now d =
    let s = record d.session { score = session_score d.session.questions } in
    if ltb (s.current_index + 1) (length s.questions)
    then record d {
      session =
          trace "next-question" "StudySessionService" "ok" 1 awaiting_answer
            (record s { current_index = s.current_index + 1; state = awaiting_answer });
    }
    else complete now (record d { session = s })

-- The question at an index, and the list with another there.
unfoldable pub question_at : ℕ → List QuestionState → Option QuestionState
question_at i [] = none
question_at zero (q ∷ qs) = some q
question_at (suc i) (q ∷ qs) = question_at i qs

unfoldable pub set_question : ℕ → QuestionState → List QuestionState → List QuestionState
set_question i p [] = []
set_question zero p (q ∷ qs) = p ∷ qs
set_question (suc i) p (q ∷ qs) = q ∷ set_question i p qs

abbrev pub set_current : QuestionState → Session → Session
set_current q s = record s { questions = set_question s.current_index q s.questions }

-- `_record_attempt`
unfoldable pub record_attempt : QuestionState → List ℕ → AnswerEvaluation → Session → Session
record_attempt q normalized evaluation s = record s {
  answer_records =
      s.answer_records
      ++ record {
        question_id = q.id;
        attempt_count = q.attempt_count;
        answer_normalized = normalized;
        correct = evaluation.correct;
        feedback = evaluation.feedback;
      }
        ∷ [];
}

-- The answer is correct.
unfoldable pub accept : ℕ → QuestionState → List ℕ → AnswerEvaluation → Desk → Desk
unfolding record_attempt
accept now q normalized evaluation d =
    let q' = record q { correct = some true } in
    advance_or_complete now (record d {
      session = record_attempt q' normalized evaluation (record (set_current q' d.session) {
        remediation = no_remediation;
        last_evaluation = some evaluation;
      });
    })

-- It is not, and there is another attempt.
unfoldable pub retry : Texts → QuestionState → List ℕ → AnswerEvaluation → Desk → Desk
unfolding record_attempt trace
retry texts q normalized evaluation d =
    let e = record evaluation { reference_answer = "" } in
    let recorded =
      record_attempt q normalized e
        (record (set_current q d.session) { last_evaluation = some e }) in
    let hinted = trace "remediation" "StudySessionService" "ok" 1 remediation (record recorded {
      remediation = hint texts q.question d.session.explanation;
      state = remediation;
    }) in
    record d {
      session =
          trace "retry" "StudySessionService" "ok" 1 awaiting_answer
            (record hinted { state = awaiting_answer });
    }

-- It is not, and that was the last attempt.
unfoldable pub give_up : ℕ → QuestionState → List ℕ → AnswerEvaluation → Desk → Desk
unfolding record_attempt trace
give_up now q normalized evaluation d =
    let explanation = d.session.explanation in
    let e = record evaluation {
      reference_answer = if str_eq q.question.answer "" then explanation else q.question.answer;
    } in
    let told = record (set_current q d.session) {
      remediation = give_full q.question explanation;
      last_evaluation = some e;
    } in
    advance_or_complete now (record d {
      session =
          trace "remediation" "StudySessionService" "ok" 1 remediation
            (record_attempt q normalized e told);
    })

-- The branches after the evaluation of the current question, whose attempt has been counted.
unfoldable pub grade : Texts → ℕ → String → List ℕ → QuestionState → Desk → Desk
unfolding trace
grade texts now answer normalized q d =
    let evaluation = record (evaluate_answer texts answer q.question d.session.explanation) {
      question_id = q.id;
      attempt_count = q.attempt_count;
    } in
    let evaluated = record d {
      session =
          trace "evaluate" "StudySessionService" "ok" 1 evaluating
            (record d.session { state = evaluating; last_answer_normalized = normalized });
    } in
    let wrong = record q { correct = some false } in
    if evaluation.correct
    then accept now q normalized evaluation evaluated
    else if ltb q.attempt_count max_attempts
    then retry texts wrong normalized evaluation evaluated
    else give_up now wrong normalized evaluation evaluated

-- The answer that was evaluated last, to the same question.
unfoldable pub is_repeat : List ℕ → QuestionState → Session → Bool
is_repeat normalized q s =
    not (is_empty s.last_answer_normalized)
    && (same_text s.last_answer_normalized normalized
        && elim s.last_evaluation [ none ↦ false | some e ↦ e.question_id == q.id ])

abbrev pub is_other : Option ℕ → QuestionState → Bool
is_other none q = false
is_other (some id) q = not (id == q.id)

-- The current question is known. The result is whether the session was changed, and is saved.
unfoldable pub answer_question : Texts → ℕ → Option ℕ → String → QuestionState → Exec Desk Bool
unfolding is_repeat
answer_question texts now question_id answer q d =
    let normalized = normalize texts answer in
    if is_other question_id q
    then (err illegal_session_state, d)
    else if is_repeat normalized q d.session
    then (ok false, d)
    else (
      ok true,
      grade texts now answer normalized (record q { attempt_count = q.attempt_count + 1 }) d,
    )

unfoldable pub submit_answer : Texts → ℕ → Option ℕ → String → Exec Desk Bool
unfolding question_at
submit_answer texts now question_id answer d =
    if not (is_answerable d.session.state) || length d.session.questions == 0
    then (err illegal_session_state, d)
    else elim (question_at d.session.current_index d.session.questions) [
      | none ↦ (err index_error, d)
      | some q ↦ answer_question texts now question_id answer q d
    ]
