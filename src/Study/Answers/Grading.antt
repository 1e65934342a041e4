-- ===== src/Study/Answers/Grading.antt =====
-- A graded answer keeps a session well-formed, on every branch.
use study_assistance_agent.Prelude.{
  ℕ, ◌+◌, String, ◌≡◌, refl, inl, inr, true, false, none, some, List, arith, ltb, length,
  length-append, Bool-cases,
}
use study_assistance_agent.Study.{evaluating, max_attempts, Texts, QuestionState, AnswerEvaluation}
use study_assistance_agent.Study.Grader.{evaluate_answer}
use study_assistance_agent.Study.Answers.{
  Desk, trace, question_at, record_attempt, accept, retry, give_up, grade,
}
use study_assistance_agent.Study.Answers.Quiz.{
  is_done, is_open, IsRun, IsNumbered, total_attempts, set_question-IsRun, set_question-IsNumbered,
  set_question-length, set_question-attempt,
}
use study_assistance_agent.Study.Answers.Steps.{IsGraded, set_question-quiz_of, finishing-IsGraded}

open-done :
    (q p : QuestionState)
    → is_open q ≡ true
    → p.correct ≡ some true
    → p.attempt_count ≡ q.attempt_count + 1
    → is_done p ≡ true
open-done q p o c a = ground arith

open-given_up :
    (q p : QuestionState)
    → is_open q ≡ true
    → p.correct ≡ some false
    → p.attempt_count ≡ q.attempt_count + 1
    → ltb p.attempt_count max_attempts ≡ false
    → is_done p ≡ true
open-given_up q p o c a l = ground arith

open-retried :
    (q p : QuestionState)
    → is_open q ≡ true
    → p.correct ≡ some false
    → p.attempt_count ≡ q.attempt_count + 1
    → ltb p.attempt_count max_attempts ≡ true
    → is_open p ≡ true
open-retried q p o c a l = ground arith

module _ (texts : Texts) (now : ℕ) (normalized : List ℕ) (evaluation : AnswerEvaluation) (d : Desk)
    (q p : QuestionState) (run : IsRun d.session.current_index d.session.questions)
    (fresh : d.session.review ≡ none) (numbered : IsNumbered 1 d.session.questions)
    (recorded : length d.session.answer_records ≡ total_attempts d.session.questions)
    (at : question_at d.session.current_index d.session.questions ≡ some q)
    (current : is_open q ≡ true) (same_id : p.id ≡ q.id) (same_question : p.question ≡ q.question)
    (counted : p.attempt_count ≡ q.attempt_count + 1) where
  accept-IsGraded : IsGraded now d (accept now p normalized evaluation d)
  unfolding accept record_attempt
  accept-IsGraded =
      finishing-IsGraded now d _ (record p { correct = some true }) q run numbered recorded at
        (record {
          done = open-done q (record p { correct = some true }) current refl counted;
          same_id = same_id;
          same_question = same_question;
          counted = counted;
          questions = refl;
          index = refl;
          entry = _;
          records = refl;
          entry_id = same_id;
          entry_count = counted;
          review = fresh;
          session_id = refl;
          course = refl;
          history = refl;
        })

  give_up-IsGraded :
      p.correct ≡ some false
      → ltb p.attempt_count max_attempts ≡ false
      → IsGraded now d (give_up now p normalized evaluation d)
  unfolding give_up record_attempt trace
  give_up-IsGraded wrong l = finishing-IsGraded now d _ p q run numbered recorded at (record {
    done = open-given_up q p current wrong counted l;
    same_id = same_id;
    same_question = same_question;
    counted = counted;
    questions = refl;
    index = refl;
    entry = _;
    records = refl;
    entry_id = same_id;
    entry_count = counted;
    review = fresh;
    session_id = refl;
    course = refl;
    history = refl;
  })

  retry-IsGraded :
      p.correct ≡ some false
      → ltb p.attempt_count max_attempts ≡ true
      → IsGraded now d (retry texts p normalized evaluation d)
  unfolding retry record_attempt trace
  retry-IsGraded wrong l =
      let i = d.session.current_index in
      let qs = d.session.questions in
      let (more, fewer) = set_question-attempt i p q qs run at counted in
      record {
        study = record {
          run = inl (
            refl,
            (set_question-IsRun i p qs run (open-retried q p current wrong counted l), fresh),
          );
          numbered = set_question-IsNumbered i 1 p q qs at same_id numbered;
          recorded = omega (arith, length-append d.session.answer_records, recorded, more);
        };
        attempts = more;
        left = fewer;
        size = set_question-length i p qs;
        same_questions = set_question-quiz_of i p q qs at same_question;
        entry = _;
        records = refl;
        entry_of = (q, at, same_id, counted);
        same_id = refl;
        same_course = refl;
        logged = inl (refl, refl);
      }

module _ (texts : Texts) (now : ℕ) (answer : String) (normalized : List ℕ) (d : Desk)
    (q : QuestionState) (run : IsRun d.session.current_index d.session.questions)
    (fresh : d.session.review ≡ none) (numbered : IsNumbered 1 d.session.questions)
    (recorded : length d.session.answer_records ≡ total_attempts d.session.questions)
    (at : question_at d.session.current_index d.session.questions ≡ some q)
    (current : is_open q ≡ true) where
  abbrev pub evaluated : Desk
  evaluated = record d {
    session =
        trace "evaluate" "StudySessionService" "ok" 1 evaluating
          (record d.session { state = evaluating; last_answer_normalized = normalized });
  }

  abbrev attempted : QuestionState
  attempted = record q { attempt_count = q.attempt_count + 1 }

  -- Only the state, the trace and the last answer differ.
  from_evaluated : (d' : Desk) → IsGraded now evaluated d' → IsGraded now d d'
  unfolding trace
  from_evaluated d' g = record {
    study = g.study;
    attempts = g.attempts;
    left = g.left;
    size = g.size;
    same_questions = g.same_questions;
    entry = g.entry;
    records = g.records;
    entry_of = g.entry_of;
    same_id = g.same_id;
    same_course = g.same_course;
    logged = g.logged;
  }

  pub grade-IsGraded : IsGraded now d (grade texts now answer normalized attempted d)
  unfolding grade trace
  grade-IsGraded =
      let e = record (evaluate_answer texts answer q.question d.session.explanation) {
        question_id = q.id;
        attempt_count = q.attempt_count + 1;
      } in
      elim (Bool-cases e.correct) [
        | inl c ↦
            rw (c, grade)
              (from_evaluated _ (
                accept-IsGraded texts now normalized _ evaluated q attempted run fresh numbered
                  recorded at current refl refl refl))
        | inr c ↦ elim (Bool-cases (ltb (q.attempt_count + 1) max_attempts)) [
          | inl l ↦
              rw (c, grade, l)
                (from_evaluated _ (
                  retry-IsGraded texts now normalized _ evaluated q
                    (record attempted { correct = some false }) run fresh numbered recorded at
                    current refl refl refl refl l))
          | inr l ↦
              rw (c, grade, l)
                (from_evaluated _ (
                  give_up-IsGraded texts now normalized _ evaluated q
                    (record attempted { correct = some false }) run fresh numbered recorded at
                    current refl refl refl refl l))
        ]
      ]
