-- ===== src/Study/Answers/Tests.antt =====
-- A session with two questions.
use study_assistance_agent.Prelude.{
  ℕ, String, ◌≡◌, refl, inl, Bool, false, not, ◌&&◌, none, some, List, [], ◌∷◌, ◌==◌, select,
}
use study_assistance_agent.Exec.{err, illegal_session_state}
use study_assistance_agent.Study.{
  is_answerable, awaiting_answer, completed, Texts, QuizQuestion, QuestionState, no_remediation,
  Session,
}
use study_assistance_agent.Study.Grader.{
  evaluate_answer, is_correct, codes, normalize, is_empty, same_text,
}
use study_assistance_agent.Study.Answers.{
  answer_question, grade, accept, advance_or_complete, set_question, retry, give_up, tenths_of,
  Desk, is_repeat, submit_answer,
}
use study_assistance_agent.Study.Answers.Steps.{IsStudy}
use study_assistance_agent.Study.Answers.Runs.{Submission, submit_all}
use study_assistance_agent.Study.Answers.Clients.{drive, drive-completes}

abbrev texts : Texts
texts = record { is_space = λ c. c == 32; lower = λ cs. cs; strip = λ s. s; collapse = codes }

abbrev quiz : String → QuizQuestion
quiz answer = record {
  question = "what is it?";
  type = "concept";
  answer = answer;
  source_file = "os/a.md";
  source_title = "";
  tags = [];
  difficulty = "easy";
}

abbrev fresh : ℕ → String → QuestionState
fresh id answer = record { id = id; question = quiz answer; attempt_count = 0; correct = none }

abbrev two_questions : Session
two_questions = record {
  session_id = "s1";
  course = "os";
  topic = "locks";
  state = awaiting_answer;
  explanation = "";
  sources = [];
  questions = fresh 1 "a spin lock" ∷ fresh 2 "a mutex" ∷ [];
  current_index = 0;
  score = none;
  last_evaluation = none;
  remediation = no_remediation;
  review = none;
  tool_trace = [];
  last_answer_normalized = [];
  answer_records = [];
}

abbrev desk : Desk
desk = record { session = two_questions; history = [] }

abbrev two_questions-IsStudy : IsStudy two_questions
two_questions-IsStudy = record {
  run = inl (refl, ((refl, (refl, tt)), refl));
  numbered = (refl, (refl, tt));
  recorded = refl;
}

-- A right answer, the same answer to the next question, and two wrong ones.
abbrev answers : List Submission
answers =
    record { now = 1; question_id = some 1; answer = "spin lock" }
    ∷ record { now = 2; question_id = some 1; answer = "spin lock" }
    ∷ record { now = 3; question_id = some 2; answer = "zzz" }
    ∷ record { now = 4; question_id = none; answer = "yyy" }
    ∷ []

-- The session that these answers leave: completed, with 10 and 0 tenths.
final_state : (submit_all texts answers desk).session.state ≡ completed
unfolding submit_all submit_answer is_answerable answer_question grade evaluate_answer is_correct
    select accept advance_or_complete set_question retry give_up
final_state = refl

final_score :
    (submit_all texts answers desk).session.score ≡ some (record { tenths = 10; finished = 2 })
unfolding submit_all submit_answer is_answerable answer_question grade evaluate_answer is_correct
    select accept advance_or_complete set_question retry give_up tenths_of
final_score = refl

other_question : submit_answer texts 1 (some 2) "spin lock" desk ≡ (err illegal_session_state, desk)
unfolding submit_answer is_answerable answer_question
other_question = refl

empty_answer :
    (last : List ℕ) (b : Bool) → (not (is_empty last) && (same_text last [] && b)) ≡ false
empty_answer [] b = refl
empty_answer (c ∷ cs) b = refl

never_repeats : (s : Session) (q : QuestionState) → is_repeat (normalize texts ".") q s ≡ false
unfolding is_repeat normalize select
never_repeats s q =
    empty_answer s.last_answer_normalized
      (elim s.last_evaluation [ none ↦ false | some e ↦ e.question_id == q.id ])

drive-completes_example : (drive texts (λ s. ".") 7 4 desk).session.state ≡ completed
drive-completes_example =
    drive-completes texts (λ s. ".") 7 never_repeats desk two_questions-IsStudy
