-- ===== src/Study/Service/Tests.antt =====
-- A service with a repository, whose dumps are the models themselves, tagged.
use study_assistance_agent.Prelude.{
  String, ◌≡◌, refl, false, none, some, [], ◌∷◌, ◌==◌, find_row, arith,
}
use study_assistance_agent.Prelude.Tables.Keys.{at_key}
use study_assistance_agent.Exec.{err, service_failed}
use study_assistance_agent.Study.{
  awaiting_answer, explaining, Texts, QuizQuestion, Source, AnswerEvaluation, TraceStep,
  no_remediation, Session,
}
use study_assistance_agent.Study.Grader.{codes}
use study_assistance_agent.Study.Selection.{Services}
use study_assistance_agent.Study.Saved.{Codec, serialize_session, deserialize_session}
use study_assistance_agent.Study.Service.{World, CreateRequest, require, create, submit}
use study_assistance_agent.Study.Saved.Lossless.{IsLossless, deserialize-serialize}
use study_assistance_agent.Study.Service.Restart.{IsSynced, restart, submit-restart}
use study_assistance_agent.Study.Service.Creation.{IsCreated, create-IsCreated}

-- One kind of dictionary for each model.
data Dump : Type 0 where
  of_question : QuizQuestion → Dump
  of_source : Source → Dump
  of_evaluation : AnswerEvaluation → Dump
  of_step : TraceStep → Dump

abbrev no_question : QuizQuestion
no_question = record {
  question = "";
  type = "";
  answer = "";
  source_file = "";
  source_title = "";
  tags = [];
  difficulty = "";
}

abbrev no_evaluation : AnswerEvaluation
no_evaluation = record {
  question_id = 0;
  correct = false;
  score = 0;
  attempt_count = 0;
  feedback = "";
  reference_answer = "";
}

abbrev to_question : Dump → QuizQuestion
to_question (of_question x) = x
to_question _ = no_question

abbrev to_source : Dump → Source
to_source (of_source x) = x
to_source _ = record { file = ""; title = ""; course = ""; tags = [] }

abbrev to_evaluation : Dump → AnswerEvaluation
to_evaluation (of_evaluation x) = x
to_evaluation _ = no_evaluation

abbrev to_step : Dump → TraceStep
to_step (of_step x) = x
to_step _ = record {
  step = "";
  service = "";
  status = "";
  result_count = 0;
  state_after = explaining;
}

abbrev codec : Codec Dump
codec = record {
  dump_question = of_question;
  validate_question = to_question;
  dump_source = of_source;
  validate_source = to_source;
  dump_evaluation = of_evaluation;
  validate_evaluation = to_evaluation;
  dump_step = of_step;
  validate_step = to_step;
}

abbrev codec-IsLossless : IsLossless codec
codec-IsLossless = record {
  questions = λ x. refl;
  sources = λ x. refl;
  evaluations = λ x. refl;
  steps = λ x. refl;
}

abbrev texts : Texts
texts = record { is_space = λ c. c == 32; lower = λ cs. cs; strip = λ s. s; collapse = codes }

abbrev lock_question : QuizQuestion
lock_question = record no_question { question = "what is a spin lock?"; answer = "a busy wait" }

abbrev services : Services
services = record {
  answer = λ topic course use_llm. some ("locks exclude", []);
  generate = λ course n tags. some (lock_question ∷ []);
}

abbrev failing_services : Services
failing_services = record services { answer = λ topic course use_llm. none }

abbrev request : CreateRequest
request = record { course = "os"; topic = "locks"; question_count = 1; use_llm = false }

abbrev empty_world : World Dump
empty_world = record { memory = []; repository = some []; history = [] }

abbrev waiting : Session
waiting = record {
  session_id = "s1";
  course = "os";
  topic = "locks";
  state = awaiting_answer;
  explanation = "locks exclude";
  sources = [];
  questions = record { id = 1; question = lock_question; attempt_count = 0; correct = none } ∷ [];
  current_index = 0;
  score = none;
  last_evaluation = none;
  remediation = no_remediation;
  review = none;
  tool_trace = [];
  last_answer_normalized = [];
  answer_records = [];
}

-- The session is in the repository only.
abbrev saved_world : World Dump
saved_world = record empty_world { repository = some (serialize_session codec waiting ∷ []) }

absurd_option : (s : Session) → none ≡ some s → ⊥
absurd_option s h = ground arith

nothing_found :
    (id : String) (s : Session)
    → find_row (at_key (λ (x : Session). x.session_id) id) [] ≡ some s
    → ⊥
unfolding find_row
nothing_found id s h = absurd_option s h

saved_world-IsSynced : IsSynced codec saved_world
saved_world-IsSynced id s found = absurd (nothing_found id s found)

deserialize-serialize_example :
    deserialize_session codec (serialize_session codec waiting) ≡ waiting
deserialize-serialize_example = deserialize-serialize codec codec-IsLossless waiting

submit-restart_example :
    let w = (submit codec texts 7 "s1" none "busy wait" saved_world).1 in
    (require codec "s1" (restart w)).0 ≡ (require codec "s1" w).0
submit-restart_example =
    submit-restart codec codec-IsLossless texts 7 "s1" none "busy wait"
      (serialize_session codec waiting ∷ []) saved_world refl saved_world-IsSynced "s1"

create-IsCreated_example :
    IsCreated codec texts services request "s2"
      (create codec texts services "s2" 7 request empty_world)
create-IsCreated_example = create-IsCreated codec texts 7 services "s2" request empty_world

create_fails :
    (create codec texts failing_services "s2" 7 request empty_world).0 ≡ err service_failed
unfolding create
create_fails = refl
