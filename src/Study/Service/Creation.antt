-- ===== src/Study/Service/Creation.antt =====
-- What `create` makes: a session as `submit_answer` expects it, on every branch.
use study_assistance_agent.Prelude.{
  ℕ, suc, String, ◌≡◌, refl, sym, subst, ap, ◌∙◌, ◌⊎◌, inl, inr, Option, none, some, List, [], ◌∷◌,
  arith, length, find_row, eq_iff, Option-cases,
}
use study_assistance_agent.Prelude.Tables.Keys.{at_key, find_row-put_row}
use study_assistance_agent.Exec.{Result, ok, err, service_failed}
use study_assistance_agent.Study.{explaining, Texts, QuizQuestion, Source, AnswerRecord, Session}
use study_assistance_agent.Study.Selection.{Services, select_questions}
use study_assistance_agent.Study.Saved.{Codec}
use study_assistance_agent.Study.Answers.{Desk, trace, complete, add_review}
use study_assistance_agent.Study.Answers.Quiz.{AreFresh, IsRun, IsNumbered, total_attempts}
use study_assistance_agent.Study.Answers.Steps.{IsStudy}
use study_assistance_agent.Study.Service.{
  World, CreateRequest, remember, persist, require, number_questions, new_session, explain,
  start_quiz, finish_create, create,
}

number_questions-AreFresh : (n : ℕ) (xs : List QuizQuestion) → AreFresh (number_questions n xs)
unfolding number_questions
number_questions-AreFresh n [] = tt
number_questions-AreFresh n (x ∷ xs) = (refl, number_questions-AreFresh (suc n) xs)

number_questions-IsNumbered :
    (n : ℕ) (xs : List QuizQuestion) → IsNumbered n (number_questions n xs)
unfolding number_questions
number_questions-IsNumbered n [] = tt
number_questions-IsNumbered n (x ∷ xs) = (refl, number_questions-IsNumbered (suc n) xs)

number_questions-attempts :
    (n : ℕ) (xs : List QuizQuestion) → total_attempts (number_questions n xs) ≡ 0
unfolding number_questions
number_questions-attempts n [] = refl
number_questions-attempts n (x ∷ xs) = omega (arith, number_questions-attempts (suc n) xs)

start_quiz-IsStudy :
    (now : ℕ) (xs : List QuizQuestion) (d : Desk)
    → d.session.review ≡ none
    → d.session.current_index ≡ 0
    → d.session.answer_records ≡ []
    → IsStudy (start_quiz now xs d).session
unfolding start_quiz complete add_review trace number_questions
start_quiz-IsStudy now [] d review index records =
    rw (review, add_review)
      (record {
        run = inr (refl, (tt, refl));
        numbered = tt;
        recorded = ap (λ (z : List AnswerRecord). length z) records;
      })
start_quiz-IsStudy now (x ∷ xs) d review index records = record {
  run = inl (
    refl,
    (
      subst (λ i. IsRun i (number_questions 1 (x ∷ xs))) (sym index)
          (refl, number_questions-AreFresh 2 xs),
      review,
    ),
  );
  numbered = number_questions-IsNumbered 1 (x ∷ xs);
  recorded =
      ap (λ (z : List AnswerRecord). length z) records ∙ sym (number_questions-attempts 1 (x ∷ xs));
}

-- The QA service has answered, and the selection of the questions ended with `selected`.
abbrev pub IsServed : Texts → Services → CreateRequest → Option (List QuizQuestion) → Type 0
IsServed texts services request selected =
    (answer : String) × (sources : List Source) × (services.answer (texts.strip request.topic)
        request.course request.use_llm
      ≡ some (answer, sources))
    × (select_questions texts services request.course (texts.strip request.topic) sources
          request.question_count
        ≡ selected)

-- A session is there for its id, and it is well-formed, with the selected questions; or a service has
-- failed, and the session stays in the memory without questions.
abbrev pub IsCreated :
    {D : Type 0}
    → Codec D
    → Texts
    → Services
    → CreateRequest
    → String
    → Result Session × World D
    → Type 0
IsCreated codec texts services request id (ok s, w) =
    IsStudy s
    × (s.session_id ≡ id)
    × ((require codec id w).0 ≡ ok s)
    × ((selected : List QuizQuestion) × (s.questions ≡ number_questions 1 selected)
        × IsServed texts services request (some selected))
IsCreated codec texts services request id (err c, w) =
    (c ≡ service_failed)
    × ((services.answer (texts.strip request.topic) request.course request.use_llm ≡ none)
        ⊎ IsServed texts services request none)
    × ((s : Session) × (s.questions ≡ [])
        × (s.state ≡ explaining)
        × ((require codec id w).0 ≡ ok s))

module _ {D : Type 0} (codec : Codec D) where
  -- What is remembered is found.
  require-remember :
      (s : Session) (w v : World D)
      → v.memory ≡ (remember codec s w).memory
      → (require codec s.session_id v).0 ≡ ok s
  unfolding require
  require-remember s w v e =
      let found =
        ap (λ z. find_row (at_key (λ x. x.session_id) s.session_id) z) e
        ∙ find_row-put_row (λ x. x.session_id) s.session_id s w.memory in
      let own = (eq_iff s.session_id s.session_id).1 refl in
      let there : find_row (at_key (λ x. x.session_id) s.session_id) v.memory ≡ some s =
        rw (found, own) refl in
      rw (there, require) refl

  module _ (texts : Texts) (now : ℕ) where
    start_quiz-id :
        (xs : List QuizQuestion) (d : Desk)
        → (start_quiz now xs d).session.session_id ≡ d.session.session_id
    unfolding start_quiz complete add_review trace
    start_quiz-id [] d = elim (Option-cases d.session.review) [
      | inl h ↦ rw (h, add_review) refl
      | inr (r, h) ↦ rw (h, add_review) refl
    ]
    start_quiz-id (x ∷ xs) d = refl

    start_quiz-questions :
        (xs : List QuizQuestion) (d : Desk)
        → (start_quiz now xs d).session.questions ≡ number_questions 1 xs
    unfolding start_quiz complete add_review trace number_questions
    start_quiz-questions [] d = elim (Option-cases d.session.review) [
      | inl h ↦ rw (h, add_review) refl
      | inr (r, h) ↦ rw (h, add_review) refl
    ]
    start_quiz-questions (x ∷ xs) d = refl

    persist-memory : (s : Session) (w : World D) → (persist codec s w).memory ≡ w.memory
    unfolding persist
    persist-memory s w = refl

    finish_create-IsCreated :
        (services : Services) (request : CreateRequest) (s : Session)
        (selected : Option (List QuizQuestion)) (w : World D)
        → IsServed texts services request selected
        → s.review ≡ none
        → s.current_index ≡ 0
        → s.answer_records ≡ []
        → s.questions ≡ []
        → s.state ≡ explaining
        → IsCreated codec texts services request s.session_id
            (finish_create codec texts now s selected w)
    finish_create-IsCreated services request s none w served review index records questions state =
        (refl, inr served, (s, questions, state, require-remember s w (remember codec s w) refl))
    finish_create-IsCreated services request s (some xs) w served review index records questions
          state =
        let d = start_quiz now xs (record { session = s; history = w.history }) in
        let same = start_quiz-id xs (record { session = s; history = w.history }) in
        (
          start_quiz-IsStudy now xs (record { session = s; history = w.history }) review index
              records,
          same,
          subst
              (λ id.
                (require codec id (finish_create codec texts now s (some xs) w).1).0 ≡ ok d.session)
              same
              (require-remember d.session w (finish_create codec texts now s (some xs) w).1 (
                persist-memory d.session
                  (record (remember codec d.session w) { history = d.history }))),
          (xs, start_quiz-questions xs (record { session = s; history = w.history }), served),
        )

    create_answered :
        (services : Services) (id : String) (request : CreateRequest) (w : World D)
        (both : String × List Source)
        → services.answer (texts.strip request.topic) request.course request.use_llm ≡ some both
        → let s = record (new_session texts id request.course request.topic) {
          state = explaining;
        } in
          let explained = explain both.0 both.1 s in
          create codec texts services id now request w
          ≡ finish_create codec texts now explained
              (select_questions texts services explained.course explained.topic explained.sources
                request.question_count)
              w
    unfolding create new_session
    create_answered services id request w both h = rw (h, create) refl

    -- `create` ends in one of two ways. No service has failed: the session is well-formed, has the
    -- questions that were selected, none of them or more, and a request right after finds it. Or a
    -- service has failed: a session without questions stays in the memory, and is found right after.
    pub create-IsCreated :
        (services : Services) (id : String) (request : CreateRequest) (w : World D)
        → IsCreated codec texts services request id (create codec texts services id now request w)
    unfolding create new_session explain trace
    create-IsCreated services id request w =
        let s = record (new_session texts id request.course request.topic) { state = explaining } in
        elim (Option-cases
          (services.answer (texts.strip request.topic) request.course request.use_llm)) [
            | inl h ↦
                rw (h, create)
                  (refl, inl h, (s, refl, refl, require-remember s w (remember codec s w) refl))
            | inr (both, h) ↦
                let explained = explain both.0 both.1 s in
                let selected =
                  select_questions texts services explained.course explained.topic explained.sources
                    request.question_count in
                subst (λ r. IsCreated codec texts services request id r)
                  (sym (create_answered services id request w both h))
                  (finish_create-IsCreated services request explained selected w
                    (both.0, both.1, h, refl) refl refl refl refl refl)
          ]
