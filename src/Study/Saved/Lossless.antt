-- ===== src/Study/Saved/Lossless.antt =====
-- The record of a session, written and read back.
use mathlib.Core.Option
use study_assistance_agent.Prelude.{◌≡◌, refl, Option, none, some, List, [], ◌∷◌, map}
use study_assistance_agent.Study.{QuizQuestion, Source, AnswerEvaluation, TraceStep, Session}
use study_assistance_agent.Study.Saved.{
  Codec, serialize_question, deserialize_question, serialize_session, deserialize_session,
}

-- `model_validate` reads what `model_dump` wrote.
pub record IsLossless {D : Type 0} (codec : Codec D) : Type 0 where
  pub questions : (x : QuizQuestion) → codec.validate_question (codec.dump_question x) ≡ x
  pub sources : (x : Source) → codec.validate_source (codec.dump_source x) ≡ x
  pub evaluations : (x : AnswerEvaluation) → codec.validate_evaluation (codec.dump_evaluation x) ≡ x
  pub steps : (x : TraceStep) → codec.validate_step (codec.dump_step x) ≡ x

map-inverse {ℓ} :
    {A B : Type ℓ} (f : A → B) (g : B → A)
    → ((x : A) → g (f x) ≡ x)
    → (xs : List A) → map g (map f xs) ≡ xs
map-inverse f g h [] = refl
map-inverse f g h (x ∷ xs) = cc (h x, map-inverse f g h xs)

Option-inverse {ℓ} :
    {A B : Type ℓ} (f : A → B) (g : B → A)
    → ((x : A) → g (f x) ≡ x)
    → (o : Option A) → Option.map g (Option.map f o) ≡ o
Option-inverse f g h none = refl
Option-inverse f g h (some x) = cc (h x)

module _ {D : Type 0} (codec : Codec D) (lossless : IsLossless codec) where
  -- What `serialize_session` writes, `deserialize_session` reads: the session is the same in every
  -- field. The condition is that the models' own dumps are lossless.
  pub deserialize-serialize :
      (s : Session) → deserialize_session codec (serialize_session codec s) ≡ s
  unfolding deserialize_session serialize_session
  deserialize-serialize s =
      let questions =
        map-inverse (serialize_question codec) (deserialize_question codec)
          (λ q. cc (lossless.questions q.question)) s.questions in
      let sources =
        map-inverse codec.dump_source codec.validate_source lossless.sources s.sources in
      let steps = map-inverse codec.dump_step codec.validate_step lossless.steps s.tool_trace in
      let evaluation =
        Option-inverse codec.dump_evaluation codec.validate_evaluation lossless.evaluations
          s.last_evaluation in
      cc (questions, sources, steps, evaluation)
