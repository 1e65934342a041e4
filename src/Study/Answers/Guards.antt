-- ===== src/Study/Answers/Guards.antt =====
-- The conditions of `answer_question`: whose answer it is, and whether it is a repetition.
use study_assistance_agent.Prelude.{
  List, [], ◌∷◌, ℕ, String, ◌≡◌, refl, sym, ap, ◌∙◌, ◌⊎◌, inl, inr, true, false, Option, none, some,
  arith, Option-cases,
}
use study_assistance_agent.Study.{awaiting_answer, Texts, QuestionState, AnswerEvaluation, Session}
use study_assistance_agent.Study.Grader.{normalize, is_empty, same_text}
use study_assistance_agent.Study.Answers.{question_at, is_repeat, is_other}

-- The current question of a session that waits.
abbrev pub IsAsked : Session → QuestionState → Type 0
IsAsked s q = (s.state ≡ awaiting_answer) × (question_at s.current_index s.questions ≡ some q)

-- The request names another question, or none or this one.
abbrev pub IsOther : Option ℕ → QuestionState → Type 0
IsOther question_id q = (id : ℕ) × (question_id ≡ some id) × (id ≡ q.id → ⊥)

abbrev pub IsOwn : Option ℕ → QuestionState → Type 0
IsOwn question_id q = (question_id ≡ none) ⊎ (question_id ≡ some q.id)

-- The answer is the one that was evaluated last, for the same question, and it is not empty.
abbrev pub IsRepeated : Texts → String → QuestionState → Session → Type 0
IsRepeated texts answer q s =
    (s.last_answer_normalized ≡ normalize texts answer)
    × ((normalize texts answer ≡ []) → ⊥)
    × ((e : AnswerEvaluation) × (s.last_evaluation ≡ some e) × (e.question_id ≡ q.id))

same_text_eq : (xs ys : List ℕ) → same_text xs ys ≡ true → xs ≡ ys
same_text_eq [] [] h = refl
same_text_eq [] (y ∷ ys) h = ground (arith, h)
same_text_eq (x ∷ xs) [] h = ground (arith, h)
same_text_eq (x ∷ xs) (y ∷ ys) h =
    let (first, rest) : (x ≡ y) × (same_text xs ys ≡ true) = ground (arith, h) in
    cc (first, same_text_eq xs ys rest)

same_text_refl : (xs : List ℕ) → same_text xs xs ≡ true
same_text_refl [] = refl
same_text_refl (x ∷ xs) = ground (arith, same_text_refl xs)

empty_eq : (xs : List ℕ) → is_empty xs ≡ false → xs ≡ [] → ⊥
empty_eq xs h e = let absurd_tests : true ≡ false = sym (ap is_empty e) ∙ h in ground arith

not_empty : (xs : List ℕ) → (xs ≡ [] → ⊥) → is_empty xs ≡ false
not_empty [] h = absurd (h refl)
not_empty (x ∷ xs) h = refl

pub is_other-IsOther :
    (question_id : Option ℕ) (q : QuestionState)
    → is_other question_id q ≡ true
    → IsOther question_id q
is_other-IsOther none q h = ground (arith, h)
is_other-IsOther (some id) q h = (id, refl, λ e. ground (arith, h, e))

pub is_other-IsOwn :
    (question_id : Option ℕ) (q : QuestionState)
    → is_other question_id q ≡ false
    → IsOwn question_id q
is_other-IsOwn none q h = inl refl
is_other-IsOwn (some id) q h = let same : id ≡ q.id = ground (arith, h) in inr (ap some same)

is_repeat-parts :
    (texts : Texts) (answer : String) (q : QuestionState) (s : Session)
    → is_repeat (normalize texts answer) q s ≡ true
    → (is_empty s.last_answer_normalized ≡ false)
      × (same_text s.last_answer_normalized (normalize texts answer) ≡ true)
      × ((e : AnswerEvaluation) × (s.last_evaluation ≡ some e) × (e.question_id ≡ q.id))
unfolding is_repeat
is_repeat-parts texts answer q s h = elim (Option-cases s.last_evaluation) [
  | inl n ↦ ground (arith, n)
  | inr (e, n) ↦ (ground (arith, n), ground (arith, n), (e, n, ground (arith, n)))
]

pub is_repeat-IsRepeated :
    (texts : Texts) (answer : String) (q : QuestionState) (s : Session)
    → is_repeat (normalize texts answer) q s ≡ true
    → IsRepeated texts answer q s
is_repeat-IsRepeated texts answer q s h =
    let (some_last, same, last) = is_repeat-parts texts answer q s h in
    let equal = same_text_eq s.last_answer_normalized (normalize texts answer) same in
    (equal, (λ n. empty_eq s.last_answer_normalized some_last (equal ∙ n)), last)

IsRepeated-is_repeat :
    (texts : Texts) (answer : String) (q : QuestionState) (s : Session)
    → IsRepeated texts answer q s
    → is_repeat (normalize texts answer) q s ≡ true
unfolding is_repeat
IsRepeated-is_repeat texts answer q s (equal, full, (e, last, id)) =
    let same : same_text s.last_answer_normalized (normalize texts answer) ≡ true =
      rw equal (same_text_refl (normalize texts answer)) in
    let some_last : is_empty s.last_answer_normalized ≡ false =
      not_empty s.last_answer_normalized (λ n. full (sym equal ∙ n)) in
    ground (arith, last, same, some_last)

pub not_repeat :
    (texts : Texts) (answer : String) (q : QuestionState) (s : Session)
    → is_repeat (normalize texts answer) q s ≡ false
    → IsRepeated texts answer q s
    → ⊥
not_repeat texts answer q s n h =
    let yes = IsRepeated-is_repeat texts answer q s h in
    let same : true ≡ false = sym yes ∙ n in ground arith
