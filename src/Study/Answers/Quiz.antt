-- ===== src/Study/Answers/Quiz.antt =====
-- The questions of a session while it runs: those before the current one are finished, the current
-- one has had at most one attempt, and the others none.
use study_assistance_agent.Prelude.{
  ℕ, zero, suc, ◌+◌, ◌-◌, ◌*◌, ◌≤◌, ◌<◌, ◌≡◌, refl, Bool, true, false, not, ◌&&◌, none, some, List,
  [], ◌∷◌, arith, if◌then◌else◌, leb, ◌==◌, length, All,
}
use study_assistance_agent.Study.{QuestionState}
use study_assistance_agent.Study.Answers.{question_at, set_question}

-- Answered correctly at one of two attempts, or wrong at both.
abbrev pub is_done : QuestionState → Bool
is_done q = elim q.correct [
  | none ↦ false
  | some c ↦ if c then leb 1 q.attempt_count && leb q.attempt_count 2 else q.attempt_count == 2
]

abbrev pub is_fresh : QuestionState → Bool
is_fresh q = elim q.correct [ none ↦ q.attempt_count == 0 | some c ↦ false ]

abbrev pub is_open : QuestionState → Bool
is_open q = elim q.correct [ none ↦ q.attempt_count == 0 | some c ↦ not c && q.attempt_count == 1 ]

abbrev pub AreDone : List QuestionState → Type 0
AreDone qs = All (λ q. is_done q ≡ true) qs

abbrev pub AreFresh : List QuestionState → Type 0
AreFresh qs = All (λ q. is_fresh q ≡ true) qs

-- The quiz runs, and is at the given index.
abbrev pub IsRun : ℕ → List QuestionState → Type 0
IsRun i [] = ⊥
IsRun zero (q ∷ qs) = (is_open q ≡ true) × AreFresh qs
IsRun (suc i) (q ∷ qs) = (is_done q ≡ true) × IsRun i qs

-- The ids count the questions from a number on.
abbrev pub IsNumbered : ℕ → List QuestionState → Type 0
IsNumbered n [] = Unit
IsNumbered n (q ∷ qs) = (q.id ≡ n) × IsNumbered (suc n) qs

abbrev pub total_attempts : List QuestionState → ℕ
total_attempts [] = 0
total_attempts (q ∷ qs) = q.attempt_count + total_attempts qs

-- The attempts that may still be made: none for a question that is finished.
abbrev pub attempts_left : List QuestionState → ℕ
attempts_left [] = 0
attempts_left (q ∷ qs) = (if is_done q then 0 else 2 - q.attempt_count) + attempts_left qs

pub question_at-IsRun :
    (i : ℕ) (qs : List QuestionState)
    → IsRun i qs
    → (q : QuestionState) × (question_at i qs ≡ some q) × (is_open q ≡ true)
unfolding question_at
question_at-IsRun i [] r = absurd r
question_at-IsRun zero (q ∷ qs) r = (q, refl, r.0)
question_at-IsRun (suc i) (q ∷ qs) r = question_at-IsRun i qs r.1

pub set_question-IsRun :
    (i : ℕ) (p : QuestionState) (qs : List QuestionState)
    → IsRun i qs
    → is_open p ≡ true
    → IsRun i (set_question i p qs)
unfolding set_question
set_question-IsRun i p [] r h = absurd r
set_question-IsRun zero p (q ∷ qs) r h = (h, r.1)
set_question-IsRun (suc i) p (q ∷ qs) r h = (r.0, set_question-IsRun i p qs r.1 h)

fresh-open : (q : QuestionState) → is_fresh q ≡ true → is_open q ≡ true
fresh-open q h = ground arith

-- The current question is finished: the next one is current, or all are finished.
pub set_question-next :
    (i : ℕ) (p : QuestionState) (qs : List QuestionState)
    → IsRun i qs
    → is_done p ≡ true
    → i + 1 < length (set_question i p qs)
    → IsRun (suc i) (set_question i p qs)
unfolding set_question
set_question-next i p [] r h l = absurd r
set_question-next zero p (q ∷ []) r h l = absurd (omega arith)
set_question-next zero p (q ∷ q' ∷ qs) r h l = (h, (fresh-open q' r.1.0, r.1.1))
set_question-next (suc i) p (q ∷ qs) r h l = (r.0, set_question-next i p qs r.1 h (omega arith))

pub set_question-last :
    (i : ℕ) (p : QuestionState) (qs : List QuestionState)
    → IsRun i qs
    → is_done p ≡ true
    → length (set_question i p qs) ≤ i + 1
    → AreDone (set_question i p qs)
unfolding set_question
set_question-last i p [] r h l = absurd r
set_question-last zero p (q ∷ []) r h l = (h, tt)
set_question-last zero p (q ∷ q' ∷ qs) r h l = absurd (omega arith)
set_question-last (suc i) p (q ∷ qs) r h l = (r.0, set_question-last i p qs r.1 h (omega arith))

pub set_question-IsNumbered :
    (i n : ℕ) (p q : QuestionState) (qs : List QuestionState)
    → question_at i qs ≡ some q
    → p.id ≡ q.id
    → IsNumbered n qs
    → IsNumbered n (set_question i p qs)
unfolding set_question question_at
set_question-IsNumbered i n p q [] at e m = tt
set_question-IsNumbered zero n p q (q' ∷ qs) at e m = (ground arith, m.1)
set_question-IsNumbered (suc i) n p q (q' ∷ qs) at e m =
    (m.0, set_question-IsNumbered i (suc n) p q qs at e m.1)

pub set_question-length :
    (i : ℕ) (p : QuestionState) (qs : List QuestionState) → length (set_question i p qs) ≡ length qs
unfolding set_question
set_question-length i p [] = refl
set_question-length zero p (q ∷ qs) = refl
set_question-length (suc i) p (q ∷ qs) = omega (arith, set_question-length i p qs)

-- One attempt more at the current question, and at least one attempt fewer left.
pub set_question-attempt :
    (i : ℕ) (p q : QuestionState) (qs : List QuestionState)
    → IsRun i qs
    → question_at i qs ≡ some q
    → p.attempt_count ≡ q.attempt_count + 1
    → (total_attempts (set_question i p qs) ≡ total_attempts qs + 1)
      × (attempts_left (set_question i p qs) < attempts_left qs)
unfolding set_question question_at
set_question-attempt i p q [] r at e = absurd r
set_question-attempt zero p q (q' ∷ qs) r at e = ground arith
set_question-attempt (suc i) p q (q' ∷ qs) r at e =
    let (more, fewer) = set_question-attempt i p q qs r.1 at e in
    (omega (arith, more), omega (arith, fewer))

pub attempts-left : (qs : List QuestionState) → attempts_left qs ≤ 2 * length qs
attempts-left [] = omega arith
attempts-left (q ∷ qs) = ground (arith, attempts-left qs)

done-left : (qs : List QuestionState) → AreDone qs → attempts_left qs ≡ 0
done-left [] d = refl
done-left (q ∷ qs) d = ground (arith, done-left qs d.1)

pub run-left : (i : ℕ) (qs : List QuestionState) → IsRun i qs → 0 < attempts_left qs
run-left i [] r = absurd r
run-left zero (q ∷ qs) r = ground arith
run-left (suc i) (q ∷ qs) r = ground (arith, run-left i qs r.1)
