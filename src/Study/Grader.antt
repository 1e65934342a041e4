-- ===== src/Study/Grader.antt =====
-- `evaluate_answer` of platform/app/study_session.py with `_normalize`, `_ngrams` and `_coverage`.
-- The comparison of the coverage, a quotient of two counts, with 0.55 is made exact: 11 times the
-- one is at most 20 times the other, which floating point decides alike for lengths below 2 ^ 40.
use Prim.Native.Char.{code}
use Prim.Native.String.{String}
use study_assistance_agent.Prelude.{
  ℕ, ◌*◌, str_eq, Bool, true, false, not, ◌&&◌, ◌||◌, List, [], ◌∷◌, ◌++◌, if◌then◌else◌, leb, ◌==◌,
  length, any, count_if, select,
}
use study_assistance_agent.Study.{Texts, QuizQuestion, AnswerEvaluation}

abbrev pub codes : String → List ℕ
codes String.[] = []
codes (String.◌∷◌ c s) = code c ∷ codes s

-- The characters of `_PUNCTUATION_RE` but the blanks.
abbrev pub punctuation : List ℕ
punctuation = codes "，。！？、；：:“”‘’'\".,!?;()[]{}<>"

abbrev pub has_code : List ℕ → ℕ → Bool
has_code cs c = any (λ d. d == c) cs

unfoldable pub normalize : Texts → String → List ℕ
normalize texts text =
    texts.lower (select (λ c. not (has_code punctuation c || texts.is_space c)) (codes text))

abbrev pub is_empty : List ℕ → Bool
is_empty [] = true
is_empty (c ∷ cs) = false

abbrev pub same_text : List ℕ → List ℕ → Bool
same_text [] [] = true
same_text (c ∷ cs) (d ∷ ds) = c == d && same_text cs ds
same_text _ _ = false

abbrev pub is_prefix : List ℕ → List ℕ → Bool
is_prefix [] ds = true
is_prefix (c ∷ cs) [] = false
is_prefix (c ∷ cs) (d ∷ ds) = c == d && is_prefix cs ds

-- `user in reference`, of two texts
unfoldable pub is_within : List ℕ → List ℕ → Bool
is_within cs [] = is_prefix cs []
is_within cs (d ∷ ds) = is_prefix cs (d ∷ ds) || is_within cs ds

abbrev pub has_gram : List (List ℕ) → List ℕ → Bool
has_gram gs g = any (λ h. same_text h g) gs

-- `set.add`
abbrev pub add_gram : List ℕ → List (List ℕ) → List (List ℕ)
add_gram g gs = if has_gram gs g then gs else g ∷ gs

-- The pairs of neighbours, as a set.
unfoldable pub pairs : ℕ → List ℕ → List (List ℕ)
pairs c [] = []
pairs c (d ∷ ds) = add_gram (c ∷ d ∷ []) (pairs d ds)

unfoldable pub ngrams : List ℕ → List (List ℕ)
unfolding pairs
ngrams [] = []
ngrams (c ∷ []) = (c ∷ []) ∷ []
ngrams (c ∷ d ∷ ds) = pairs c (d ∷ ds)

-- `_coverage(user, reference) >= COVERAGE_THRESHOLD`; without bigrams the coverage is 0.
unfoldable pub is_covered : List ℕ → List ℕ → Bool
unfolding ngrams
is_covered user reference =
    let user_grams = ngrams user in
    if is_empty user || is_empty reference
    then false
    else leb (11 * length user_grams) (20 * count_if (has_gram (ngrams reference)) user_grams)

-- One reference of the loop: a substring, or enough coverage.
unfoldable pub is_match : List ℕ → List ℕ → Bool
unfolding is_within is_covered
is_match user reference =
    if is_empty reference
    then false
    else (leb 2 (length user) && is_within user reference) || is_covered user reference

abbrev pub if_given : String → List String
if_given s = if str_eq s "" then [] else s ∷ []

unfoldable pub references : QuizQuestion → String → List String
references question explanation =
    (if_given question.answer ++ if_given explanation)
    ++ (question.tags ++ if_given question.source_title)

-- The greatest coverage reaches the threshold if one of them does.
unfoldable pub is_correct : Texts → String → QuizQuestion → String → Bool
unfolding normalize is_match references
is_correct texts user_answer question explanation =
    let user = normalize texts user_answer in
    if is_empty user
    then false
    else any (λ reference. is_match user (normalize texts reference))
        (references question explanation)

unfoldable pub evaluate_answer : Texts → String → QuizQuestion → String → AnswerEvaluation
evaluate_answer texts user_answer question explanation =
    let correct = is_correct texts user_answer question explanation in
    record {
      question_id = 0;
      correct = correct;
      score = if correct then 1 else 0;
      attempt_count = 0;
      feedback =
          if is_empty (normalize texts user_answer)
          then "empty answer"
          else if correct
          then "matched reference"
          else "did not match reference";
      reference_answer = if correct then question.answer else "";
    }
