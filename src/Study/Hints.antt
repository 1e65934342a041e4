-- ===== src/Study/Hints.antt =====
-- `_hint`, `_full_explanation` and `_first_sentence` of platform/app/study_session.py.
use study_assistance_agent.Prelude.{
  ℕ, zero, suc, String, str_eq, ◌&&◌, Option, none, some, List, [], ◌∷◌, if◌then◌else◌, leb, ◌==◌,
}
use study_assistance_agent.Study.{
  Texts, QuizQuestion, Remediation, plain_hint, hint_with, full_answer, full_explanation,
}
use study_assistance_agent.Study.Grader.{codes, is_empty}

abbrev pub take : ℕ → List ℕ → List ℕ
take zero cs = []
take (suc n) [] = []
take (suc n) (c ∷ cs) = c ∷ take n cs

-- `str.find` of one character; `none` is -1.
unfoldable pub find_code : ℕ → List ℕ → Option ℕ
find_code c [] = none
find_code c (d ∷ ds) =
    if c == d then some 0 else elim (find_code c ds) [ none ↦ none | some i ↦ some (suc i) ]

-- `"。", "！", "？", ".", "!", "?"`
abbrev pub separators : List ℕ
separators = codes "。！？.!?"

-- The loop over the separators.
unfoldable pub cut_at : List ℕ → List ℕ → List ℕ
unfolding find_code
cut_at [] cleaned = take 80 cleaned
cut_at (c ∷ cs) cleaned =
    let rest = cut_at cs cleaned in
    elim (find_code c cleaned) [
      | none ↦ rest
      | some i ↦ if leb 8 i && leb i 80 then take (suc i) cleaned else rest
    ]

unfoldable pub first_sentence : Texts → String → List ℕ
unfolding cut_at
first_sentence texts text = cut_at separators (texts.collapse text)

unfoldable pub hint : Texts → QuizQuestion → String → Remediation
unfolding first_sentence
hint texts question explanation =
    let snippet =
      first_sentence texts (if str_eq question.answer "" then explanation else question.answer) in
    if is_empty snippet then plain_hint else hint_with snippet

unfoldable pub give_full : QuizQuestion → String → Remediation
give_full question explanation =
    if str_eq question.answer "" then full_explanation explanation else full_answer question.answer
