-- ===== src/Study/Selection.antt =====
-- `_select_questions` and `_prefer_examples` of platform/app/study_session.py. The QA service and
-- the quiz service are functions of what the session asks them for; `none` is an exception.
use study_assistance_agent.Prelude.{
  ℕ, ◌*◌, max, String, str_eq, Bool, not, ◌||◌, Option, none, some, List, [], ◌∷◌, ◌++◌,
  if◌then◌else◌, ltb, leb, length, any, order_by,
}
use study_assistance_agent.Study.{Texts, QuizQuestion, Source}

pub record Services : Type 0 where
  pub answer : String → String → Bool → Option (String × List Source)
  pub generate : String → ℕ → List String → Option (List QuizQuestion)

-- The loop that collects the topics, each stripped and once.
unfoldable pub unique_topics : Texts → List String → List String → List String
unique_topics texts [] unique = unique
unique_topics texts (topic ∷ topics) unique =
    let cleaned = texts.strip topic in
    unique_topics texts topics (
      if str_eq cleaned "" || any (λ t. str_eq t cleaned) unique
      then unique
      else unique ++ cleaned ∷ [])

abbrev pub all_tags : List Source → List String
all_tags [] = []
all_tags (s ∷ ss) = s.tags ++ all_tags ss

-- `topics[:4]`
abbrev pub first_four : List String → List String
first_four (a ∷ b ∷ c ∷ d ∷ rest) = a ∷ b ∷ c ∷ d ∷ []
first_four topics = topics

-- The sort key: examples come first.
unfoldable pub examples_first : QuizQuestion → QuizQuestion → Bool
examples_first a b = str_eq a.type "example" || not (str_eq b.type "example")

abbrev pub has_key : Texts → String → QuizQuestion → Bool
has_key texts key q = str_eq (texts.strip q.question) key

unfoldable pub take_unique : Texts → ℕ → List QuizQuestion → List QuizQuestion → List QuizQuestion
take_unique texts count [] unique = unique
take_unique texts count (item ∷ items) unique =
    let key = texts.strip item.question in
    let added = unique ++ item ∷ [] in
    let skip = take_unique texts count items unique in
    let more = take_unique texts count items added in
    if str_eq key "" || any (has_key texts key) unique
    then skip
    else if leb count (length added)
    then added
    else more

unfoldable pub prefer_examples : Texts → List QuizQuestion → ℕ → List QuizQuestion
unfolding take_unique examples_first
prefer_examples texts pool count = take_unique texts count (order_by examples_first pool) []

-- The second call of the quiz service, where the pool is too small.
unfoldable pub fill_pool : Services → String → ℕ → List QuizQuestion → Option (List QuizQuestion)
fill_pool services course count pool =
    if ltb (length pool) count
    then elim (services.generate course (max (count * 3) 6) []) [
      | none ↦ none
      | some more ↦ some (pool ++ more)
    ]
    else some pool

unfoldable pub select_questions :
    Texts → Services → String → String → List Source → ℕ → Option (List QuizQuestion)
unfolding unique_topics fill_pool prefer_examples
select_questions texts services course topic sources count =
    let topics = unique_topics texts (topic ∷ all_tags sources) [] in
    elim (services.generate course (max (count * 3) 6) (first_four topics)) [
      | none ↦ none
      | some pool ↦ elim (fill_pool services course count pool) [
        | none ↦ none
        | some filled ↦ some (prefer_examples texts filled count)
      ]
    ]
