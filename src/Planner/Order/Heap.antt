-- ===== src/Planner/Order/Heap.antt =====
-- The smallest entry and the others are the entries that there were.
use study_assistance_agent.Prelude.{
  String, str_eq, eq_iff, ◌≡◌, refl, Bool, false, ◌||◌, List, [], ◌∷◌, arith, any, All,
}
use study_assistance_agent.Lifecycle.{GoalPlanTask}
use study_assistance_agent.Planner.Order.{has_file, pop_min}

-- No two tasks have one key.
abbrev pub AreApart : (GoalPlanTask → String) → List GoalPlanTask → Type 0
AreApart key [] = Unit
AreApart key (t ∷ ts) = (any (λ u. str_eq (key u) (key t)) ts ≡ false) × AreApart key ts

-- No two tasks have one file.
abbrev pub AreDistinct : List GoalPlanTask → Type 0
AreDistinct ts = AreApart (λ t. t.file) ts

module _ (before : GoalPlanTask → GoalPlanTask → Bool) where
  pub has_file-pop_min :
      (x : GoalPlanTask) (xs : List GoalPlanTask) (f : String)
      → has_file (x ∷ xs) f
        ≡ (str_eq (pop_min before x xs).0.file f || has_file (pop_min before x xs).1 f)
  unfolding pop_min
  has_file-pop_min x [] f = refl
  has_file-pop_min x (y ∷ ys) f = ground (arith, has_file-pop_min y ys f)

  pub All-pop_min {κ} :
      (P : GoalPlanTask → Type κ) (x : GoalPlanTask) (xs : List GoalPlanTask)
      → All P (x ∷ xs)
      → P (pop_min before x xs).0 × All P (pop_min before x xs).1
  unfolding pop_min
  All-pop_min P x [] h = h
  All-pop_min P x (y ∷ ys) h = let (first, others) = All-pop_min P y ys h.1 in ground arith

  pub AreDistinct-pop_min :
      (x : GoalPlanTask) (xs : List GoalPlanTask)
      → AreDistinct (x ∷ xs)
      → (has_file (pop_min before x xs).1 (pop_min before x xs).0.file ≡ false)
        × AreDistinct (pop_min before x xs).1
  unfolding pop_min
  AreDistinct-pop_min x [] h = h
  AreDistinct-pop_min x (y ∷ ys) h =
      let (fresh, others) = AreDistinct-pop_min y ys h.1 in
      let first = (pop_min before y ys).0 in
      ground
        (arith, has_file-pop_min y ys x.file, eq_iff x.file first.file, eq_iff first.file x.file)
