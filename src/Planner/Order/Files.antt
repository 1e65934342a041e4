-- ===== src/Planner/Order/Files.antt =====
-- Files of lists of tasks.
use mathlib.Core.List.{Memᴰ}
use mathlib.Core.List.Memᴰ.{head, tail}
use study_assistance_agent.Prelude.{
  String, eq_iff, ◌≡◌, refl, ap, Bool, true, ◌&&◌, List, [], ◌∷◌, arith, select, All,
}
use study_assistance_agent.Lifecycle.{GoalPlanTask}
use study_assistance_agent.Planner.Order.{has_file}
use study_assistance_agent.Planner.Order.Heap.{AreDistinct}

pub has_file-select :
    (r : String → Bool) (ts : List GoalPlanTask) (f : String)
    → has_file (select (λ t. r t.file) ts) f ≡ (has_file ts f && r f)
unfolding select
has_file-select r [] f = refl
has_file-select r (t ∷ ts) f = ground (arith, has_file-select r ts f, eq_iff t.file f)

pub AreDistinct-select :
    (r : String → Bool) (ts : List GoalPlanTask)
    → AreDistinct ts
    → AreDistinct (select (λ t. r t.file) ts)
unfolding select
AreDistinct-select r [] u = tt
AreDistinct-select r (t ∷ ts) u =
    ground (arith, AreDistinct-select r ts u.1, has_file-select r ts t.file)

pub All-select {κ} :
    (P : GoalPlanTask → Type κ) (p : GoalPlanTask → Bool) (ts : List GoalPlanTask)
    → All P ts
    → All P (select p ts)
unfolding select
All-select P p [] h = tt
All-select P p (t ∷ ts) h = let rest = All-select P p ts h.1 in ground arith

pub All-mem {κ} :
    (P : GoalPlanTask → Type κ) (ts : List GoalPlanTask)
    → ((t : GoalPlanTask) → Memᴰ t ts → P t)
    → All P ts
All-mem P [] h = tt
All-mem P (t ∷ ts) h = (h t (head refl), All-mem P ts (λ u m. h u (tail m)))

pub mem-has_file :
    (t : GoalPlanTask) (ts : List GoalPlanTask) → Memᴰ t ts → has_file ts t.file ≡ true
mem-has_file t [] m = elim m [ ]
mem-has_file t (u ∷ ts) (head e) =
    ground (arith, eq_iff u.file t.file, ap (λ (x : GoalPlanTask). x.file) e)
mem-has_file t (u ∷ ts) (tail m) = ground (arith, mem-has_file t ts m)
