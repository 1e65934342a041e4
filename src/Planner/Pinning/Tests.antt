-- ===== src/Planner/Pinning/Tests.antt =====
-- Three tasks, of which `a` wants `b`, and `c` and `d` want each other.
use mathlib.Core.List.{Perm}
use study_assistance_agent.Prelude.{
  select, String, ◌≡◌, refl, Bool, true, false, Option, none, some, List, [], ◌∷◌, ◌++◌, map,
}
use study_assistance_agent.Lifecycle.{GoalPlanTask}
use study_assistance_agent.Planner.Order.{has_file, Graph, stable_order}
use study_assistance_agent.Planner.Pinning.{pin_edges, pin_required, final_order, violations}
use study_assistance_agent.Planner.Pinning.Final.{final_order-perm}
use study_assistance_agent.Planner.Pinning.Wanted.{Wanted}
use study_assistance_agent.Planner.Pinning.Exact.{pin_required-Wanted}

abbrev task : String → Bool → GoalPlanTask
task file reviewed = record {
  task_id = file;
  topic = file;
  file = file;
  difficulty = "中等";
  estimated_minutes = 35;
  priority = "medium";
  reviewed = reviewed;
  mastery_attempts = 0;
  mastery_correct = 0;
  mastery_last_mastered = none;
}

abbrev tasks : List GoalPlanTask
tasks = task "a" false ∷ task "b" true ∷ task "c" false ∷ task "d" false ∷ []

abbrev graph : Graph
graph = ("a", "b" ∷ []) ∷ ("c", "d" ∷ []) ∷ ("d", "c" ∷ "e" ∷ []) ∷ []

-- `b` was reviewed, but `a` wants it. The cycle is broken at `c`.
stable : Option (List String)
stable = elim (stable_order tasks graph) [ none ↦ none | some ts ↦ some (map (λ t. t.file) ts) ]

stable_files : stable ≡ some ("b" ∷ "a" ∷ "c" ∷ "d" ∷ [])
unfolding stable stable_order select
stable_files = refl

-- A required topic comes first, after what it wants.
pinned : Option (List String)
pinned = elim (pin_required (λ s. s) tasks ("a" ∷ []) graph) [
  | none ↦ none
  | some ts ↦ some (map (λ t. t.file) ts)
]

pinned_files : pinned ≡ some ("b" ∷ "a" ∷ "c" ∷ "d" ∷ [])
unfolding pinned pin_required select
pinned_files = refl

late : violations tasks graph ≡ 2
unfolding violations select
late = refl

final_order-perm_example :
    (final : List GoalPlanTask) × (final_order
        (λ s. s)
        ("c" ∷ [])
        graph
        (some (λ ts. some ("d" ∷ "c" ∷ "b" ∷ "a" ∷ [])))
        tasks
      ≡ some final)
    × Perm final tasks
final_order-perm_example =
    final_order-perm (λ s. s) ("c" ∷ []) graph (some (λ ts. some ("d" ∷ "c" ∷ "b" ∷ "a" ∷ [])))
      tasks (refl, (refl, (refl, (refl, tt)))) (refl, (refl, (refl, (refl, tt))))

pin_required-Wanted_example :
    (block : List GoalPlanTask) × (rest : List GoalPlanTask) × (pin_required
        (λ s. s)
        tasks
        ("a" ∷ [])
        graph
      ≡ some (block ++ rest))
    × Perm (block ++ rest) tasks
    × ((f : String)
        → has_file block f ≡ true
        → Wanted (λ s. s) ("a" ∷ []) tasks (pin_edges tasks graph) f)
    × ((f : String)
        → has_file rest f ≡ true
        → Wanted (λ s. s) ("a" ∷ []) tasks (pin_edges tasks graph) f
        → ⊥)
pin_required-Wanted_example =
    pin_required-Wanted (λ s. s) tasks ("a" ∷ []) graph (refl, (refl, (refl, (refl, tt))))
