-- ===== src/Planner/Pinning/Placing.antt =====
-- The required tasks come first, with their prerequisites, and the order of the prerequisites is kept.
use mathlib.Core.List.{Perm}
use mathlib.Core.List.Perm
use study_assistance_agent.Prelude.{
  ℕ, String, eq_iff, ◌≡◌, refl, ◌∙◌, inl, inr, Bool, true, not, ◌&&◌, some, List, [], ◌∷◌, ◌++◌,
  map, arith, any, select, All, Bool-cases,
}
use study_assistance_agent.Lifecycle.{GoalPlanTask}
use study_assistance_agent.Planner.Order.{Graph, prerequisites_of, has_file, has_text}
use study_assistance_agent.Planner.Order.Heap.{AreDistinct}
use study_assistance_agent.Planner.Order.Files.{has_file-select}
use study_assistance_agent.Planner.Order.Shuffles.{has_file-perm, select-perm}
use study_assistance_agent.Planner.Order.Placed.{IsPlaced, IsAcyclic}
use study_assistance_agent.Planner.Order.Edges.{
  AreSeen-at, AreSeen-all, IsPlaced-append, All-has_file,
}
use study_assistance_agent.Planner.Order.Stable.{IsOrder}
use study_assistance_agent.Planner.Pinning.{
  pin_edges, is_required, pinned_files, pin_tasks, pin_required,
}
use study_assistance_agent.Planner.Pinning.Blocks.{pin_tasks-IsBlock}

-- What is left out of an order comes after what is taken out of it.
rest-IsPlaced :
    (tasks : List GoalPlanTask) (graph : Graph) (keep : String → Bool) (seen more : List String)
    (ts : List GoalPlanTask)
    → All (λ t. has_file tasks t.file ≡ true) ts
    → IsPlaced tasks graph seen ts
    → ((f : String) → has_text seen f ≡ true → has_text more f ≡ true)
    → ((f : String) → (has_file tasks f && keep f) ≡ true → has_text more f ≡ true)
    → IsPlaced tasks graph more (select (λ t. not (keep t.file)) ts)
unfolding select
rest-IsPlaced tasks graph keep seen more [] known placed old taken = tt
rest-IsPlaced tasks graph keep seen more (t ∷ ts) known placed old taken =
    elim (Bool-cases (keep t.file)) [
      | inl e ↦ rw e (
          rest-IsPlaced tasks graph keep (t.file ∷ seen) more ts known.1 placed.1
            (λ f k. ground (arith, eq_iff t.file f, old f, taken f, known.0)) taken)
      | inr e ↦ rw e (
        AreSeen-all tasks more (prerequisites_of graph t.file)
            (λ p m k. old p (AreSeen-at tasks seen (prerequisites_of graph t.file) p placed.0 m k)),
        rest-IsPlaced tasks graph keep (t.file ∷ seen) (t.file ∷ more) ts known.1 placed.1
            (λ f k. ground (arith, old f)) (λ f k. ground (arith, taken f)),
      )
    ]

-- The block and the other tasks, where the block is an order of what is kept.
joined-IsOrder :
    (tasks : List GoalPlanTask) (graph : Graph) (keep : String → Bool) (block : List GoalPlanTask)
    → Perm block (select (λ t. keep t.file) tasks)
    → ((rank : String → ℕ)
        → IsAcyclic tasks graph rank
        → IsPlaced tasks graph [] block × IsPlaced tasks graph [] tasks)
    → IsOrder tasks graph (some (block ++ select (λ t. not (keep t.file)) tasks))
joined-IsOrder tasks graph keep block shuffled placed = record {
  result = block ++ select (λ t. not (keep t.file)) tasks;
  returned = refl;
  shuffled = Perm.trans (Perm.append_right _ shuffled) (select-perm (λ t. keep t.file) tasks);
  placed = λ rank acyclic.
      let (own, all) = placed rank acyclic in
      IsPlaced-append tasks graph [] block (select (λ t. not (keep t.file)) tasks) own (λ more k.
        rest-IsPlaced tasks graph keep [] more tasks (All-has_file tasks tasks (λ f h. h)) all
          (λ f n. ground arith)
          (λ f taken.
            k f (has_file-perm block _ f shuffled ∙ has_file-select keep tasks f ∙ taken)));
}

module _ (lower : String → String) (required : List String) where
  pin_tasks-IsOrder :
      (tasks : List GoalPlanTask) (graph : Graph)
      → AreDistinct tasks
      → ((rank : String → ℕ) → IsAcyclic tasks graph rank → IsPlaced tasks graph [] tasks)
      → any (is_required lower required) tasks ≡ true
      → IsOrder tasks graph (pin_tasks lower required tasks graph)
  pin_tasks-IsOrder tasks graph unique placed some_required =
      let b = pin_tasks-IsBlock lower required tasks graph unique some_required in
      let keep = has_text (pinned_files lower required tasks (pin_edges tasks graph)) in
      rw b.returned (
        joined-IsOrder tasks graph keep b.block b.shuffled
          (λ rank acyclic. (b.placed rank acyclic, placed rank acyclic)))

-- Pinning the required topics keeps an order of the tasks.
pub pin_required-IsOrder :
    (lower : String → String) (tasks : List GoalPlanTask) (required : List String) (graph : Graph)
    → AreDistinct tasks
    → ((rank : String → ℕ) → IsAcyclic tasks graph rank → IsPlaced tasks graph [] tasks)
    → IsOrder tasks graph (pin_required lower tasks required graph)
unfolding pin_required
pin_required-IsOrder lower tasks [] graph unique placed = record {
  result = tasks;
  returned = refl;
  shuffled = Perm.rfl;
  placed = placed;
}
pin_required-IsOrder lower tasks (r ∷ rs) graph unique placed =
    let required = map lower (r ∷ rs) in
    elim (Bool-cases (any (is_required lower required) tasks)) [
      | inl e ↦ rw (pin_required, e) (pin_tasks-IsOrder lower required tasks graph unique placed e)
      | inr e ↦
          rw (pin_required, e)
            (record { result = tasks; returned = refl; shuffled = Perm.rfl; placed = placed })
    ]
