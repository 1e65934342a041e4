-- ===== src/Planner/Pinning/Final.antt =====
-- The three stages together.
use mathlib.Core.List.{Perm}
use mathlib.Core.List.Perm
use study_assistance_agent.Prelude.{
  ℕ, String, ◌≡◌, refl, ◌∙◌, inl, inr, true, Option, none, some, List, [], ◌∷◌, arith, ◌==◌, All,
  Bool-cases, Option-cases,
}
use study_assistance_agent.Lifecycle.{GoalPlanTask}
use study_assistance_agent.Planner.Order.{Graph, prerequisites_of, has_file, has_text, stable_order}
use study_assistance_agent.Planner.Order.Heap.{AreApart, AreDistinct}
use study_assistance_agent.Planner.Order.Shuffles.{has_file-perm, AreApart-perm}
use study_assistance_agent.Planner.Order.Placed.{IsPlaced, IsAcyclic}
use study_assistance_agent.Planner.Order.Edges.{IsPlaced-weaken}
use study_assistance_agent.Planner.Order.Stable.{IsOrder, stable_order-IsOrder}
use study_assistance_agent.Planner.Pinning.{
  is_proposal, violations, pin_required, follow, ai_order, final_order,
}
use study_assistance_agent.Planner.Pinning.Placing.{pin_required-IsOrder}
use study_assistance_agent.Planner.Pinning.Reports.{violations-none, violations-IsPlaced}
use study_assistance_agent.Planner.Pinning.Proposals.{HaveIds, is_proposal-by_ids}

All-same :
    (tasks other : List GoalPlanTask) (graph : Graph)
    → Perm tasks other
    → (ts : List GoalPlanTask)
    → All
        (λ t.
          (p : String)
          → has_text (prerequisites_of graph t.file) p ≡ true
          → has_file other p ≡ true
          → (has_text (prerequisites_of graph t.file) p ≡ true) × (has_file tasks p ≡ true))
        ts
All-same tasks other graph same [] = tt
All-same tasks other graph same (t ∷ ts) =
    ((λ p m k. (m, has_file-perm tasks other p same ∙ k)), All-same tasks other graph same ts)

-- An order does not depend on the order of the tasks that it is for.
IsPlaced-perm :
    (tasks other : List GoalPlanTask) (graph : Graph) (ts : List GoalPlanTask)
    → Perm tasks other
    → IsPlaced tasks graph [] ts
    → IsPlaced other graph [] ts
IsPlaced-perm tasks other graph ts same =
    IsPlaced-weaken tasks other graph graph [] ts (All-same tasks other graph same ts)

IsAcyclic-perm :
    (tasks other : List GoalPlanTask) (graph : Graph) (rank : String → ℕ)
    → Perm tasks other
    → IsAcyclic tasks graph rank
    → IsAcyclic other graph rank
IsAcyclic-perm tasks other graph rank same acyclic f p k l m =
    acyclic f p (has_file-perm tasks other f same ∙ k) (has_file-perm tasks other p same ∙ l) m

-- An order of a permutation of the tasks is one of the tasks.
IsOrder-perm :
    (tasks other : List GoalPlanTask) (graph : Graph) (o : Option (List GoalPlanTask))
    → Perm tasks other
    → IsOrder tasks graph o
    → IsOrder other graph o
IsOrder-perm tasks other graph o same r = record {
  result = r.result;
  returned = r.returned;
  shuffled = Perm.trans r.shuffled same;
  placed = λ rank acyclic.
      IsPlaced-perm tasks other graph r.result same
        (r.placed rank (IsAcyclic-perm other tasks graph rank (Perm.symm same) acyclic));
}

-- What an order gives for the next stage.
IsOrder-IsPlaced :
    (tasks : List GoalPlanTask) (graph : Graph) (o : Option (List GoalPlanTask))
    → (r : IsOrder tasks graph o) → (rank : String → ℕ) → IsAcyclic r.result graph rank
    → IsPlaced r.result graph [] r.result
IsOrder-IsPlaced tasks graph o r rank acyclic =
    IsPlaced-perm tasks r.result graph r.result (Perm.symm r.shuffled)
      (r.placed rank (IsAcyclic-perm r.result tasks graph rank r.shuffled acyclic))

module _ (lower : String → String) (required : List String) (graph : Graph) where
  module _ (tasks : List GoalPlanTask) (unique : AreDistinct tasks) (ids : HaveIds tasks)
      (placed : (rank : String → ℕ)
        → IsAcyclic tasks graph rank
        → IsPlaced tasks graph [] tasks) where
    unchanged : IsOrder tasks graph (some tasks)
    unchanged = record { result = tasks; returned = refl; shuffled = Perm.rfl; placed = placed }

    follow-IsOrder :
        (order : List String) → IsOrder tasks graph (follow lower required graph tasks order)
    unfolding follow
    follow-IsOrder order = elim (Bool-cases (is_proposal tasks order)) [
      | inr e ↦ rw (follow, e) unchanged
      | inl e ↦
          let (ts, found, shuffled) = is_proposal-by_ids tasks ids order e in
          elim (Bool-cases (violations ts graph == 0)) [
            | inr late ↦ rw (follow, e, found, late) unchanged
            | inl none_late ↦
                let no_violation : violations ts graph ≡ 0 = ground arith in
                rw (follow, e, found, none_late)
                  (IsOrder-perm ts tasks graph _ shuffled (
                    pin_required-IsOrder lower ts required graph
                      (AreApart-perm (λ t. t.file) tasks ts (Perm.symm shuffled) unique)
                      (λ rank acyclic.
                        violations-IsPlaced ts graph rank
                          (AreApart-perm (λ t. t.file) tasks ts (Perm.symm shuffled) unique) acyclic
                          no_violation)))
          ]
    ]

  ai_order-IsOrder :
      (propose : Option (List GoalPlanTask → Option (List String))) (tasks : List GoalPlanTask)
      → AreDistinct tasks
      → HaveIds tasks
      → ((rank : String → ℕ) → IsAcyclic tasks graph rank → IsPlaced tasks graph [] tasks)
      → IsOrder tasks graph (ai_order lower required graph propose tasks)
  unfolding ai_order
  ai_order-IsOrder none tasks unique ids placed = unchanged tasks unique ids placed
  ai_order-IsOrder (some propose) [] unique ids placed = unchanged [] unique ids placed
  ai_order-IsOrder (some propose) (t ∷ ts) unique ids placed =
      elim (Option-cases (propose (t ∷ ts))) [
        | inl e ↦ rw (ai_order, e) (unchanged (t ∷ ts) unique ids placed)
        | inr (order, e) ↦ rw (ai_order, e) (follow-IsOrder (t ∷ ts) unique ids placed order)
      ]

  final_order-ai_order :
      (propose : Option (List GoalPlanTask → Option (List String)))
      (tasks stable pinned : List GoalPlanTask)
      → stable_order tasks graph ≡ some stable
      → pin_required lower stable required graph ≡ some pinned
      → final_order lower required graph propose tasks
        ≡ ai_order lower required graph propose pinned
  unfolding final_order
  final_order-ai_order propose tasks stable pinned p q = rw (final_order, p, q) refl

  pub final_order-IsOrder :
      (propose : Option (List GoalPlanTask → Option (List String))) (tasks : List GoalPlanTask)
      → AreDistinct tasks
      → AreApart (λ t. t.task_id) tasks
      → IsOrder tasks graph (final_order lower required graph propose tasks)
  final_order-IsOrder propose tasks unique ids =
      let one = stable_order-IsOrder tasks graph unique in
      let unique_one =
        AreApart-perm (λ t. t.file) tasks one.result (Perm.symm one.shuffled) unique in
      let two =
        pin_required-IsOrder lower one.result required graph unique_one
          (IsOrder-IsPlaced tasks graph _ one) in
      let shuffled = Perm.trans two.shuffled one.shuffled in
      let three =
        ai_order-IsOrder propose two.result
          (AreApart-perm (λ t. t.file) tasks two.result (Perm.symm shuffled) unique)
          (AreApart-perm (λ t. t.task_id) tasks two.result (Perm.symm shuffled) ids)
          (IsOrder-IsPlaced one.result graph _ two) in
      IsOrder-perm two.result tasks graph _ shuffled (record {
        result = three.result;
        returned =
            final_order-ai_order propose tasks one.result two.result one.returned two.returned
            ∙ three.returned;
        shuffled = three.shuffled;
        placed = three.placed;
      })

  -- The planner's three stages return, with the tasks in some order, whatever a model proposes, also where
  -- the prerequisites have a cycle. The tasks must have distinct files and distinct ids.
  pub final_order-perm :
      (propose : Option (List GoalPlanTask → Option (List String))) (tasks : List GoalPlanTask)
      → AreDistinct tasks
      → AreApart (λ t. t.task_id) tasks
      → (final : List GoalPlanTask) × (final_order lower required graph propose tasks ≡ some final)
        × Perm final tasks
  final_order-perm propose tasks unique ids =
      let order = final_order-IsOrder propose tasks unique ids in
      (order.result, order.returned, order.shuffled)

  -- Where the prerequisites have no cycle, the final order has no violation.
  pub IsOrder-violations :
      (tasks : List GoalPlanTask) (o : Option (List GoalPlanTask)) (rank : String → ℕ)
      → (order : IsOrder tasks graph o) → IsAcyclic tasks graph rank
      → violations order.result graph ≡ 0
  IsOrder-violations tasks o rank order acyclic = violations-none order.result graph (
      IsOrder-IsPlaced tasks graph o order rank
        (IsAcyclic-perm tasks order.result graph rank (Perm.symm order.shuffled) acyclic))
