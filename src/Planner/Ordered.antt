-- ===== src/Planner/Ordered.antt =====
-- The order of the tasks in the days of a plan.
use mathlib.Core.List.{Perm}
use study_assistance_agent.Prelude.{ℕ, String, ◌≡◌, sym, subst, ap, ◌∙◌, or_else}
use study_assistance_agent.Lifecycle.{GoalPlanRequest}
use study_assistance_agent.Planner.Order.Heap.{AreApart, AreDistinct}
use study_assistance_agent.Planner.Order.Placed.{IsAcyclic}
use study_assistance_agent.Planner.Pinning.{violations}
use study_assistance_agent.Planner.Pinning.Final.{final_order-IsOrder, IsOrder-violations}
use study_assistance_agent.Planner.{Inputs, proposal_of, built_tasks, ordered_tasks, goal_days}
use study_assistance_agent.Planner.Days.{tasks_of}
use study_assistance_agent.Planner.Echo.{goal_days-tasks}

-- The days of a plan hold the tasks that were built, each once, and no task stands before one of its
-- prerequisites, whatever topics are required and whatever a model proposes. The prerequisites must have
-- no cycle, and the tasks distinct files and distinct ids.
pub goal_days-violations :
    (inputs : Inputs) (req : GoalPlanRequest) (rank : String → ℕ)
    → AreDistinct (built_tasks inputs req)
    → AreApart (λ t. t.task_id) (built_tasks inputs req)
    → IsAcyclic (built_tasks inputs req) inputs.graph rank
    → Perm (tasks_of (goal_days inputs req)) (built_tasks inputs req)
      × (violations (tasks_of (goal_days inputs req)) inputs.graph ≡ 0)
unfolding ordered_tasks
goal_days-violations inputs req rank unique ids acyclic =
    let tasks = built_tasks inputs req in
    let order =
      final_order-IsOrder inputs.lower req.constraints.required_topics inputs.graph
        (proposal_of inputs.propose req) tasks unique ids in
    let same : tasks_of (goal_days inputs req) ≡ order.result =
      goal_days-tasks inputs req ∙ ap (λ o. or_else o tasks) order.returned in
    (
      subst (λ ts. Perm ts tasks) (sym same) order.shuffled,
      ap (λ ts. violations ts inputs.graph) same
          ∙ IsOrder-violations inputs.lower req.constraints.required_topics inputs.graph tasks _
              rank order acyclic,
    )
