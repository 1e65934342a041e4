-- ===== src/Planner/Pinning/Blocks.antt =====
-- The block of the pinned tasks.
use mathlib.Core.List.{Memᴰ}
use mathlib.Core.List.{Perm}
use mathlib.Core.List.Memᴰ.{head, tail}
use study_assistance_agent.Prelude.{
  ℕ, String, ◌≡◌, refl, sym, subst, ap, ◌∙◌, Bool, true, not, some, List, [], ◌∷◌, ◌++◌, arith, leb,
  length, any, select, order_by, or_else,
}
use study_assistance_agent.Lifecycle.{GoalPlanTask}
use study_assistance_agent.Planner.Order.{Graph, prerequisites_of, has_text, present_edges}
use study_assistance_agent.Planner.Order.Heap.{AreDistinct}
use study_assistance_agent.Planner.Order.Shuffles.{order_by-perm}
use study_assistance_agent.Planner.Order.Placed.{IsPlaced, IsAcyclic}
use study_assistance_agent.Planner.Order.Edges.{present_edges_lem, IsPlaced-empty}
use study_assistance_agent.Planner.Order.Stable.{kahn-select}
use study_assistance_agent.Planner.Pinning.{
  is_required, user_rank, pin_edges, pin_key, pinned_files, pinned_block, required_files, pin_tasks,
}
use study_assistance_agent.Planner.Pinning.Required.{required_files-is_required}
use study_assistance_agent.Planner.Pinning.Closure.{AreKnown, pinned_files-IsClosed, close-alone}

select-same :
    (p q : GoalPlanTask → Bool) (ts : List GoalPlanTask)
    → ((t : GoalPlanTask) → Memᴰ t ts → p t ≡ q t)
    → select p ts ≡ select q ts
unfolding select
select-same p q [] h = refl
select-same p q (t ∷ ts) h =
    ground (arith, h t (head refl), select-same p q ts (λ u m. h u (tail m)))

-- The pinned tasks in some order come first, and the others as they were.
pub record IsBlock (lower : String → String) (required : List String) (tasks : List GoalPlanTask)
    (graph : Graph) : Type 0 where
  pub block : List GoalPlanTask
  pub returned :
      let keep = has_text (pinned_files lower required tasks (pin_edges tasks graph)) in
      pin_tasks lower required tasks graph ≡ some (block ++ select (λ t. not (keep t.file)) tasks)
  pub shuffled :
      let keep = has_text (pinned_files lower required tasks (pin_edges tasks graph)) in
      Perm block (select (λ t. keep t.file) tasks)
  pub placed : (rank : String → ℕ) → IsAcyclic tasks graph rank → IsPlaced tasks graph [] block

pub pin_edges-AreKnown :
    (tasks : List GoalPlanTask) (graph : Graph) → AreKnown tasks (pin_edges tasks graph)
unfolding pin_edges prerequisites_of
pin_edges-AreKnown tasks [] f p m = cc
pin_edges-AreKnown tasks (e ∷ graph) f p m = ground (arith, present_edges_lem tasks (e ∷ graph) f p)

module _ (lower : String → String) (required : List String) where
  pub pin_tasks-IsBlock :
      (tasks : List GoalPlanTask) (graph : Graph)
      → AreDistinct tasks
      → any (is_required lower required) tasks ≡ true
      → IsBlock lower required tasks graph
  unfolding pin_tasks pinned_block pinned_files present_edges pin_edges
  pin_tasks-IsBlock tasks [] unique some_required =
      let keep = has_text (pinned_files lower required tasks []) in
      let before = λ (a : GoalPlanTask) (b : GoalPlanTask).
        leb (or_else (user_rank lower required a) 0) (or_else (user_rank lower required b) 0) in
      let files = required_files lower required [] tasks in
      let same : select (is_required lower required) tasks ≡ select (λ t. keep t.file) tasks =
        select-same (is_required lower required) (λ t. keep t.file) tasks
          (λ t m. sym (
            ap (λ fs. has_text fs t.file) (close-alone (length tasks) files files)
            ∙ required_files-is_required lower required t [] tasks unique m)) in
      record {
        block = order_by before (select (is_required lower required) tasks);
        returned = refl;
        shuffled =
            subst (Perm (order_by before (select (is_required lower required) tasks))) same
              (order_by-perm before _);
        placed = λ rank acyclic. IsPlaced-empty tasks [] _;
      }
  pin_tasks-IsBlock [] (e ∷ graph) unique some_required = cc
  pin_tasks-IsBlock (t ∷ ts) (e ∷ graph) unique some_required =
      let tasks = t ∷ ts in
      let edges = present_edges tasks (e ∷ graph) in
      let keep = has_text (pinned_files lower required tasks edges) in
      let closed =
        pinned_files-IsClosed tasks unique lower required edges
          (λ f p m. ground (arith, present_edges_lem tasks (e ∷ graph) f p)) in
      let (block, returned, shuffled, own) =
        kahn-select (pin_key lower required tasks) tasks (e ∷ graph) keep unique closed in
      record {
        block = block;
        returned = rw (returned, pin_tasks, pinned_block) refl;
        shuffled = shuffled;
        placed = own;
      }
