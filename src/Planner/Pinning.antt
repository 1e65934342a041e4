-- ===== src/Planner/Pinning.antt =====
-- The final order of the tasks: `_pin_required`, `_prerequisite_report` and `_ai_order` of
-- platform/app/goal_planner.py. The tasks have distinct files and distinct ids. The adapter is a function
-- from the tasks to the ids that it proposes, which is absent where there is none or it is disabled.
mod Closure
mod Required
mod Blocks
mod Placing
mod Wanted
mod Exact
mod Reports
mod Proposals
pub mod Final
mod Tests
use study_assistance_agent.Prelude.{
  ℕ, zero, suc, ◌+◌, String, str_eq, Bool, true, false, not, ◌&&◌, Option, none, some, List, [],
  ◌∷◌, ◌++◌, map, if◌then◌else◌, ltb, leb, ◌==◌, length, any, select, order_by, find_row, is_some,
  or_else,
}
use study_assistance_agent.Lifecycle.{GoalPlanTask}
use study_assistance_agent.Planner.Order.{
  Graph, prerequisites_of, has_file, has_text, present_edges, kahn, stable_order,
}

-- `index` and `position`: where a file stands.
unfoldable pub position : List GoalPlanTask → String → ℕ
position [] file = 0
position (t ∷ ts) file = let later = position ts file in if str_eq t.file file then 0 else later + 1

-- `rank`: the last place of a topic among the required ones.
unfoldable pub rank_of : ℕ → List String → String → Option ℕ
rank_of i [] topic = none
rank_of i (r ∷ rs) topic = elim (rank_of (i + 1) rs topic) [
  | some j ↦ some j
  | none ↦ if str_eq r topic then some i else none
]

-- `set(order) == set(by_id)`
abbrev pub is_every : (String → Bool) → List String → Bool
is_every p [] = true
is_every p (x ∷ xs) = p x && is_every p xs

abbrev pub has_id : List GoalPlanTask → String → Bool
has_id tasks id = any (λ t. str_eq t.task_id id) tasks

-- `prereq not in pinned`: it is pinned, and put on the stack.
unfoldable pub pin_all : List String → List String → List String → List String × List String
pin_all [] pinned stack = (pinned, stack)
pin_all (p ∷ ps) pinned stack =
    let known = has_text pinned p in
    pin_all ps (if known then pinned else p ∷ pinned) (if known then stack else p ∷ stack)

-- The loop over the stack, on fuel.
unfoldable pub close : Graph → ℕ → List String → List String → List String
unfolding pin_all prerequisites_of
close edges zero pinned stack = pinned
close edges (suc n) pinned [] = pinned
close edges (suc n) pinned (f ∷ stack) =
    let next = pin_all (prerequisites_of edges f) pinned stack in close edges n next.0 next.1

-- `_present_edges(tasks, graph) if graph else {}`
unfoldable pub pin_edges : List GoalPlanTask → Graph → Graph
unfolding present_edges
pin_edges tasks [] = []
pin_edges tasks (e ∷ graph) = present_edges tasks (e ∷ graph)

module _ (lower : String → String) (required : List String) where
  -- `user_rank.get(t.file)`, where `required` is in lower case.
  unfoldable pub user_rank : GoalPlanTask → Option ℕ
  unfolding rank_of
  user_rank t = rank_of 0 required (lower t.topic)

  abbrev pub is_required : GoalPlanTask → Bool
  is_required t = is_some (user_rank t)

  -- `list(user_rank)`, with the top of the stack first.
  unfoldable pub required_files : List String → List GoalPlanTask → List String
  unfolding user_rank
  required_files stack [] = stack
  required_files stack (t ∷ ts) =
      required_files (if is_required t then t.file ∷ stack else stack) ts

  -- The key of a task in the block: its rank, and its place.
  unfoldable pub pin_key : List GoalPlanTask → GoalPlanTask → List ℕ
  unfolding user_rank position
  pin_key tasks t = or_else (user_rank t) (length required) ∷ position tasks t.file ∷ []

  -- A file is put on the stack once, so as many rounds as tasks are enough.
  unfoldable pub pinned_files : List GoalPlanTask → Graph → List String
  unfolding close required_files
  pinned_files tasks edges =
      let files = required_files [] tasks in close edges (length tasks) files files

  unfoldable pub pinned_block : List GoalPlanTask → Graph → List String → Option (List GoalPlanTask)
  unfolding user_rank pin_key kahn
  pinned_block tasks [] pinned = some (
      order_by (λ a b. leb (or_else (user_rank a) 0) (or_else (user_rank b) 0))
        (select is_required tasks))
  pinned_block tasks (e ∷ edges) pinned =
      kahn (pin_key tasks) (select (λ t. has_text pinned t.file) tasks) (e ∷ edges)

  unfoldable pub pin_tasks : List GoalPlanTask → Graph → Option (List GoalPlanTask)
  unfolding pinned_block pinned_files pin_edges
  pin_tasks tasks graph =
      let edges = pin_edges tasks graph in
      let pinned = pinned_files tasks edges in
      elim (pinned_block tasks edges pinned) [
        | none ↦ none
        | some block ↦ some (block ++ select (λ t. not (has_text pinned t.file)) tasks)
      ]

-- `_pin_required`
unfoldable pub pin_required :
    (String → String) → List GoalPlanTask → List String → Graph → Option (List GoalPlanTask)
unfolding pin_tasks user_rank
pin_required lower tasks [] graph = some tasks
pin_required lower tasks (r ∷ rs) graph =
    let required = map lower (r ∷ rs) in
    if any (is_required lower required) tasks
    then pin_tasks lower required tasks graph
    else some tasks

-- The mentions that the order violates: the file stands before its prerequisite.
unfoldable pub late_mentions : (String → ℕ) → String → List String → ℕ
late_mentions place file [] = 0
late_mentions place file (p ∷ ps) =
    let rest = late_mentions place file ps in if ltb (place file) (place p) then suc rest else rest

unfoldable pub late_edges : (String → ℕ) → Graph → ℕ
unfolding late_mentions
late_edges place [] = 0
late_edges place ((file, prereqs) ∷ edges) =
    late_mentions place file prereqs + late_edges place edges

-- `_prerequisite_report`, its violations.
unfoldable pub violations : List GoalPlanTask → Graph → ℕ
unfolding late_edges position present_edges
violations tasks graph = late_edges (position tasks) (present_edges tasks graph)

unfoldable pub edge_count : Graph → ℕ
edge_count [] = 0
edge_count ((file, prereqs) ∷ edges) = length prereqs + edge_count edges

-- `_prerequisite_report`, its edges.
unfoldable pub report_edges : List GoalPlanTask → Graph → ℕ
unfolding edge_count present_edges
report_edges tasks graph = edge_count (present_edges tasks graph)

-- `[by_id[task_id] for task_id in order]`; a missing id raises.
unfoldable pub by_ids : List GoalPlanTask → List String → Option (List GoalPlanTask)
unfolding find_row
by_ids tasks [] = some []
by_ids tasks (id ∷ ids) = elim (find_row (λ t. str_eq t.task_id id) tasks) [
  | none ↦ none
  | some t ↦ elim (by_ids tasks ids) [ none ↦ none | some ts ↦ some (t ∷ ts) ]
]

-- What a proposal must be: as many ids as there are tasks, and the same ids.
unfoldable pub is_proposal : List GoalPlanTask → List String → Bool
is_proposal tasks order =
    (length order == length tasks)
    && is_every (has_id tasks) order
    && is_every (has_text order) (map (λ t. t.task_id) tasks)

module _ (lower : String → String) (required : List String) (graph : Graph) where
  unfoldable pub follow : List GoalPlanTask → List String → Option (List GoalPlanTask)
  unfolding is_proposal by_ids violations pin_required
  follow tasks order =
      if not (is_proposal tasks order) then some tasks else elim (by_ids tasks order) [
        | none ↦ none
        | some reordered ↦
            if not (violations reordered graph == 0)
            then some tasks
            else pin_required lower reordered required graph
      ]

  -- `_ai_order`
  unfoldable pub ai_order :
      Option (List GoalPlanTask → Option (List String))
      → List GoalPlanTask
      → Option (List GoalPlanTask)
  unfolding follow
  ai_order none tasks = some tasks
  ai_order (some propose) [] = some []
  ai_order (some propose) (t ∷ ts) = elim (propose (t ∷ ts)) [
    | none ↦ some (t ∷ ts)
    | some order ↦ follow (t ∷ ts) order
  ]

  -- The three stages of `generate`.
  unfoldable pub final_order :
      Option (List GoalPlanTask → Option (List String))
      → List GoalPlanTask
      → Option (List GoalPlanTask)
  unfolding stable_order pin_required ai_order
  final_order propose tasks = elim (stable_order tasks graph) [
    | none ↦ none
    | some stable ↦ elim (pin_required lower stable required graph) [
      | none ↦ none
      | some pinned ↦ ai_order propose pinned
    ]
  ]
