-- ===== src/Planner/Order.antt =====
-- The order of the tasks by their prerequisites: `_stable_order`, `_present_edges` and `_kahn` of
-- platform/app/goal_planner.py. The tasks have distinct files, as `_load_entries` gives them, so a file
-- stands for its task. A frozenset is the list of its members. A heap is the list of its entries, from
-- which the smallest is taken.
pub mod Heap
pub mod Files
mod Popping
mod Visits
pub mod Rounds
pub mod Loop
pub mod Placed
pub mod Shuffles
pub mod Edges
pub mod Stable
use study_assistance_agent.Prelude.{
  ℕ, zero, suc, ◌+◌, ◌-◌, String, str_eq, Bool, true, false, not, ◌&&◌, Option, none, some, List,
  [], ◌∷◌, ◌++◌, map, if◌then◌else◌, ltb, leb, ◌==◌, length, any, count_if, select, order_by,
}
use study_assistance_agent.Lifecycle.{GoalPlanTask}
use study_assistance_agent.Lifecycle.Records.{text_leb}

-- A file with its prerequisites.
abbrev pub Graph : Type 0
Graph = List (String × List String)

-- `graph.get(file, ())`
unfoldable pub prerequisites_of : Graph → String → List String
prerequisites_of [] file = []
prerequisites_of ((known, prereqs) ∷ graph) file =
    let rest = prerequisites_of graph file in if str_eq known file then prereqs else rest

abbrev pub has_file : List GoalPlanTask → String → Bool
has_file tasks file = any (λ t. str_eq t.file file) tasks

abbrev pub has_text : List String → String → Bool
has_text texts text = any (λ x. str_eq x text) texts

-- `_present_edges`
unfoldable pub present_edges : List GoalPlanTask → Graph → Graph
unfolding prerequisites_of
present_edges tasks graph =
    map (λ t. (t.file, select (has_file tasks) (prerequisites_of graph t.file))) tasks

-- `_mastery_rank`
unfoldable pub mastery_rank : GoalPlanTask → ℕ
mastery_rank t = if t.mastery_attempts == 0 then 0 else if t.mastery_correct == 0 then 1 else 2

-- `_DIFFICULTY_RANK.get(task.priority, 1)`
unfoldable pub difficulty_rank : String → ℕ
difficulty_rank priority =
    if str_eq priority "high" then 0 else if str_eq priority "low" then 2 else 1

-- `_order_key`, less its last component: every comparison ends with the file.
unfoldable pub order_key : GoalPlanTask → List ℕ
unfolding mastery_rank difficulty_rank
order_key t = (if t.reviewed then 1 else 0) ∷ mastery_rank t ∷ difficulty_rank t.priority ∷ []

-- The order of tuples of numbers, which the file decides where they are equal.
unfoldable pub key_leb : List ℕ → List ℕ → Bool → Bool
key_leb [] ys files = files
key_leb (x ∷ xs) [] files = false
key_leb (x ∷ xs) (y ∷ ys) files =
    let rest = key_leb xs ys files in if ltb x y then true else if ltb y x then false else rest

-- `entry(a) <= entry(b)`, where an entry is the key with the file.
unfoldable pub entry_leb : (GoalPlanTask → List ℕ) → GoalPlanTask → GoalPlanTask → Bool
unfolding key_leb
entry_leb key a b = key_leb (key a) (key b) (text_leb a.file b.file)

-- `heappop` and `min`: the smallest entry, and the others.
unfoldable pub pop_min :
    (GoalPlanTask → GoalPlanTask → Bool)
    → GoalPlanTask
    → List GoalPlanTask
    → GoalPlanTask × List GoalPlanTask
pop_min before x [] = (x, [])
pop_min before x (y ∷ ys) =
    let (smallest, others) = pop_min before y ys in
    if before x smallest then (x, y ∷ ys) else (smallest, x ∷ others)

-- The variables of the loop of `_kahn`.
pub record Sorting : Type 0 where
  pub indegree : String → ℕ
  pub heap : List GoalPlanTask
  pub ordered : List GoalPlanTask
  pub emitted : List String

module _ (before : GoalPlanTask → GoalPlanTask → Bool) (tasks : List GoalPlanTask)
    (edges : Graph) where
  -- The prerequisites among the tasks that are not emitted.
  abbrev pub waiting : List String → List String → ℕ
  waiting emitted prereqs = count_if (λ p. has_file tasks p && not (has_text emitted p)) prereqs

  -- `dependents[prereq].append(file)`, once for each mention.
  unfoldable pub mentions : String → GoalPlanTask → List String → List GoalPlanTask
  mentions prereq t [] = []
  mentions prereq t (p ∷ ps) =
      let rest = mentions prereq t ps in if str_eq p prereq then t ∷ rest else rest

  unfoldable pub dependents : String → List GoalPlanTask → List GoalPlanTask
  unfolding mentions prerequisites_of
  dependents prereq [] = []
  dependents prereq (t ∷ ts) =
      mentions prereq t (prerequisites_of edges t.file) ++ dependents prereq ts

  abbrev pub pending : List String → List GoalPlanTask
  pending emitted = select (λ t. not (has_text emitted t.file)) tasks

  -- `if not heap`: the smallest task that is left is released. `min` of nothing raises.
  unfoldable pub release : Sorting → Option Sorting
  unfolding pop_min
  release s = elim s.heap [
    | t ∷ ts ↦ some s
    | [] ↦ elim (pending s.emitted) [
      | [] ↦ none
      | t ∷ ts ↦
          let stuck = (pop_min before t ts).0 in
          some (record s {
            indegree = λ f. if str_eq stuck.file f then 0 else s.indegree f;
            heap = stuck ∷ [];
          })
    ]
  ]

  -- The body of the loop over `dependents[file]`.
  unfoldable pub visit : GoalPlanTask → Sorting → Sorting
  visit d s =
      if has_text s.emitted d.file
      then s
      else (let left = s.indegree d.file - 1 in
          record s {
            indegree = λ f. if str_eq d.file f then left else s.indegree f;
            heap = if left == 0 then d ∷ s.heap else s.heap;
          })

  unfoldable pub visit_all : List GoalPlanTask → Sorting → Sorting
  unfolding visit
  visit_all [] s = s
  visit_all (d ∷ ds) s = visit_all ds (visit d s)

  -- `heappop` and what follows it. It raises on an empty heap.
  unfoldable pub emit : Sorting → Option Sorting
  unfolding pop_min visit_all dependents
  emit s = elim s.heap [
    | [] ↦ none
    | t ∷ ts ↦
        let (first, others) = pop_min before t ts in
        some (
          visit_all (dependents first.file tasks) (record s {
            heap = others;
            ordered = s.ordered ++ first ∷ [];
            emitted = first.file ∷ s.emitted;
          }))
  ]

  unfoldable pub round : Sorting → Option Sorting
  unfolding release emit
  round s = elim (release s) [ none ↦ none | some r ↦ emit r ]

  unfoldable pub rounds : ℕ → Sorting → Option Sorting
  unfolding round
  rounds zero s = some s
  rounds (suc n) s = elim (round s) [ none ↦ none | some r ↦ rounds n r ]

  unfoldable pub start : Sorting
  unfolding prerequisites_of
  start = record {
    indegree = λ f. waiting [] (prerequisites_of edges f);
    heap = select (λ t. waiting [] (prerequisites_of edges t.file) == 0) tasks;
    ordered = [];
    emitted = [];
  }

-- `_kahn`: a round emits one task, so as many rounds as tasks are made. `none` is a raise.
unfoldable pub kahn :
    (GoalPlanTask → List ℕ) → List GoalPlanTask → Graph → Option (List GoalPlanTask)
unfolding entry_leb rounds start
kahn key tasks edges =
    elim (rounds (entry_leb key) tasks edges (length tasks) (start (entry_leb key) tasks edges)) [
      | none ↦ none
      | some s ↦ some s.ordered
    ]

-- `_stable_order`
unfoldable pub stable_order : List GoalPlanTask → Graph → Option (List GoalPlanTask)
unfolding order_key kahn present_edges entry_leb
stable_order tasks [] = some (order_by (entry_leb order_key) tasks)
stable_order tasks (e ∷ graph) = kahn order_key tasks (present_edges tasks (e ∷ graph))
