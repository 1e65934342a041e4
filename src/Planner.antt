-- ===== src/Planner.antt =====
-- `GoalPlannerService` of platform/app/goal_planner.py: the tasks, their distribution over days, and
-- the response; their order is in Planner/Order and Planner/Pinning. The entries come from the
-- knowledge files; the graph of prerequisites, the proposal of a model, the plan's id, and the
-- reading and writing of dates and hours are parameters. The total hours are counted in minutes; the
-- tags and the summary are left out.
mod Order
mod Pinning
mod Days
mod Echo
mod Ordered
mod Tests
use study_assistance_agent.Prelude.{
  ℕ, zero, suc, ◌+◌, ◌-◌, max, String, str_eq, Bool, true, false, not, ◌&&◌, Option, none, some,
  List, [], ◌∷◌, ◌++◌, map, if◌then◌else◌, ltb, length, any, find_row, select, or_else,
}
use study_assistance_agent.Filling.{Filled, fill_day, total_of, is_empty}
use study_assistance_agent.Planner.Order.{Graph}
use study_assistance_agent.Planner.Pinning.{final_order}
use study_assistance_agent.Lifecycle.{
  GoalPlanRequest, GoalPlanTask, GoalPlanDay, GoalPlanRevision, GoalPlanResponse,
}

pub record Topic : Type 0 where
  pub file : String
  pub topic : String
  pub difficulty : String

-- The evidence of a file in the mastery projection.
pub record Evidence : Type 0 where
  pub file : String
  pub attempts : ℕ
  pub correct : ℕ
  pub last_mastered : Option String

-- What the planner reads, and the parts that are not modelled.
pub record Inputs : Type 0 where
  pub entries : Option String → List Topic
  pub mastery : List Evidence
  pub reviewed_files : List String
  pub today : ℕ
  pub lower : String → String
  pub is_within : String → String → Bool
  pub task_id : String → String
  pub graph : Graph
  pub propose : Option (GoalPlanRequest → List GoalPlanTask → Option (List String))
  pub plan_id : GoalPlanRequest → ℕ → List GoalPlanTask → Option String → String
  pub parse_date : String → ℕ
  pub show_date : ℕ → String
  pub daily_minutes : ℕ → ℕ

-- `DIFFICULTY_TIME.get(diff, 35)`
unfoldable pub difficulty_time : String → ℕ
difficulty_time difficulty =
    if str_eq difficulty "入门" then 25 else if str_eq difficulty "进阶" then 50 else 35

-- `DIFFICULTY_PRIORITY.get(diff, "medium")`
unfoldable pub difficulty_priority : String → String
difficulty_priority difficulty =
    if str_eq difficulty "入门" then "low" else if str_eq difficulty "进阶" then "high" else "medium"

abbrev pub review_buffer : ℕ
review_buffer = 10

abbrev pub task_minutes : GoalPlanTask → ℕ
task_minutes t = t.estimated_minutes

-- `_exclude`
unfoldable pub exclude : Inputs → List Topic → List String → List Topic
exclude inputs entries excluded =
    select
      (λ e.
        not (any (λ term. inputs.is_within (inputs.lower term) (inputs.lower e.topic)) excluded))
      entries

abbrev pub attempts_of : Option Evidence → ℕ
attempts_of none = 0
attempts_of (some e) = e.attempts

abbrev pub correct_of : Option Evidence → ℕ
correct_of none = 0
correct_of (some e) = e.correct

abbrev pub mastered_of : Option Evidence → Option String
mastered_of none = none
mastered_of (some e) = e.last_mastered

unfoldable pub build_task : Inputs → Topic → GoalPlanTask
unfolding difficulty_time difficulty_priority
build_task inputs e =
    let evidence = find_row (λ x. str_eq x.file e.file) inputs.mastery in
    record {
      task_id = inputs.task_id e.file;
      topic = e.topic;
      file = e.file;
      difficulty = e.difficulty;
      estimated_minutes = difficulty_time e.difficulty;
      priority = difficulty_priority e.difficulty;
      reviewed = any (λ f. str_eq f e.file) inputs.reviewed_files;
      mastery_attempts = attempts_of evidence;
      mastery_correct = correct_of evidence;
      mastery_last_mastered = mastered_of evidence;
    }

-- `max(available, 0)`: subtraction stops at 0.
unfoldable pub available_minutes : ℕ → ℕ → ℕ
available_minutes daily d = if ltb 0 d then daily - review_buffer else daily

module _ (show_date : ℕ → String) (start_date daily : ℕ) where
  -- `build_day`: the loop that fills the day, and the day.
  unfoldable pub fill : ℕ → List GoalPlanTask → Filled GoalPlanTask
  unfolding fill_day available_minutes
  fill d tasks = fill_day task_minutes (available_minutes daily d) [] 0 tasks

  unfoldable pub day_of : ℕ → Filled GoalPlanTask → GoalPlanDay
  day_of d f = record {
    day = d + 1;
    date = show_date (start_date + d);
    tasks = f.day_tasks;
    total_minutes = f.used + (if ltb 0 d && not (is_empty f.day_tasks) then review_buffer else 0);
  }

  -- The first stage, the days of the window: the days, and the tasks that are left.
  unfoldable pub window_days : ℕ → ℕ → List GoalPlanTask → List GoalPlanDay × List GoalPlanTask
  unfolding fill day_of
  window_days zero d tasks = ([], tasks)
  window_days (suc n) d tasks =
      let f = fill d tasks in
      let later = window_days n (suc d) f.rest in
      if is_empty f.rest then (day_of d f ∷ [], []) else (day_of d f ∷ later.0, later.1)

  -- The second stage, on fuel: a day more while tasks are left.
  unfoldable pub more_days : ℕ → ℕ → List GoalPlanTask → List GoalPlanDay
  unfolding fill day_of
  more_days zero d tasks = []
  more_days (suc n) d tasks =
      let f = fill d tasks in
      let later = more_days n (suc d) f.rest in if is_empty tasks then [] else day_of d f ∷ later

  -- As many rounds as tasks are left are enough.
  unfoldable pub distribute_goal : List GoalPlanTask → ℕ → List GoalPlanDay
  unfolding window_days more_days
  distribute_goal tasks total_days =
      let window = window_days total_days 0 tasks in
      window.0 ++ more_days (length window.1) (length window.0) window.1

-- The tasks of `generate`, before they are ordered.
unfoldable pub built_tasks : Inputs → GoalPlanRequest → List GoalPlanTask
unfolding exclude build_task
built_tasks inputs req =
    map (build_task inputs)
      (exclude inputs (inputs.entries req.course) req.constraints.excluded_topics)

-- The adapter, given the request.
abbrev pub proposal_of :
    Option (GoalPlanRequest → List GoalPlanTask → Option (List String))
    → GoalPlanRequest
    → Option (List GoalPlanTask → Option (List String))
proposal_of none req = none
proposal_of (some propose) req = some (propose req)

-- The tasks in their final order. The order raises only where tasks share a file, which no two have.
unfoldable pub ordered_tasks : Inputs → GoalPlanRequest → List GoalPlanTask
unfolding final_order built_tasks
ordered_tasks inputs req =
    let tasks = built_tasks inputs req in
    or_else
      (final_order inputs.lower req.constraints.required_topics inputs.graph
        (proposal_of inputs.propose req) tasks)
      tasks

-- `target`: the date of the request, or 14 days from today.
abbrev pub target_day : Inputs → Option String → ℕ
target_day inputs none = inputs.today + 14
target_day inputs (some date) = if str_eq date "" then inputs.today + 14 else inputs.parse_date date

unfoldable pub goal_days : Inputs → GoalPlanRequest → List GoalPlanDay
unfolding distribute_goal ordered_tasks
goal_days inputs req =
    distribute_goal inputs.show_date inputs.today (inputs.daily_minutes req.hours_per_day)
      (ordered_tasks inputs req) (max (target_day inputs req.target_date - inputs.today) 1)

unfoldable pub generate : ℕ → Inputs → GoalPlanRequest → Option String → GoalPlanResponse
unfolding goal_days
generate now inputs req principal =
    let tasks = ordered_tasks inputs req in
    let days = goal_days inputs req in
    let target = target_day inputs req.target_date in
    record {
      plan_id = inputs.plan_id req target tasks principal;
      schema_version = "m9-goal-plan-v1";
      revision_id = 1;
      target_date = inputs.show_date target;
      total_days = length days;
      total_hours = total_of task_minutes tasks;
      revisions = record { revision_id = 1; generated_at = now; goal = req.goal; days = days } ∷ [];
      course = req.course;
      hours_per_day = req.hours_per_day;
      constraints = req.constraints;
      state = "generated";
      parent_revision_id = none;
      adopted_at = none;
    }
