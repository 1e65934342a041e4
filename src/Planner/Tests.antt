-- ===== src/Planner/Tests.antt =====
-- Three tasks, and days of thirty minutes.
use study_assistance_agent.Prelude.{
  select, ℕ, ◌+◌, ◌≤◌, String, str_eq, eq_iff, arith, if◌then◌else◌, ◌≡◌, refl, none, some, List,
  [], ◌∷◌, length,
}
use study_assistance_agent.Lifecycle.{GoalPlanRequest, GoalPlanTask}
use study_assistance_agent.Lifecycle.Requests.{plan_to_request}
use study_assistance_agent.Lifecycle.Records.{response_to_record}
use mathlib.Core.List.{Perm}
use study_assistance_agent.Planner.Order.{prerequisites_of}
use study_assistance_agent.Planner.Order.Placed.{IsAcyclic}
use study_assistance_agent.Planner.Pinning.{violations}
use study_assistance_agent.Planner.Ordered.{goal_days-violations}
use study_assistance_agent.Planner.{
  exclude, built_tasks, goal_days, Topic, Inputs, distribute_goal, ordered_tasks, generate,
  build_task,
}
use study_assistance_agent.Planner.Days.{tasks_of, AreGoalDays, distribute_goal_lem}
use study_assistance_agent.Planner.Echo.{generate-plan_to_request}

abbrev topic : String → String → Topic
topic file difficulty = record { file = file; topic = file; difficulty = difficulty }

abbrev inputs : Inputs
inputs = record {
  entries = λ course. topic "a" "入门" ∷ topic "b" "进阶" ∷ topic "c" "中等" ∷ [];
  mastery = [];
  reviewed_files = [];
  today = 100;
  lower = λ s. s;
  is_within = λ a b. str_eq a b;
  task_id = λ f. f;
  graph = ("a", "b" ∷ []) ∷ [];
  propose = none;
  plan_id = λ req target tasks principal. "p1";
  parse_date = λ s. 101;
  show_date = λ d. "2026-01-01";
  daily_minutes = λ h. 30;
}

abbrev request : GoalPlanRequest
request = record {
  goal = "learn locks";
  course = none;
  target_date = some "2026-01-02";
  hours_per_day = 1;
  constraints = record { required_topics = []; excluded_topics = "c" ∷ [] };
}

abbrev three_tasks : List GoalPlanTask
three_tasks =
    build_task inputs (topic "a" "入门")
    ∷ build_task inputs (topic "b" "进阶")
    ∷ build_task inputs (topic "c" "中等")
    ∷ []

distribute_goal_lem_example :
    (tasks_of (distribute_goal (λ d. "") 100 30 three_tasks 1) ≡ three_tasks)
    × AreGoalDays (λ d. "") 100 30 0 [] (distribute_goal (λ d. "") 100 30 three_tasks 1)
    × (length (distribute_goal (λ d. "") 100 30 three_tasks 1) ≤ 1 + 3)
distribute_goal_lem_example = distribute_goal_lem (λ d. "") 100 30 three_tasks 1

generate-plan_to_request_example :
    let plan = (response_to_record 5 (generate 4 inputs request none) none).view in
    (plan.tasks ≡ ordered_tasks inputs request)
    × (plan_to_request plan ≡ record request { target_date = some "2026-01-01" })
generate-plan_to_request_example = generate-plan_to_request 4 5 inputs request none (λ day. refl)

-- Days after the window.
three_days : length (distribute_goal (λ d. "") 100 30 three_tasks 1) ≡ 3
unfolding distribute_goal build_task
three_days = refl

-- `a` wants `b`, which is required too.
abbrev rank : String → ℕ
rank f = if str_eq f "a" then 1 else 0

rank-IsAcyclic : IsAcyclic (built_tasks inputs request) inputs.graph rank
unfolding built_tasks prerequisites_of
rank-IsAcyclic f p k l m =
    ground (arith, eq_iff "a" f, eq_iff f "a", eq_iff "b" p, eq_iff p "a", eq_iff "b" "a")

goal_days-violations_example :
    Perm (tasks_of (goal_days inputs request)) (built_tasks inputs request)
    × (violations (tasks_of (goal_days inputs request)) inputs.graph ≡ 0)
unfolding built_tasks select exclude build_task
goal_days-violations_example =
    goal_days-violations inputs request rank (refl, (refl, tt)) (refl, (refl, tt)) rank-IsAcyclic
