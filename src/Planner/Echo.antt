-- ===== src/Planner/Echo.antt =====
-- The planner and the life cycle of plans together: what is stored of a generated plan.
use study_assistance_agent.Prelude.{
  ℕ, ◌-◌, max, String, str_eq, ◌≡◌, refl, ap, ◌∙◌, false, Option, some, List, [], ◌∷◌, ◌++◌,
}
use study_assistance_agent.Lifecycle.{GoalPlanRequest, GoalPlanDay}
use study_assistance_agent.Lifecycle.Requests.{plan_to_request}
use study_assistance_agent.Lifecycle.Records.{days_tasks, response_to_record}
use study_assistance_agent.Lifecycle.Service.Chain.{IsFirst, AreChains}
use study_assistance_agent.Lifecycle.Service.Calls.{PlanCall, call_plans, call_plans-AreChains}
use study_assistance_agent.Planner.{Inputs, ordered_tasks, target_day, goal_days, generate}
use study_assistance_agent.Planner.Days.{tasks_of, distribute_goal_lem}

days_tasks_lem : (days : List GoalPlanDay) → days_tasks days ≡ tasks_of days
unfolding days_tasks
days_tasks_lem [] = refl
days_tasks_lem (d ∷ ds) = ap (λ r. d.tasks ++ r) (days_tasks_lem ds)

generate-IsFirst :
    (now : ℕ) (inputs : Inputs) (req : GoalPlanRequest) (principal : Option String)
    → IsFirst (generate now inputs req principal)
unfolding generate
generate-IsFirst now inputs req principal = record {
  revision = record {
    revision_id = 1;
    generated_at = now;
    goal = req.goal;
    days = goal_days inputs req;
  };
  only = refl;
  numbered = refl;
  current = refl;
  parent = refl;
}

pub goal_days-tasks :
    (inputs : Inputs) (req : GoalPlanRequest)
    → tasks_of (goal_days inputs req) ≡ ordered_tasks inputs req
unfolding goal_days
goal_days-tasks inputs req =
    (distribute_goal_lem inputs.show_date inputs.today (inputs.daily_minutes req.hours_per_day)
      (ordered_tasks inputs req) (max (target_day inputs req.target_date - inputs.today) 1)).0

-- The record that is stored of a generated plan holds all the planner's tasks in their order, and gives
-- the request back that a replanning starts from: the request's own, with the target date written out.
-- No date may be shown as the empty text.
pub generate-plan_to_request :
    (now stored : ℕ) (inputs : Inputs) (req : GoalPlanRequest) (principal : Option String)
    → ((day : ℕ) → str_eq (inputs.show_date day) "" ≡ false)
    → let plan = (response_to_record stored (generate now inputs req principal) principal).view in
      (plan.tasks ≡ ordered_tasks inputs req)
      × (plan_to_request plan ≡ record req {
        target_date = some (inputs.show_date (target_day inputs req.target_date));
      })
unfolding response_to_record generate plan_to_request
generate-plan_to_request now stored inputs req principal shown = (
  days_tasks_lem (goal_days inputs req) ∙ goal_days-tasks inputs req,
  rw (shown (target_day inputs req.target_date)) refl,
)

-- With this planner, whatever calls the life cycle gets, from no plans on, and whichever of them fail:
-- the revisions, the parent and the ledger of every stored plan are a chain.
pub planned-AreChains :
    (hash : String → String) (now : ℕ) (inputs : Inputs) (xs : List PlanCall)
    → AreChains (
        call_plans hash
          (generate now inputs)
          xs
          (record { plans = []; progress_events = []; history = [] }))
planned-AreChains hash now inputs xs =
    call_plans-AreChains hash (generate now inputs) (generate-IsFirst now inputs) xs _ tt
