-- ===== src/Lifecycle/Service/Tests.antt =====
-- A planner that gives one revision, and one plan in the store.
use study_assistance_agent.Prelude.{
  order_by, find_row, String, ◌≡◌, refl, true, false, Option, none, some, List, [], ◌∷◌, arith,
  length, select,
}
use study_assistance_agent.Lifecycle.{
  GoalPlanConstraints, GoalPlanRequest, GoalPlanResponse, GoalPlanRevision, GoalPlanTask,
  PlanProgressRequest, PlanProgressEvent, PlanRecord, Store,
}
use study_assistance_agent.Lifecycle.Records.{has, overdue_ids, deviated_ids, response_to_record}
use study_assistance_agent.Lifecycle.Service.{
  unconsumed, get_plan, replan, list_progress_events, event_of,
}
use study_assistance_agent.Lifecycle.Service.Next.{deviations_at}
use study_assistance_agent.Lifecycle.Service.Chain.{IsFirst, AreChains}
use study_assistance_agent.Lifecycle.Service.Calls.{PlanCall, call_plans, call_plans-AreChains}
use study_assistance_agent.Lifecycle.Service.Consumed.{replan-once}

abbrev no_constraints : GoalPlanConstraints
no_constraints = record { required_topics = []; excluded_topics = [] }

abbrev goal_request : GoalPlanRequest
goal_request = record {
  goal = "learn locks";
  course = some "os";
  target_date = some "2026-01-31";
  hours_per_day = 2;
  constraints = no_constraints;
}

abbrev task : String → GoalPlanTask
task id = record {
  task_id = id;
  topic = "locks";
  file = "os/locks.md";
  difficulty = "easy";
  estimated_minutes = 30;
  priority = "high";
  reviewed = false;
  mastery_attempts = 0;
  mastery_correct = 0;
  mastery_last_mastered = none;
}

abbrev first_revision : GoalPlanRequest → GoalPlanRevision
first_revision target = record {
  revision_id = 1;
  generated_at = 0;
  goal = target.goal;
  days =
      record {
        day = 1;
        date = "2026-01-01";
        tasks = task "t1" ∷ task "t2" ∷ task "t3" ∷ [];
        total_minutes = 90;
      }
      ∷ [];
}

abbrev generate : GoalPlanRequest → Option String → GoalPlanResponse
generate target principal = record {
  plan_id = "p1";
  schema_version = "1";
  revision_id = 1;
  target_date = "2026-01-31";
  total_days = 1;
  total_hours = 2;
  revisions = first_revision target ∷ [];
  course = target.course;
  hours_per_day = target.hours_per_day;
  constraints = target.constraints;
  state = "generated";
  parent_revision_id = none;
  adopted_at = none;
}

generate-IsFirst :
    (target : GoalPlanRequest) (principal : Option String) → IsFirst (generate target principal)
generate-IsFirst target principal = record {
  revision = first_revision target;
  only = refl;
  numbered = refl;
  current = refl;
  parent = refl;
}

abbrev skipped : String → PlanProgressRequest
skipped id = record { plan_id = "p1"; task_id = id; event = "skipped" }

abbrev empty_store : Store
empty_store = record { plans = []; progress_events = []; history = [] }

abbrev plan_calls : List PlanCall
plan_calls =
    PlanCall.generated 1 goal_request none none
    ∷ PlanCall.adopts 2 "p1"
    ∷ PlanCall.progressed 3 (skipped "t1")
    ∷ PlanCall.progressed 4 (skipped "t2")
    ∷ PlanCall.progressed 5 (skipped "t3")
    ∷ PlanCall.replanned false 0 6 "p1" none
    ∷ []

call_plans-AreChains_example : AreChains (call_plans (λ k. k) generate plan_calls empty_store)
call_plans-AreChains_example =
    call_plans-AreChains (λ k. k) generate generate-IsFirst plan_calls empty_store tt

abbrev one_plan : PlanRecord
one_plan = response_to_record 1 (generate goal_request none) none

abbrev event : String → PlanProgressEvent
event id = event_of (λ k. k) 3 (skipped id)

-- Three tasks were skipped.
abbrev skipping_store : Store
skipping_store = record {
  plans = one_plan ∷ [];
  progress_events = event "t1" ∷ event "t2" ∷ event "t3" ∷ [];
  history = [];
}

three_left : length (deviations_at generate false 0 6 "p1" one_plan none skipping_store) ≡ 3
unfolding unconsumed select response_to_record list_progress_events order_by
three_left = refl

not_overdue :
    (t : String)
    → has t (overdue_ids [] (task "t1" ∷ task "t2" ∷ task "t3" ∷ [])) ≡ true
    → has t (deviated_ids [] one_plan.view (list_progress_events "p1" skipping_store)) ≡ true
unfolding overdue_ids
not_overdue t h = ground arith

replan-once_example :
    let r = replan generate false 0 6 "p1" none skipping_store in
    replan generate false 0 9 "p1" none r.1 ≡ r
unfolding get_plan find_row response_to_record
replan-once_example =
    replan-once generate (λ target principal. (first_revision target, refl)) "p1" one_plan none
      skipping_store refl false 0 6 0 9 (omega (arith, three_left)) not_overdue
