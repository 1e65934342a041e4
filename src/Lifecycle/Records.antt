-- ===== src/Lifecycle/Records.antt =====
-- The helpers of platform/app/plan_lifecycle.py on plan records: `_response_to_record`, the sets of
-- deviated and of consumed tasks, `_append_deviation_entry` and `_replan_reason`. A set of task ids is
-- a list without duplicates.
use Prim.Native.String.{compare}
use Prim.Native.Nat.{Ordering}
use study_assistance_agent.Prelude.{
  ℕ, String, str_eq, Bool, true, false, not, ◌||◌, Option, none, some, List, [], ◌∷◌, ◌++◌,
  if◌then◌else◌, ltb, leb, any, select, order_by,
}
use study_assistance_agent.Review.{Review, date_of}
use study_assistance_agent.Lifecycle.{
  GoalPlanTask, GoalPlanDay, GoalPlanRevision, PlanProgressEvent, GoalPlanResponse, ReplanReason,
  DeviationEntry, PublicPlan, PlanRecord,
}

abbrev pub replan_threshold : ℕ
replan_threshold = 3

abbrev pub has : String → List String → Bool
has t xs = any (λ x. str_eq x t) xs

abbrev pub add_once : String → List String → List String
add_once t xs = if has t xs then xs else t ∷ xs

unfoldable pub union : List String → List String → List String
union [] ys = ys
union (x ∷ xs) ys = add_once x (union xs ys)

unfoldable pub difference : List String → List String → List String
difference xs ys = select (λ x. not (has x ys)) xs

-- `event["event"] in DEVIATION_EVENTS`
abbrev pub is_deviation : PlanProgressEvent → Bool
is_deviation e = str_eq e.event "skipped" || str_eq e.event "overdue"

unfoldable pub event_ids : List PlanProgressEvent → List String
event_ids [] = []
event_ids (e ∷ es) =
    let rest = event_ids es in if is_deviation e then add_once e.task_id rest else rest

-- `overdue_by_file` of platform/app/review_scheduler.py: the files that are overdue on a date.
unfoldable pub overdue_files : ℕ → List Review → List String
overdue_files today [] = []
overdue_files today (r ∷ rs) =
    let rest = overdue_files today rs in
    if ltb (date_of r.next_review) today then r.file ∷ rest else rest

-- `_overdue_task_ids`, from the overdue files
unfoldable pub overdue_ids : List String → List GoalPlanTask → List String
overdue_ids files [] = []
overdue_ids files (t ∷ ts) =
    let rest = overdue_ids files ts in if has t.file files then add_once t.task_id rest else rest

-- `_deviated_task_ids`
unfoldable pub deviated_ids : List String → PublicPlan → List PlanProgressEvent → List String
unfolding event_ids overdue_ids union
deviated_ids files plan events = union (overdue_ids files plan.tasks) (event_ids events)

-- `_consumed_task_ids`
unfoldable pub consumed_ids : List DeviationEntry → List String
unfolding union
consumed_ids [] = []
consumed_ids (e ∷ es) = union e.consumed_task_ids (consumed_ids es)

abbrev pub text_leb : String → String → Bool
text_leb a b = elim (compare a b) [ Ordering.gt ↦ false | _ ↦ true ]

unfoldable pub append_entry : PublicPlan → ℕ → ReplanReason → List String → List DeviationEntry
append_entry plan revision reason consumed =
    plan.deviation_ledger
    ++ record {
      revision_id = revision;
      trigger = reason;
      consumed_task_ids = order_by text_leb consumed;
    }
      ∷ []

unfoldable pub replan_reason : Bool → ℕ → ReplanReason
replan_reason changed count = record {
  is_changed = changed;
  deviated_tasks = if leb replan_threshold count then some count else none;
}

unfoldable pub days_tasks : List GoalPlanDay → List GoalPlanTask
days_tasks [] = []
days_tasks (d ∷ ds) = d.tasks ++ days_tasks ds

abbrev pub first_tasks : List GoalPlanRevision → List GoalPlanTask
first_tasks [] = []
first_tasks (r ∷ rs) = days_tasks r.days

abbrev pub first_goal : List GoalPlanRevision → String
first_goal [] = ""
first_goal (r ∷ rs) = r.goal

unfoldable pub response_to_record : ℕ → GoalPlanResponse → Option String → PlanRecord
unfolding days_tasks
response_to_record now response principal = record {
  view = record {
    plan_id = response.plan_id;
    schema_version = response.schema_version;
    state = response.state;
    revision_id = response.revision_id;
    goal = first_goal response.revisions;
    target_date = response.target_date;
    total_days = response.total_days;
    total_hours = response.total_hours;
    course = response.course;
    hours_per_day = response.hours_per_day;
    constraints = response.constraints;
    parent_revision_id = response.parent_revision_id;
    adopted_at = response.adopted_at;
    created_at = now;
    updated_at = now;
    revisions = response.revisions;
    tasks = first_tasks response.revisions;
    progress_events = [];
    replan_reason = none;
    deviation_ledger = [];
  };
  principal_id = principal;
}

-- `revisions[-1]["revision_id"] = n`; `none` is the exception of an empty list.
unfoldable pub set_last : ℕ → List GoalPlanRevision → Option (List GoalPlanRevision)
set_last n [] = none
set_last n (r ∷ []) = some (record r { revision_id = n } ∷ [])
set_last n (r ∷ r' ∷ rs) = elim (set_last n (r' ∷ rs)) [ none ↦ none | some rest ↦ some (r ∷ rest) ]
