-- ===== src/Lifecycle.antt =====
-- The data of platform/app/plan_lifecycle.py, with the models of platform/app/models.py that it
-- keeps. The daily hours, the total hours and the summary are only copied and compared: the hours
-- are numbers of the planner's unit, and the summary is left out. Time stamps are numbers.
pub mod Requests
pub mod Records
pub mod Service
use study_assistance_agent.Prelude.{ℕ, String, Bool, Option, List}
use study_assistance_agent.Review.{Review}

pub record GoalPlanConstraints : Type 0 where
  pub required_topics : List String
  pub excluded_topics : List String

pub record GoalPlanRequest : Type 0 where
  pub goal : String
  pub course : Option String
  pub target_date : Option String
  pub hours_per_day : ℕ
  pub constraints : GoalPlanConstraints

pub record GoalPlanTask : Type 0 where
  pub task_id : String
  pub topic : String
  pub file : String
  pub difficulty : String
  pub estimated_minutes : ℕ
  pub priority : String
  pub reviewed : Bool
  pub mastery_attempts : ℕ
  pub mastery_correct : ℕ
  pub mastery_last_mastered : Option String

pub record GoalPlanDay : Type 0 where
  pub day : ℕ
  pub date : String
  pub tasks : List GoalPlanTask
  pub total_minutes : ℕ

pub record GoalPlanRevision : Type 0 where
  pub revision_id : ℕ
  pub generated_at : ℕ
  pub goal : String
  pub days : List GoalPlanDay

pub record PlanProgressRequest : Type 0 where
  pub plan_id : String
  pub task_id : String
  pub event : String

pub record PlanProgressEvent : Type 0 where
  pub event_id : String
  pub plan_id : String
  pub task_id : String
  pub event : String
  pub occurred_at : ℕ

pub record GoalPlanResponse : Type 0 where
  pub plan_id : String
  pub schema_version : String
  pub revision_id : ℕ
  pub target_date : String
  pub total_days : ℕ
  pub total_hours : ℕ
  pub revisions : List GoalPlanRevision
  pub course : Option String
  pub hours_per_day : ℕ
  pub constraints : GoalPlanConstraints
  pub state : String
  pub parent_revision_id : Option ℕ
  pub adopted_at : Option ℕ

pub record PlanReplanRequest : Type 0 where
  pub goal : Option String
  pub course : Option String
  pub target_date : Option String
  pub hours_per_day : Option ℕ
  pub constraints : Option GoalPlanConstraints

-- The text of `_replan_reason`, by its two parts.
pub record ReplanReason : Type 0 where
  pub is_changed : Bool
  pub deviated_tasks : Option ℕ

-- An entry of the deviation ledger.
pub record DeviationEntry : Type 0 where
  pub revision_id : ℕ
  pub trigger : ReplanReason
  pub consumed_task_ids : List String

-- The view of a plan that callers get.
pub record PublicPlan : Type 0 where
  pub plan_id : String
  pub schema_version : String
  pub state : String
  pub revision_id : ℕ
  pub goal : String
  pub target_date : String
  pub total_days : ℕ
  pub total_hours : ℕ
  pub course : Option String
  pub hours_per_day : ℕ
  pub constraints : GoalPlanConstraints
  pub parent_revision_id : Option ℕ
  pub adopted_at : Option ℕ
  pub created_at : ℕ
  pub updated_at : ℕ
  pub revisions : List GoalPlanRevision
  pub tasks : List GoalPlanTask
  pub progress_events : List PlanProgressEvent
  pub replan_reason : Option ReplanReason
  pub deviation_ledger : List DeviationEntry

-- The record that is stored: the view, and the internal key.
pub record PlanRecord : Type 0 where
  pub view : PublicPlan
  pub principal_id : Option String

-- The tables `plans`, of which the payload is read, and `progress_events`, and the review history.
-- The table `plan_tasks`, which is never read, is left out.
pub record Store : Type 0 where
  pub plans : List PlanRecord
  pub progress_events : List PlanProgressEvent
  pub history : List Review
