-- ===== src/Lifecycle/Service.antt =====
-- `PlanLifecycleService` of platform/app/plan_lifecycle.py, with the statements of
-- platform/app/learning_store.py that it issues. The planner and the hash are parameters.
mod Next
mod Updates
pub mod Chain
pub mod Calls
mod Members
mod Consumed
mod Progress
mod Tests
use study_assistance_agent.Prelude.{
  ℕ, zero, suc, ◌+◌, String, str_eq, ◌+++◌, Bool, true, false, not, ◌&&◌, ◌||◌, Option, none, some,
  List, [], ◌∷◌, ◌++◌, if◌then◌else◌, ltb, leb, length, is_some, find_row, select, order_by,
}
use study_assistance_agent.Prelude.Tables.Keys.{at_key, put_row}
use study_assistance_agent.Exec.{
  Exec, ok, err, lift, ◌>>=◌, plan_not_found, illegal_plan_progress_event, index_error,
}
use study_assistance_agent.Lifecycle.{
  GoalPlanRequest, GoalPlanResponse, PlanReplanRequest, PlanProgressRequest, PlanProgressEvent,
  GoalPlanRevision, ReplanReason, PublicPlan, PlanRecord, Store,
}
use study_assistance_agent.Lifecycle.Requests.{same_request, apply_override, plan_to_request}
use study_assistance_agent.Lifecycle.Records.{
  replan_threshold, difference, overdue_files, deviated_ids, consumed_ids, append_entry,
  replan_reason, response_to_record, set_last,
}

abbrev pub plan_key : PlanRecord → String
plan_key p = p.view.plan_id

-- `get_plan`
unfoldable pub get_plan : String → Store → Option PlanRecord
get_plan id s = find_row (at_key plan_key id) s.plans

-- `save_plan`: an insert, or an update of the row with the same key.
unfoldable pub save_plan : PlanRecord → Store → Store
save_plan p s = record s { plans = put_row plan_key p s.plans }

abbrev pub event_key : PlanProgressEvent → String
event_key e = e.event_id

-- `INSERT OR IGNORE`
unfoldable pub save_progress_event : PlanProgressEvent → Store → Store
save_progress_event e s =
    if is_some (find_row (at_key event_key e.event_id) s.progress_events)
    then s
    else record s { progress_events = s.progress_events ++ e ∷ [] }

unfoldable pub list_progress_events : String → Store → List PlanProgressEvent
list_progress_events id s =
    order_by (λ a b. leb a.occurred_at b.occurred_at)
      (select (λ e. str_eq e.plan_id id) s.progress_events)

-- `_require_plan`
unfoldable pub require_plan : String → Exec Store PlanRecord
unfolding get_plan
require_plan id s = elim (get_plan id s) [ none ↦ (err plan_not_found, s) | some p ↦ (ok p, s) ]

unfoldable pub get : String → Exec Store PublicPlan
unfolding require_plan ◌>>=◌
get id = do p ← require_plan id; lift (ok p.view)

unfoldable pub adopted : ℕ → PlanRecord → PlanRecord
adopted now p = record p {
  view = record p.view { state = "adopted"; adopted_at = some now; updated_at = now };
}

unfoldable pub adopt : ℕ → String → Exec Store PublicPlan
unfolding require_plan save_plan adopted ◌>>=◌
adopt now id = do p ← require_plan id; λ s. (ok (adopted now p).view, save_plan (adopted now p) s)

-- `event in RECORDED_EVENTS`
abbrev pub is_recorded : String → Bool
is_recorded e = str_eq e "completed" || (str_eq e "skipped" || str_eq e "overdue")

module _ (hash : String → String) where
  abbrev pub event_of : ℕ → PlanProgressRequest → PlanProgressEvent
  event_of now req = record {
    event_id = hash (req.plan_id +++ ("|" +++ (req.task_id +++ ("|" +++ req.event))));
    plan_id = req.plan_id;
    task_id = req.task_id;
    event = req.event;
    occurred_at = now;
  }

  unfoldable pub record_progress : ℕ → PlanProgressRequest → Exec Store PlanProgressEvent
  unfolding get_plan save_progress_event
  record_progress now req s =
      if not (is_recorded req.event)
      then (err illegal_plan_progress_event, s)
      else elim (get_plan req.plan_id s) [
        | none ↦ (err plan_not_found, s)
        | some p ↦ (ok (event_of now req), save_progress_event (event_of now req) s)
      ]

unfoldable pub persist_generated : ℕ → GoalPlanResponse → Option String → Store → Store
unfolding get_plan save_plan response_to_record
persist_generated now response principal s = elim (get_plan response.plan_id s) [
  | some p ↦ s
  | none ↦ save_plan (response_to_record now response principal) s
]

module _ (generate : GoalPlanRequest → Option String → GoalPlanResponse) where
  -- The files that are overdue; without a scheduler, none are.
  abbrev pub overdue_now : Bool → ℕ → Store → List String
  overdue_now has_scheduler today s = if has_scheduler then overdue_files today s.history else []

  -- What `replan` compares with the threshold.
  unfoldable pub unconsumed : List String → PublicPlan → List PlanProgressEvent → List String
  unfolding deviated_ids consumed_ids difference
  unconsumed files plan events =
      difference (deviated_ids files plan events) (consumed_ids plan.deviation_ledger)

  -- The record of the next revision, from the revisions with the new one.
  unfoldable pub next_of :
      String
      → ℕ
      → PlanRecord
      → GoalPlanRequest
      → Bool
      → List String
      → List PlanProgressEvent
      → List GoalPlanRevision
      → PlanRecord
  unfolding response_to_record replan_reason append_entry
  next_of id now plan target changed deviations events revisions =
      let old = plan.view in
      let fresh = response_to_record now (generate target plan.principal_id) plan.principal_id in
      let reason = replan_reason changed (length deviations) in
      record fresh {
        view = record fresh.view {
          plan_id = id;
          state = "replanned";
          parent_revision_id = some old.revision_id;
          revision_id = old.revision_id + 1;
          adopted_at = old.adopted_at;
          created_at = old.created_at;
          updated_at = now;
          revisions = revisions;
          progress_events = events;
          replan_reason = some reason;
          deviation_ledger =
              append_entry old (old.revision_id + 1) reason
                (if leb replan_threshold (length deviations) then deviations else []);
        };
      }

  unfoldable pub next_record :
      String
      → ℕ
      → PlanRecord
      → GoalPlanRequest
      → Bool
      → List String
      → List PlanProgressEvent
      → Option PlanRecord
  next_record id now plan target changed deviations events =
      let fresh = generate target plan.principal_id in
      elim (set_last (plan.view.revision_id + 1) (plan.view.revisions ++ fresh.revisions)) [
        | none ↦ none
        | some revisions ↦ some (next_of id now plan target changed deviations events revisions)
      ]

  abbrev pub save_next : Option PlanRecord → Exec Store PublicPlan
  save_next none s = (err index_error, s)
  save_next (some next) s = (ok next.view, save_plan next s)

  -- The plan is there.
  unfoldable pub replan_plan :
      Bool → ℕ → ℕ → String → PlanRecord → Option PlanReplanRequest → Exec Store PublicPlan
  replan_plan has_scheduler today now id plan req s =
      let events = list_progress_events id s in
      let current = plan_to_request plan.view in
      let target = apply_override current req in
      let changed = not (same_request target current) in
      let deviations = unconsumed (overdue_now has_scheduler today s) plan.view events in
      if not changed && ltb (length deviations) replan_threshold
      then (ok plan.view, s)
      else save_next (next_record id now plan target changed deviations events) s

  unfoldable pub replan : Bool → ℕ → ℕ → String → Option PlanReplanRequest → Exec Store PublicPlan
  unfolding require_plan ◌>>=◌
  replan has_scheduler today now id req = do
    p ← require_plan id
    replan_plan has_scheduler today now id p req
