-- ===== src/Lifecycle/Service/Next.antt =====
-- The branches of `replan`, and what is stored after it.
use study_assistance_agent.Prelude.{
  ℕ, ◌+◌, ◌<◌, String, ◌≡◌, refl, ap, ◌∙◌, Bool, true, false, not, ◌&&◌, Option, some, List, [],
  ◌∷◌, ◌++◌, arith, if◌then◌else◌, ltb, length, find_row, eq_iff,
}
use study_assistance_agent.Prelude.Tables.Keys.{at_key, find_row-put_row}
use study_assistance_agent.Exec.{Result, ok, ◌>>=◌}
use study_assistance_agent.Lifecycle.{
  GoalPlanRequest, GoalPlanResponse, GoalPlanRevision, PlanReplanRequest, PlanProgressEvent,
  PublicPlan, PlanRecord, Store,
}
use study_assistance_agent.Lifecycle.Requests.{same_request, apply_override, plan_to_request}
use study_assistance_agent.Lifecycle.Records.{replan_threshold, set_last}
use study_assistance_agent.Lifecycle.Service.{
  plan_key, get_plan, save_plan, list_progress_events, require_plan, unconsumed, next_of,
  next_record, save_next, overdue_now, replan_plan, replan,
}

-- What a plan's record says of the request that it answers.
abbrev pub target_of : PlanRecord → Option PlanReplanRequest → GoalPlanRequest
target_of plan req = apply_override (plan_to_request plan.view) req

abbrev pub is_changed : PlanRecord → Option PlanReplanRequest → Bool
is_changed plan req = not (same_request (target_of plan req) (plan_to_request plan.view))

-- A planner gives a plan with a revision.
abbrev pub IsPlanner : (GoalPlanRequest → Option String → GoalPlanResponse) → Type 0
IsPlanner generate =
    (target : GoalPlanRequest) (principal : Option String)
    → (r : GoalPlanRevision) × ((generate target principal).revisions ≡ r ∷ [])

pub set_last-append :
    (n : ℕ) (xs : List GoalPlanRevision) (r : GoalPlanRevision)
    → set_last n (xs ++ r ∷ []) ≡ some (xs ++ record r { revision_id = n } ∷ [])
unfolding set_last
set_last-append n [] r = refl
set_last-append n (x ∷ []) r = refl
set_last-append n (x ∷ y ∷ ys) r =
    let rest = set_last-append n (y ∷ ys) r in rw (rest, set_last) refl

module _ (generate : GoalPlanRequest → Option String → GoalPlanResponse) where
  pub next_record-next_of :
      (id : String) (now : ℕ) (plan : PlanRecord) (target : GoalPlanRequest) (changed : Bool)
      (deviations : List String) (events : List PlanProgressEvent) (r : GoalPlanRevision)
      → (generate target plan.principal_id).revisions ≡ r ∷ []
      → next_record generate id now plan target changed deviations events
        ≡ some (
            next_of generate id now plan target changed deviations events
              (plan.view.revisions ++ record r { revision_id = plan.view.revision_id + 1 } ∷ []))
  unfolding next_record
  next_record-next_of id now plan target changed deviations events r h =
      let last =
        ap (λ x. set_last (plan.view.revision_id + 1) (plan.view.revisions ++ x)) h
        ∙ set_last-append (plan.view.revision_id + 1) plan.view.revisions r in
      rw (next_record, last) refl

  module _ (has_scheduler : Bool) (today now : ℕ) (id : String) (plan : PlanRecord)
      (req : Option PlanReplanRequest) (s : Store) where
    abbrev pub deviations_at : List String
    deviations_at =
        unconsumed generate (overdue_now generate has_scheduler today s) plan.view
          (list_progress_events id s)

    pub replan-replan_plan :
        get_plan id s ≡ some plan
        → replan generate has_scheduler today now id req s
          ≡ replan_plan generate has_scheduler today now id plan req s
    unfolding replan require_plan ◌>>=◌
    replan-replan_plan h = rw (replan, require_plan, h) refl

    abbrev pub replanned : Result PublicPlan × Store
    replanned =
        save_next generate
          (next_record generate id now plan (target_of plan req) (is_changed plan req) deviations_at
            (list_progress_events id s))
          s

    pub replan_plan-branch :
        (b : Bool)
        → (not (is_changed plan req) && ltb (length deviations_at) replan_threshold) ≡ b
        → replan_plan generate has_scheduler today now id plan req s
          ≡ (if b then (ok plan.view, s) else replanned)
    unfolding replan_plan
    replan_plan-branch b h = ap (λ c. if c then (ok plan.view, s) else replanned) h

    pub replan_plan-quiet :
        is_changed plan req ≡ false
        → length deviations_at < replan_threshold
        → replan_plan generate has_scheduler today now id plan req s ≡ (ok plan.view, s)
    unfolding replan_plan
    replan_plan-quiet same few =
        let quiet : (not (is_changed plan req) && ltb (length deviations_at) replan_threshold)
            ≡ true =
          ground arith in
        replan_plan-branch true quiet

    pub replan_plan-triggered :
        (not (is_changed plan req) && ltb (length deviations_at) replan_threshold) ≡ false
        → replan_plan generate has_scheduler today now id plan req s
          ≡ save_next generate
              (next_record generate id now plan
                (target_of plan req)
                (is_changed plan req)
                deviations_at
                (list_progress_events id s))
              s
    unfolding replan_plan
    replan_plan-triggered h = replan_plan-branch false h

-- What is saved is read.
pub get_plan-save_plan :
    (id : String) (p : PlanRecord) (s : Store)
    → p.view.plan_id ≡ id
    → get_plan id (save_plan p s) ≡ some p
unfolding get_plan save_plan
get_plan-save_plan id p s h =
    let found = find_row-put_row plan_key id p s.plans in
    let own = (eq_iff p.view.plan_id id).1 h in
    found ∙ ap (λ b. if b then some p else find_row (at_key plan_key id) s.plans) own
