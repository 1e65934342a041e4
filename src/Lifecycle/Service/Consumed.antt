-- ===== src/Lifecycle/Service/Consumed.antt =====
-- Deviations are answered once: what one replanning has consumed does not trigger the next.
use study_assistance_agent.Prelude.{
  ℕ, ◌+◌, ◌≤◌, String, ◌≡◌, refl, sym, subst, ap, ◌∙◌, Bool, true, false, not, ◌&&◌, ◌||◌, Option,
  none, some, List, [], ◌∷◌, ◌++◌, arith, if◌then◌else◌, ltb, leb, length, order_by,
}
use study_assistance_agent.Exec.{ok}
use study_assistance_agent.Lifecycle.{
  GoalPlanRequest, GoalPlanResponse, GoalPlanRevision, PlanReplanRequest, PlanProgressEvent,
  DeviationEntry, PublicPlan, PlanRecord, Store,
}
use study_assistance_agent.Lifecycle.Requests.{same_request_refl, apply_override, plan_to_request}
use study_assistance_agent.Lifecycle.Records.{
  replan_threshold, has, event_ids, overdue_ids, deviated_ids, consumed_ids, append_entry,
  replan_reason, response_to_record, text_leb, first_tasks,
}
use study_assistance_agent.Lifecycle.Service.{
  unconsumed, next_of, save_next, replan, overdue_now, list_progress_events, save_plan, get_plan,
}
use study_assistance_agent.Lifecycle.Service.Next.{
  IsPlanner, target_of, is_changed, deviations_at, next_record-next_of, replan-replan_plan,
  replan_plan-quiet, replan_plan-triggered, get_plan-save_plan,
}
use study_assistance_agent.Lifecycle.Service.Members.{
  has-union, has-difference, has-order_by, has-consumed_ids, none-left, has-deviated_ids,
  event-deviated, covers,
}

module _ (generate : GoalPlanRequest → Option String → GoalPlanResponse) where
  -- The ledger of the next record has all that the old one had, and the deviations that it answers.
  has-next_of :
      (id : String) (now : ℕ) (plan : PlanRecord) (target : GoalPlanRequest) (changed : Bool)
      (deviations : List String) (events : List PlanProgressEvent)
      (revisions : List GoalPlanRevision) (t : String)
      → has t (
          consumed_ids
            (next_of generate id now plan target changed deviations events
              revisions).view.deviation_ledger)
        ≡ (has t (consumed_ids plan.view.deviation_ledger)
            || has t (if leb replan_threshold (length deviations) then deviations else []))
  unfolding next_of append_entry consumed_ids
  has-next_of id now plan target changed deviations events revisions t =
      let answered = if leb replan_threshold (length deviations) then deviations else [] in
      let reason = replan_reason changed (length deviations) in
      let entry : List DeviationEntry =
        record {
          revision_id = plan.view.revision_id + 1;
          trigger = reason;
          consumed_task_ids = order_by text_leb answered;
        }
        ∷ [] in
      let both = has-consumed_ids t plan.view.deviation_ledger entry in
      let one = has-union t (order_by text_leb answered) [] in
      ground (arith, both, one, has-order_by text_leb t answered)

  has-unconsumed :
      (files : List String) (plan : PublicPlan) (events : List PlanProgressEvent) (t : String)
      → has t (unconsumed generate files plan events) ≡ (
          has t (deviated_ids files plan events)
          && not (has t (consumed_ids plan.deviation_ledger)))
  unfolding unconsumed
  has-unconsumed files plan events t =
      has-difference t (deviated_ids files plan events) (consumed_ids plan.deviation_ledger)

  has-answered :
      (id : String) (now : ℕ) (plan : PlanRecord) (target : GoalPlanRequest) (changed : Bool)
      (files : List String) (events : List PlanProgressEvent) (revisions : List GoalPlanRevision)
      → replan_threshold ≤ length (unconsumed generate files plan.view events)
      → (t : String)
      → has t (
          consumed_ids
            (next_of generate id now plan target changed
              (unconsumed generate files plan.view events)
              events
              revisions).view.deviation_ledger)
        ≡ (has t (consumed_ids plan.view.deviation_ledger)
            || has t (unconsumed generate files plan.view events))
  has-answered id now plan target changed files events revisions enough t =
      let reached : leb replan_threshold (length (unconsumed generate files plan.view events))
          ≡ true =
        ground arith in
      has-next_of id now plan target changed (unconsumed generate files plan.view events) events
        revisions t
      ∙ ap
          (λ b.
            has t (consumed_ids plan.view.deviation_ledger)
            || has t (if b then unconsumed generate files plan.view events else []))
          reached

  -- A replanning that its deviations have triggered answers them all.
  answered-left :
      (id : String) (now : ℕ) (plan : PlanRecord) (target : GoalPlanRequest) (changed : Bool)
      (files later_files : List String) (events : List PlanProgressEvent)
      (revisions : List GoalPlanRevision)
      → replan_threshold ≤ length (unconsumed generate files plan.view events)
      → let next =
          next_of generate id now plan target changed
            (unconsumed generate files plan.view events)
            events
            revisions in
        ((t : String)
          → has t (overdue_ids later_files next.view.tasks) ≡ true
          → has t (deviated_ids files plan.view events) ≡ true)
        → length (unconsumed generate later_files next.view events) ≡ 0
  unfolding unconsumed
  answered-left id now plan target changed files later_files events revisions enough few =
      let next =
        next_of generate id now plan target changed (unconsumed generate files plan.view events)
          events revisions in
      let covered : (t : String)
          → has t (deviated_ids later_files next.view events) ≡ true
          → has t (consumed_ids next.view.deviation_ledger) ≡ true =
        λ t m.
          covers (has t (overdue_ids later_files next.view.tasks)) (has t (event_ids events))
            (has t (deviated_ids files plan.view events))
            (has t (consumed_ids plan.view.deviation_ledger))
            (has t (deviated_ids later_files next.view events))
            (has t (unconsumed generate files plan.view events))
            (has t (consumed_ids next.view.deviation_ledger)) m
            (has-deviated_ids t later_files next.view events) (few t)
            (event-deviated t files plan.view events) (has-unconsumed files plan.view events t)
            (has-answered id now plan target changed files events revisions enough t) in
      none-left (deviated_ids later_files next.view events)
        (consumed_ids next.view.deviation_ledger) covered

  module _ (id : String) (now : ℕ) (plan : PlanRecord) (target : GoalPlanRequest) (changed : Bool)
      (deviations : List String) (events : List PlanProgressEvent)
      (revisions : List GoalPlanRevision) where
    next_id :
        (next_of generate id now plan target changed deviations events revisions).view.plan_id ≡ id
    unfolding next_of
    next_id = refl

    next_tasks :
        (next_of generate id now plan target changed deviations events revisions).view.tasks
        ≡ first_tasks (generate target plan.principal_id).revisions
    unfolding next_of response_to_record
    next_tasks = refl

  unchanged : (plan : PlanRecord) → is_changed plan none ≡ false
  unfolding apply_override
  unchanged plan = ap not (same_request_refl (plan_to_request plan.view))

  -- A plan that has been saved, and whose deviations are all answered, is left alone.
  settled :
      (has_scheduler : Bool) (today now : ℕ) (id : String) (next : PlanRecord) (s : Store)
      → next.view.plan_id ≡ id
      → length (
          unconsumed generate
            (overdue_now generate has_scheduler today s)
            next.view
            (list_progress_events id s))
        ≡ 0
      → replan generate has_scheduler today now id none (save_plan next s)
        ≡ (ok next.view, save_plan next s)
  unfolding save_plan list_progress_events
  settled has_scheduler today now id next s own none_left =
      replan-replan_plan generate has_scheduler today now id next none (save_plan next s)
        (get_plan-save_plan id next s own)
      ∙ replan_plan-quiet generate has_scheduler today now id next none (save_plan next s)
          (unchanged next) (omega (arith, none_left))

  module _ (planner : IsPlanner generate) (id : String) (plan : PlanRecord)
      (req : Option PlanReplanRequest) (s : Store) (there : get_plan id s ≡ some plan) where
    -- The record that a triggered replanning saves.
    saved :
        (has_scheduler : Bool) (today now : ℕ)
        → (not (is_changed plan req)
            && ltb
                (length (deviations_at generate has_scheduler today now id plan req s))
                replan_threshold)
          ≡ false
        → (revisions : List GoalPlanRevision) × let next =
              next_of generate id now plan
                (target_of plan req)
                (is_changed plan req)
                (deviations_at generate has_scheduler today now id plan req s)
                (list_progress_events id s)
                revisions in
            replan generate has_scheduler today now id req s ≡ (ok next.view, save_plan next s)
    saved has_scheduler today now h =
        let (r, one) = planner (target_of plan req) plan.principal_id in
        let revisions =
          plan.view.revisions ++ record r { revision_id = plan.view.revision_id + 1 } ∷ [] in
        let made =
          next_record-next_of generate id now plan (target_of plan req) (is_changed plan req)
            (deviations_at generate has_scheduler today now id plan req s)
            (list_progress_events id s) r one in
        (
          revisions,
          replan-replan_plan generate has_scheduler today now id plan req s there
              ∙ replan_plan-triggered generate has_scheduler today now id plan req s h
              ∙ ap (λ o. save_next generate o s) made,
        )

    -- A replanning that deviations have triggered is not triggered again: a second call, at any time,
    -- gives the same plan and changes nothing, as long as no task of the new plan is overdue that was
    -- not a deviation before. The plan must be there, at least three deviations must be unanswered,
    -- and the planner must give one revision.
    pub replan-once :
        (has_scheduler : Bool) (today now later after : ℕ)
        → replan_threshold ≤ length (deviations_at generate has_scheduler today now id plan req s)
        → ((t : String)
            → has t (
                overdue_ids
                  (overdue_now generate has_scheduler later s)
                  (first_tasks (generate (target_of plan req) plan.principal_id).revisions))
              ≡ true
            → has t (
                deviated_ids
                  (overdue_now generate has_scheduler today s)
                  plan.view
                  (list_progress_events id s))
              ≡ true)
        → let r = replan generate has_scheduler today now id req s in
          replan generate has_scheduler later after id none r.1 ≡ r
    replan-once has_scheduler today now later after enough few =
        let triggered : (not (is_changed plan req)
              && ltb (length (deviations_at generate has_scheduler today now id plan req s))
                  replan_threshold)
            ≡ false =
          ground arith in
        let (revisions, done) = saved has_scheduler today now triggered in
        let next =
          next_of generate id now plan (target_of plan req) (is_changed plan req)
            (deviations_at generate has_scheduler today now id plan req s)
            (list_progress_events id s) revisions in
        let none_left =
          answered-left id now plan (target_of plan req) (is_changed plan req)
            (overdue_now generate has_scheduler today s)
            (overdue_now generate has_scheduler later s) (list_progress_events id s) revisions
            enough
            (λ t m. few t (
              subst
                (λ ts. has t (overdue_ids (overdue_now generate has_scheduler later s) ts) ≡ true)
                (next_tasks id now plan (target_of plan req) (is_changed plan req)
                  (deviations_at generate has_scheduler today now id plan req s)
                  (list_progress_events id s) revisions)
                m)) in
        ap (λ r. replan generate has_scheduler later after id none r.1) done
        ∙ settled has_scheduler later after id next s
            (next_id id now plan (target_of plan req) (is_changed plan req)
              (deviations_at generate has_scheduler today now id plan req s)
              (list_progress_events id s) revisions)
            none_left
        ∙ sym done
