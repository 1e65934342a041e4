-- ===== src/Lifecycle/Service/Chain.antt =====
-- The chain of a plan's revisions, and its ledger, under each of the service's operations.
use study_assistance_agent.Prelude.{
  ℕ, suc, ◌+◌, ◌-◌, ◌≤◌, String, ◌≡◌, sym, subst, ap, ◌∙◌, inl, inr, Bool, true, false, not, ◌&&◌,
  Option, none, some, List, [], ◌∷◌, ◌++◌, arith, if◌then◌else◌, ltb, ◌==◌, length, length-append,
  All, Bool-cases, Option-cases,
}
use study_assistance_agent.Prelude.Tables.Keys.{at_key}
use study_assistance_agent.Exec.{◌>>=◌}
use study_assistance_agent.Lifecycle.{
  GoalPlanRequest, GoalPlanResponse, GoalPlanRevision, PlanReplanRequest, PlanProgressRequest,
  PlanProgressEvent, DeviationEntry, PublicPlan, PlanRecord, Store,
}
use study_assistance_agent.Lifecycle.Records.{replan_threshold, append_entry, response_to_record}
use study_assistance_agent.Lifecycle.Service.{
  plan_key, get_plan, save_plan, save_progress_event, list_progress_events, require_plan, adopted,
  adopt, record_progress, persist_generated, next_of, save_next, replan_plan, replan,
}
use study_assistance_agent.Lifecycle.Service.Updates.{All-put, All-found}
use study_assistance_agent.Lifecycle.Service.Next.{
  target_of, is_changed, deviations_at, next_record-next_of, replan-replan_plan, replan_plan-branch,
}

abbrev pub AreRevisions : ℕ → List GoalPlanRevision → Type 0
AreRevisions n [] = Unit
AreRevisions n (r ∷ rs) = (r.revision_id ≡ n) × AreRevisions (suc n) rs

abbrev pub AreEntries : ℕ → List DeviationEntry → Type 0
AreEntries n [] = Unit
AreEntries n (e ∷ es) = (e.revision_id ≡ n) × AreEntries (suc n) es

-- The revisions are numbered from 1 to the current one, the parent is the one before, and the ledger
-- has one entry for every revision but the first, in their order.
pub record IsChain (plan : PublicPlan) : Type 0 where
  pub revisions : AreRevisions 1 plan.revisions
  pub current : length plan.revisions ≡ plan.revision_id
  pub first : 1 ≤ plan.revision_id
  pub parent :
      plan.parent_revision_id
      ≡ (if plan.revision_id == 1 then none else some (plan.revision_id - 1))
  pub entries : AreEntries 2 plan.deviation_ledger
  pub answered : length plan.deviation_ledger + 1 ≡ plan.revision_id

-- A planner gives a first revision.
pub record IsFirst (response : GoalPlanResponse) : Type 0 where
  pub revision : GoalPlanRevision
  pub only : response.revisions ≡ revision ∷ []
  pub numbered : revision.revision_id ≡ 1
  pub current : response.revision_id ≡ 1
  pub parent : response.parent_revision_id ≡ none

AreRevisions-append :
    (n : ℕ) (rs : List GoalPlanRevision) (r : GoalPlanRevision)
    → AreRevisions n rs
    → r.revision_id ≡ n + length rs
    → AreRevisions n (rs ++ r ∷ [])
AreRevisions-append n [] r h e = (omega (arith, e), tt)
AreRevisions-append n (x ∷ xs) r h e =
    (h.0, AreRevisions-append (suc n) xs r h.1 (omega (arith, e)))

AreEntries-append :
    (n : ℕ) (es : List DeviationEntry) (e : DeviationEntry)
    → AreEntries n es
    → e.revision_id ≡ n + length es
    → AreEntries n (es ++ e ∷ [])
AreEntries-append n [] e h q = (omega (arith, q), tt)
AreEntries-append n (x ∷ xs) e h q = (h.0, AreEntries-append (suc n) xs e h.1 (omega (arith, q)))

abbrev pub AreChains : Store → Type 0
AreChains s = All (λ p. IsChain p.view) s.plans

generated-IsChain :
    (now : ℕ) (response : GoalPlanResponse) (principal : Option String)
    → IsFirst response
    → IsChain (response_to_record now response principal).view
unfolding response_to_record
generated-IsChain now response principal f = record {
  revisions = subst (λ rs. AreRevisions 1 rs) (sym f.only) (f.numbered, tt);
  current = ap (λ (rs : List GoalPlanRevision). length rs) f.only ∙ sym f.current;
  first = omega (arith, f.current);
  parent = f.parent ∙ sym (ap (λ n. if n == 1 then none else some (n - 1)) f.current);
  entries = tt;
  answered = sym f.current;
}

adopted-IsChain : (now : ℕ) (p : PlanRecord) → IsChain p.view → IsChain (adopted now p).view
unfolding adopted
adopted-IsChain now p c = record {
  revisions = c.revisions;
  current = c.current;
  first = c.first;
  parent = c.parent;
  entries = c.entries;
  answered = c.answered;
}

next_parent : (n : ℕ) → 1 ≤ n → some n ≡ (if n + 1 == 1 then none else some (n + 1 - 1))
next_parent n h = ground arith

module _ (generate : GoalPlanRequest → Option String → GoalPlanResponse) where
  next_of-IsChain :
      (id : String) (now : ℕ) (plan : PlanRecord) (target : GoalPlanRequest) (changed : Bool)
      (deviations : List String) (events : List PlanProgressEvent) (r : GoalPlanRevision)
      → IsChain plan.view
      → IsChain
          (next_of generate id now plan target changed deviations events
            (plan.view.revisions ++ record r { revision_id = plan.view.revision_id + 1 } ∷ [])).view
  unfolding next_of append_entry
  next_of-IsChain id now plan target changed deviations events r c = record {
    revisions =
        AreRevisions-append 1 plan.view.revisions
          (record r { revision_id = plan.view.revision_id + 1 }) c.revisions
          (omega (arith, c.current));
    current = omega (
      arith,
      length-append plan.view.revisions (record r { revision_id = plan.view.revision_id + 1 } ∷ []),
      c.current,
    );
    first = omega arith;
    parent = next_parent plan.view.revision_id c.first;
    entries =
        AreEntries-append 2 plan.view.deviation_ledger _ c.entries (omega (arith, c.answered));
    answered = omega (arith, length-append plan.view.deviation_ledger, c.answered);
  }

  module _
      (planner : (target : GoalPlanRequest) (principal : Option String)
        → IsFirst (generate target principal)) where
    put-AreChains :
        (p : PlanRecord) (s : Store) → IsChain p.view → AreChains s → AreChains (save_plan p s)
    unfolding save_plan
    put-AreChains p s c cs = All-put (λ x. IsChain x.view) plan_key p s.plans c cs

    found-IsChain :
        (id : String) (p : PlanRecord) (s : Store)
        → AreChains s
        → get_plan id s ≡ some p
        → IsChain p.view
    unfolding get_plan
    found-IsChain id p s cs h = All-found (λ x. IsChain x.view) (at_key plan_key id) s.plans p cs h

    replan_plan-AreChains :
        (has_scheduler : Bool) (today now : ℕ) (id : String) (plan : PlanRecord)
        (req : Option PlanReplanRequest) (s : Store)
        → IsChain plan.view
        → AreChains s
        → AreChains (replan_plan generate has_scheduler today now id plan req s).1
    replan_plan-AreChains has_scheduler today now id plan req s c cs =
        let deviations = deviations_at generate has_scheduler today now id plan req s in
        let events = list_progress_events id s in
        elim (Bool-cases (not (is_changed plan req) && ltb (length deviations) replan_threshold)) [
          | inl quiet ↦
              subst (λ r. AreChains r.1)
                (sym (replan_plan-branch generate has_scheduler today now id plan req s true quiet))
                cs
          | inr triggered ↦
              let f = planner (target_of plan req) plan.principal_id in
              let made =
                next_record-next_of generate id now plan (target_of plan req) (is_changed plan req)
                  deviations events f.revision f.only in
              let stored =
                replan_plan-branch generate has_scheduler today now id plan req s false triggered
                ∙ ap (λ o. save_next generate o s) made in
              subst (λ r. AreChains r.1) (sym stored)
                (put-AreChains _ s
                  (next_of-IsChain id now plan (target_of plan req) (is_changed plan req) deviations
                    events f.revision c)
                  cs)
        ]

    pub replan-AreChains :
        (has_scheduler : Bool) (today now : ℕ) (id : String) (req : Option PlanReplanRequest)
        (s : Store)
        → AreChains s
        → AreChains (replan generate has_scheduler today now id req s).1
    unfolding replan require_plan ◌>>=◌
    replan-AreChains has_scheduler today now id req s cs = elim (Option-cases (get_plan id s)) [
      | inl missing ↦ rw (replan, require_plan, missing) cs
      | inr (plan, there) ↦
          let same = replan-replan_plan generate has_scheduler today now id plan req s there in
          let c = found-IsChain id plan s cs there in
          subst (λ r. AreChains r.1) (sym same)
            (replan_plan-AreChains has_scheduler today now id plan req s c cs)
    ]

    pub adopt-AreChains :
        (now : ℕ) (id : String) (s : Store) → AreChains s → AreChains (adopt now id s).1
    unfolding adopt require_plan ◌>>=◌
    adopt-AreChains now id s cs = elim (Option-cases (get_plan id s)) [
      | inl missing ↦ rw (adopt, require_plan, missing) cs
      | inr (plan, there) ↦
          rw (adopt, require_plan, there)
            (put-AreChains (adopted now plan) s
              (adopted-IsChain now plan (found-IsChain id plan s cs there)) cs)
    ]

    pub persist-AreChains :
        (now : ℕ) (target : GoalPlanRequest) (principal saved : Option String) (s : Store)
        → AreChains s
        → AreChains (persist_generated now (generate target principal) saved s)
    unfolding persist_generated
    persist-AreChains now target principal saved s cs =
        elim (Option-cases (get_plan (generate target principal).plan_id s)) [
          | inl missing ↦
              rw (persist_generated, missing)
                (put-AreChains (response_to_record now (generate target principal) saved) s
                  (generated-IsChain now (generate target principal) saved
                    (planner target principal))
                  cs)
          | inr (plan, there) ↦ rw (persist_generated, there) cs
        ]

    pub progress-AreChains :
        (hash : String → String) (now : ℕ) (req : PlanProgressRequest) (s : Store)
        → AreChains s
        → AreChains (record_progress hash now req s).1
    unfolding record_progress save_progress_event
    progress-AreChains hash now req s cs =
        let same : (record_progress hash now req s).1.plans ≡ s.plans = ground arith in
        subst (λ ps. All (λ p. IsChain p.view) ps) (sym same) cs
