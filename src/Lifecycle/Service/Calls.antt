-- ===== src/Lifecycle/Service/Calls.antt =====
-- Sequences of calls of the life cycle's service.
use study_assistance_agent.Prelude.{ℕ, String, Bool, Option, List, [], ◌∷◌}
use study_assistance_agent.Lifecycle.{
  GoalPlanRequest, GoalPlanResponse, PlanReplanRequest, PlanProgressRequest, Store,
}
use study_assistance_agent.Lifecycle.Service.{adopt, record_progress, persist_generated, replan}
use study_assistance_agent.Lifecycle.Service.Chain.{
  IsFirst, AreChains, replan-AreChains, adopt-AreChains, persist-AreChains, progress-AreChains,
}

-- The calls of the service, with what the planner is asked for.
pub data PlanCall : Type 0 where
  generated : ℕ → GoalPlanRequest → Option String → Option String → PlanCall
  adopts : ℕ → String → PlanCall
  progressed : ℕ → PlanProgressRequest → PlanCall
  replanned : Bool → ℕ → ℕ → String → Option PlanReplanRequest → PlanCall

module _ (hash : String → String)
    (generate : GoalPlanRequest → Option String → GoalPlanResponse) where
  abbrev pub call_plan : PlanCall → Store → Store
  call_plan (PlanCall.generated now target principal saved) s =
      persist_generated now (generate target principal) saved s
  call_plan (PlanCall.adopts now id) s = (adopt now id s).1
  call_plan (PlanCall.progressed now req) s = (record_progress hash now req s).1
  call_plan (PlanCall.replanned has_scheduler today now id req) s =
      (replan generate has_scheduler today now id req s).1

  unfoldable pub call_plans : List PlanCall → Store → Store
  call_plans [] s = s
  call_plans (x ∷ xs) s = call_plans xs (call_plan x s)

  -- Whatever calls the service gets, in any order, and whichever of them fail: in every stored plan the
  -- revisions are numbered from 1 without a gap, the plan is at the last of them, its parent is the one
  -- before, and the ledger has one entry for every revision but the first. The planner must give a first
  -- revision every time, and the stored plans must be so before the calls, as no plans are.
  pub call_plans-AreChains :
      ((target : GoalPlanRequest) (principal : Option String) → IsFirst (generate target principal))
      → (xs : List PlanCall) (s : Store) → AreChains s
      → AreChains (call_plans xs s)
  unfolding call_plans
  call_plans-AreChains planner [] s cs = cs
  call_plans-AreChains planner (PlanCall.generated now target principal saved ∷ xs) s cs =
      call_plans-AreChains planner xs _
        (persist-AreChains generate planner now target principal saved s cs)
  call_plans-AreChains planner (PlanCall.adopts now id ∷ xs) s cs =
      call_plans-AreChains planner xs _ (adopt-AreChains generate planner now id s cs)
  call_plans-AreChains planner (PlanCall.progressed now req ∷ xs) s cs =
      call_plans-AreChains planner xs _ (progress-AreChains generate planner hash now req s cs)
  call_plans-AreChains planner (PlanCall.replanned has_scheduler today now id req ∷ xs) s cs =
      call_plans-AreChains planner xs _
        (replan-AreChains generate planner has_scheduler today now id req s cs)
