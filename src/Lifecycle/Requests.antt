-- ===== src/Lifecycle/Requests.antt =====
-- `_apply_override`, `_plan_to_request` and the comparison of two requests, of
-- platform/app/plan_lifecycle.py. An override that is given has been validated.
use study_assistance_agent.Prelude.{
  String, str_eq, ◌≡◌, refl, Bool, true, false, ◌&&◌, Option, none, some, List, [], ◌∷◌, arith,
  ◌==◌, if◌then◌else◌, or_else, eq_iff,
}
use study_assistance_agent.Lifecycle.{GoalPlanRequest, PlanReplanRequest, PublicPlan}

abbrev pub same_texts : List String → List String → Bool
same_texts [] [] = true
same_texts (a ∷ as') (b ∷ bs) = str_eq a b && same_texts as' bs
same_texts _ _ = false

abbrev pub same_option : Option String → Option String → Bool
same_option none none = true
same_option (some a) (some b) = str_eq a b
same_option _ _ = false

-- `target == current`
unfoldable pub same_request : GoalPlanRequest → GoalPlanRequest → Bool
same_request a b =
    str_eq a.goal b.goal
    && (same_option a.course b.course
        && (same_option a.target_date b.target_date
            && (a.hours_per_day == b.hours_per_day
                && (same_texts a.constraints.required_topics b.constraints.required_topics
                    && same_texts a.constraints.excluded_topics b.constraints.excluded_topics))))

-- A field of an override that is `None` leaves the field.
abbrev pub or_keep : Option String → Option String → Option String
or_keep none b = b
or_keep (some a) b = some a

unfoldable pub apply_override : GoalPlanRequest → Option PlanReplanRequest → GoalPlanRequest
apply_override request none = request
apply_override request (some o) = record {
  goal = or_else o.goal request.goal;
  course = or_keep o.course request.course;
  target_date = or_keep o.target_date request.target_date;
  hours_per_day = or_else o.hours_per_day request.hours_per_day;
  constraints = or_else o.constraints request.constraints;
}

unfoldable pub plan_to_request : PublicPlan → GoalPlanRequest
plan_to_request plan = record {
  goal = plan.goal;
  course = plan.course;
  target_date = if str_eq plan.target_date "" then none else some plan.target_date;
  hours_per_day = plan.hours_per_day;
  constraints = plan.constraints;
}

same_texts_refl : (xs : List String) → same_texts xs xs ≡ true
same_texts_refl [] = refl
same_texts_refl (x ∷ xs) = ground (arith, eq_iff x x, same_texts_refl xs)

same_option_refl : (o : Option String) → same_option o o ≡ true
same_option_refl none = refl
same_option_refl (some x) = ground (arith, eq_iff x x)

pub same_request_refl : (r : GoalPlanRequest) → same_request r r ≡ true
unfolding same_request
same_request_refl r = ground (
  arith,
  eq_iff r.goal r.goal,
  same_option_refl r.course,
  same_option_refl r.target_date,
  same_texts_refl r.constraints.required_topics,
  same_texts_refl r.constraints.excluded_topics,
)
