-- ===== src/Lifecycle/Service/Members.antt =====
-- The members of the sets of task ids that a replanning compares.
use study_assistance_agent.Prelude.{
  String, str_eq, ◌≡◌, refl, Bool, true, not, ◌&&◌, ◌||◌, List, [], ◌∷◌, ◌++◌, arith, length,
  select, order_by, insert_row, eq_iff,
}
use study_assistance_agent.Lifecycle.{PlanProgressEvent, DeviationEntry, PublicPlan}
use study_assistance_agent.Lifecycle.Records.{
  has, union, difference, event_ids, overdue_ids, deviated_ids, consumed_ids,
}

pub has-union : (t : String) (xs ys : List String) → has t (union xs ys) ≡ (has t xs || has t ys)
unfolding union
has-union t [] ys = refl
has-union t (x ∷ xs) ys = ground (arith, has-union t xs ys, eq_iff x t)

pub has-difference :
    (t : String) (xs ys : List String) → has t (difference xs ys) ≡ (has t xs && not (has t ys))
unfolding difference select
has-difference t [] ys = refl
has-difference t (x ∷ xs) ys = ground (arith, has-difference t xs ys, eq_iff x t)

has-append : (t : String) (xs ys : List String) → has t (xs ++ ys) ≡ (has t xs || has t ys)
has-append t [] ys = refl
has-append t (x ∷ xs) ys = ground (arith, has-append t xs ys)

has-insert_row :
    (before : String → String → Bool) (t x : String) (xs : List String)
    → has t (insert_row before x xs) ≡ (str_eq x t || has t xs)
unfolding insert_row
has-insert_row before t x [] = refl
has-insert_row before t x (y ∷ ys) = ground (arith, has-insert_row before t x ys)

pub has-order_by :
    (before : String → String → Bool) (t : String) (xs : List String)
    → has t (order_by before xs) ≡ has t xs
unfolding order_by
has-order_by before t [] = refl
has-order_by before t (x ∷ xs) =
    ground (arith, has-order_by before t xs, has-insert_row before t x (order_by before xs))

pub has-consumed_ids :
    (t : String) (es fs : List DeviationEntry)
    → has t (consumed_ids (es ++ fs)) ≡ (has t (consumed_ids es) || has t (consumed_ids fs))
unfolding consumed_ids
has-consumed_ids t [] fs = refl
has-consumed_ids t (e ∷ es) fs = ground (
  arith,
  has-consumed_ids t es fs,
  has-union t e.consumed_task_ids (consumed_ids (es ++ fs)),
  has-union t e.consumed_task_ids (consumed_ids es),
)

-- Nothing is left of a set that another contains.
pub none-left :
    (xs ys : List String)
    → ((t : String) → has t xs ≡ true → has t ys ≡ true)
    → length (difference xs ys) ≡ 0
unfolding difference select
none-left [] ys h = refl
none-left (x ∷ xs) ys h =
    let own = (eq_iff x x).1 refl in
    let here : has x ys ≡ true = h x (ground arith) in
    let rest = none-left xs ys (λ t m. h t (ground arith)) in ground arith

pub has-deviated_ids :
    (t : String) (files : List String) (plan : PublicPlan) (events : List PlanProgressEvent)
    → has t (deviated_ids files plan events)
      ≡ (has t (overdue_ids files plan.tasks) || has t (event_ids events))
unfolding deviated_ids
has-deviated_ids t files plan events = has-union t (overdue_ids files plan.tasks) (event_ids events)

pub event-deviated :
    (t : String) (files : List String) (plan : PublicPlan) (events : List PlanProgressEvent)
    → has t (event_ids events) ≡ true
    → has t (deviated_ids files plan events) ≡ true
event-deviated t files plan events h = ground (arith, has-deviated_ids t files plan events)

-- The tests of one task: `later` are the deviations after the replanning.
pub covers :
    (overdue event deviated consumed later left answered : Bool)
    → later ≡ true
    → later ≡ (overdue || event)
    → (overdue ≡ true → deviated ≡ true)
    → (event ≡ true → deviated ≡ true)
    → left ≡ (deviated && not consumed)
    → answered ≡ (consumed || left)
    → answered ≡ true
covers overdue event deviated consumed later left answered h split o e l a = ground arith
