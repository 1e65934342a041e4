-- ===== src/Review/Due.antt =====
-- The intervals, and the list of the reviews that are due.
use mathlib.Core.List.{Memᴰ}
use study_assistance_agent.Prelude.{
  ℕ, zero, suc, ◌+◌, ◌-◌, ◌*◌, ◌≤◌, min, String, ◌≡◌, refl, Bool, ◌∙◌, Option, List, arith, ltb,
  length, count_if, order_by,
}
use study_assistance_agent.Prelude.Tables.Deletes.{mem-order_by}
use study_assistance_agent.Review.{Review, get_interval, date_of, is_selected, collect_due, get_due}
use study_assistance_agent.Review.Listing.{
  IsOrdered, latest_first, order_by-IsOrdered, order_by-length, count-split, IsWanted, AreListed,
  IsWanted-is_selected, order_by-AreListed, collect_due-AreListed, is_due, collect_due-counts,
  collect_due-mem, collect_due-length,
}

doubles_from : (n : ℕ) → get_interval (n + 2) ≡ min (2 * get_interval (n + 1)) 32
unfolding get_interval
doubles_from zero = refl
doubles_from (suc zero) = refl
doubles_from (suc (suc zero)) = refl
doubles_from (suc (suc (suc zero))) = refl
doubles_from (suc (suc (suc (suc zero)))) = refl
doubles_from (suc (suc (suc (suc (suc n))))) =
    let last : min (suc (suc (suc (suc (suc n)))) + 2 - 1) 5 ≡ 5 = omega arith in
    let before : min (suc (suc (suc (suc (suc n)))) + 1 - 1) 5 ≡ 5 = omega arith in
    rw (last, before) refl

-- The interval is one day before and after the first review, and it doubles with every review from the
-- first on, up to 32 days.
pub get_interval-doubles :
    (n : ℕ)
    → (get_interval 0 ≡ 1)
      × (get_interval 1 ≡ 1)
      × (get_interval (n + 2) ≡ min (2 * get_interval (n + 1)) 32)
unfolding get_interval
get_interval-doubles n = (refl, refl, doubles_from n)

module _ (is_under : String → String → Bool) (course : Option String) (today : ℕ) where
  -- The report of the due reviews lists the reviews of the history that are selected and whose date has
  -- come, all of them and no others, each with the days that it is overdue and as often as it is in
  -- the history, the longest overdue first. Its numbers are counted right: the tracked are the
  -- selected, overdue and due today are all the listed, and these and the upcoming are the tracked.
  pub get_due_complete :
      (history : List Review)
      → let r = get_due is_under course today history in
        ((e : Review)
          → Memᴰ e history
          → IsWanted is_under course today e
          → date_of e.next_review ≤ today
          → Memᴰ (record { entry = e; days_overdue = today - date_of e.next_review }) r.entries)
        × AreListed is_under course today history r.entries
        × (length r.entries ≡ count_if (is_due is_under course today) history)
        × (r.total_tracked ≡ count_if (is_selected is_under course) history)
        × IsOrdered r.entries
        × (r.overdue ≡ count_if (λ d. ltb 0 d.days_overdue) r.entries)
        × (r.overdue + r.due_today ≡ length r.entries)
        × (length r.entries + r.upcoming ≡ r.total_tracked)
  unfolding get_due
  get_due_complete history =
      let due = (collect_due is_under course today history).0 in
      let counts = collect_due-counts is_under course today history in
      (
        (λ e m s h. mem-order_by latest_first _ due (
            collect_due-mem is_under course today history e m
              (IsWanted-is_selected is_under course today e s) h)),
        order_by-AreListed is_under course today history due
            (collect_due-AreListed is_under course today history history (λ e m. m)),
        order_by-length due ∙ counts.1,
        counts.0,
        order_by-IsOrdered due,
        refl,
        count-split (order_by latest_first due),
        omega (arith, order_by-length due, collect_due-length is_under course today history),
      )
