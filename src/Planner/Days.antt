-- ===== src/Planner/Days.antt =====
-- The distribution over days of platform/app/goal_planner.py: it ends, no task is lost, and the
-- capacity of a day bounds every day, also after the window of the request.
use study_assistance_agent.Prelude.{
  append_nil, ℕ, zero, suc, not, ◌&&◌, ◌+◌, ◌≤◌, String, ◌≡◌, refl, ap, sym, ◌∙◌, subst, ◌⊎◌, inl,
  inr, true, List, [], ◌∷◌, ◌++◌, arith, if◌then◌else◌, ltb, length, length-append,
}
use study_assistance_agent.Filling.{
  total_of, is_empty, append_assoc, is_empty-cases, IsWithin, IsFull, filled, filled-first,
}
use study_assistance_agent.Lifecycle.{GoalPlanTask, GoalPlanDay}
use study_assistance_agent.Planner.{
  task_minutes, review_buffer, available_minutes, fill, day_of, window_days, more_days,
  distribute_goal,
}

-- The tasks of all days, in order.
abbrev pub tasks_of : List GoalPlanDay → List GoalPlanTask
tasks_of [] = []
tasks_of (d ∷ ds) = d.tasks ++ tasks_of ds

tasks_of-append : (xs ys : List GoalPlanDay) → tasks_of (xs ++ ys) ≡ tasks_of xs ++ tasks_of ys
tasks_of-append [] ys = refl
tasks_of-append (x ∷ xs) ys =
    ap (λ r. x.tasks ++ r) (tasks_of-append xs ys)
    ∙ sym (append_assoc x.tasks (tasks_of xs) (tasks_of ys))

-- A day as it should be: its number and date, tasks within its minutes or a single longer one, as
-- many as fit before the tasks `rest`, and its minutes, with the review of the day before unless it is
-- the first or empty.
pub record IsGoalDay (show_date : ℕ → String) (start_date daily d : ℕ) (rest : List GoalPlanTask)
    (day : GoalPlanDay) : Type 0 where
  pub numbered : day.day ≡ d + 1
  pub dated : day.date ≡ show_date (start_date + d)
  pub within : IsWithin task_minutes (available_minutes daily d) day.tasks
  pub full : IsFull task_minutes (available_minutes daily d) day.tasks rest
  pub minutes :
      day.total_minutes
      ≡ total_of task_minutes day.tasks
        + (if ltb 0 d && not (is_empty day.tasks) then review_buffer else 0)

-- The days from day `d` on, before the tasks `rest`.
abbrev pub AreGoalDays : (ℕ → String) → ℕ → ℕ → ℕ → List GoalPlanTask → List GoalPlanDay → Type 0
AreGoalDays show_date start_date daily d rest [] = Unit
AreGoalDays show_date start_date daily d rest (day ∷ days) =
    IsGoalDay show_date start_date daily d (tasks_of days ++ rest) day
    × AreGoalDays show_date start_date daily (suc d) rest days

module _ (show_date : ℕ → String) (start_date daily : ℕ) where
  fill-split :
      (d : ℕ) (tasks : List GoalPlanTask)
      → (fill show_date start_date daily d tasks).day_tasks
          ++ (fill show_date start_date daily d tasks).rest
        ≡ tasks
  unfolding fill
  fill-split d tasks = (filled task_minutes (available_minutes daily d) tasks).split

  fill-first :
      (d : ℕ) (t : GoalPlanTask) (ts : List GoalPlanTask)
      → length (fill show_date start_date daily d (t ∷ ts)).rest ≤ length ts
  unfolding fill
  fill-first d t ts = filled-first task_minutes (available_minutes daily d) t ts

  fill-left :
      (d : ℕ) (tasks : List GoalPlanTask)
      → length (fill show_date start_date daily d tasks).rest ≤ length tasks
  unfolding fill
  fill-left d tasks = (filled task_minutes (available_minutes daily d) tasks).left

  day_of-IsGoalDay :
      (d : ℕ) (tasks : List GoalPlanTask)
      → let f = fill show_date start_date daily d tasks in
        IsGoalDay show_date start_date daily d f.rest (day_of show_date start_date daily d f)
  unfolding fill day_of
  day_of-IsGoalDay d tasks =
      let f = filled task_minutes (available_minutes daily d) tasks in
      record {
        numbered = refl;
        dated = refl;
        within = f.within;
        full = f.full;
        minutes = rw f.used;
      }

  -- What a list of days from day `d` on does with the tasks.
  abbrev IsSpread : ℕ → List GoalPlanTask → List GoalPlanDay × List GoalPlanTask → Type 0
  IsSpread d tasks r =
      (tasks_of r.0 ++ r.1 ≡ tasks) × AreGoalDays show_date start_date daily d r.1 r.0

  IsSpread-day_of :
      (d : ℕ) (tasks : List GoalPlanTask) (r : List GoalPlanDay × List GoalPlanTask)
      → IsSpread (suc d) (fill show_date start_date daily d tasks).rest r
      → IsSpread d tasks
          (day_of show_date start_date daily d (fill show_date start_date daily d tasks) ∷ r.0, r.1)
  unfolding day_of
  IsSpread-day_of d tasks r (same, days) =
      let f = fill show_date start_date daily d tasks in
      (
        append_assoc f.day_tasks (tasks_of r.0) r.1
            ∙ ap (λ x. f.day_tasks ++ x) same
            ∙ fill-split d tasks,
        (
          subst
              (λ x.
                IsGoalDay show_date start_date daily d x (day_of show_date start_date daily d f))
              (sym same) (day_of-IsGoalDay d tasks),
          days,
        ),
      )

  window_days-IsSpread :
      (n d : ℕ) (tasks : List GoalPlanTask)
      → IsSpread d tasks (window_days show_date start_date daily n d tasks)
        × (length (window_days show_date start_date daily n d tasks).0 ≤ n)
        × (((window_days show_date start_date daily n d tasks).1 ≡ [])
            ⊎ (length (window_days show_date start_date daily n d tasks).0 ≡ n))
        × (length (window_days show_date start_date daily n d tasks).1 ≤ length tasks)
  unfolding window_days
  window_days-IsSpread zero d tasks = ((refl, tt), omega arith, inr refl, omega arith)
  window_days-IsSpread (suc n) d tasks =
      let f = fill show_date start_date daily d tasks in
      let (spread, few, ended, left) = window_days-IsSpread n (suc d) f.rest in
      elim (is_empty-cases f.rest) [
        | inl e ↦
            let done : is_empty f.rest ≡ true = ap is_empty e in
            rw (window_days, done)
              (IsSpread-day_of d tasks ([], []) (sym e, tt), omega arith, inl refl, omega arith)
        | inr e ↦
            rw (window_days, e)
              (
                IsSpread-day_of d tasks _ spread,
                omega (arith, few),
                elim ended [ inl h ↦ inl h | inr h ↦ inr (ap suc h) ],
                omega (arith, left, fill-left d tasks),
              )
      ]

  more_days-IsSpread :
      (n d : ℕ) (tasks : List GoalPlanTask)
      → length tasks ≤ n
      → IsSpread d tasks (more_days show_date start_date daily n d tasks, [])
        × (length (more_days show_date start_date daily n d tasks) ≤ length tasks)
  unfolding more_days
  more_days-IsSpread zero d [] l = ((refl, tt), omega arith)
  more_days-IsSpread zero d (t ∷ ts) l = absurd (omega arith)
  more_days-IsSpread (suc n) d [] l = ((refl, tt), omega arith)
  more_days-IsSpread (suc n) d (t ∷ ts) l =
      let (spread, few) =
        more_days-IsSpread n (suc d) (fill show_date start_date daily d (t ∷ ts)).rest
          (omega (arith, fill-first d t ts)) in
      (IsSpread-day_of d (t ∷ ts) _ spread, omega (arith, few, fill-first d t ts))

  AreGoalDays-append :
      (d : ℕ) (rest : List GoalPlanTask) (xs ys : List GoalPlanDay)
      → AreGoalDays show_date start_date daily d (tasks_of ys ++ rest) xs
      → AreGoalDays show_date start_date daily (d + length xs) rest ys
      → AreGoalDays show_date start_date daily d rest (xs ++ ys)
  AreGoalDays-append d rest [] ys h k =
      subst (λ n. AreGoalDays show_date start_date daily n rest ys) (omega arith) k
  AreGoalDays-append d rest (x ∷ xs) ys (h, hs) k =
      let same : tasks_of xs ++ (tasks_of ys ++ rest) ≡ tasks_of (xs ++ ys) ++ rest =
        sym (append_assoc (tasks_of xs) (tasks_of ys) rest)
        ∙ ap (λ r. r ++ rest) (sym (tasks_of-append xs ys)) in
      (
        subst (λ r. IsGoalDay show_date start_date daily d r x) same h,
        AreGoalDays-append (suc d) rest xs ys hs
            (subst (λ n. AreGoalDays show_date start_date daily n rest ys) (omega arith) k),
      )

-- The distribution of a plan's tasks, whatever the window and the minutes of a day: the days hold the
-- tasks, each once and in order; they are numbered and dated in order; the tasks of a day, also after
-- the window, are within its minutes, less the review of the day before unless it is the first, or are
-- a single longer task; the first task after a day does not fit in it; and there are at most as many
-- days as the window has and, after it, as there are tasks.
pub distribute_goal_lem :
    (show_date : ℕ → String) (start_date daily : ℕ) (tasks : List GoalPlanTask) (total_days : ℕ)
    → (tasks_of (distribute_goal show_date start_date daily tasks total_days) ≡ tasks)
      × AreGoalDays show_date start_date daily 0 []
          (distribute_goal show_date start_date daily tasks total_days)
      × (length (distribute_goal show_date start_date daily tasks total_days)
          ≤ total_days + length tasks)
unfolding distribute_goal
distribute_goal_lem show_date start_date daily tasks total_days =
    let w = window_days show_date start_date daily total_days 0 tasks in
    let later = more_days show_date start_date daily (length w.1) (length w.0) w.1 in
    let ((same, days), few, ended, left) =
      window_days-IsSpread show_date start_date daily total_days 0 tasks in
    let ((rest_same, rest_days), rest_few) =
      more_days-IsSpread show_date start_date daily (length w.1) (length w.0) w.1 (omega arith) in
    let all : tasks_of later ≡ w.1 = sym (append_nil (tasks_of later)) ∙ rest_same in
    (
      tasks_of-append w.0 later ∙ ap (λ r. tasks_of w.0 ++ r) all ∙ same,
      AreGoalDays-append show_date start_date daily 0 [] w.0 later
          (subst (λ r. AreGoalDays show_date start_date daily 0 r w.0) (sym rest_same) days)
          (subst (λ n. AreGoalDays show_date start_date daily n [] later) (omega arith) rest_days),
      omega (arith, length-append w.0 later, few, rest_few, left),
    )
