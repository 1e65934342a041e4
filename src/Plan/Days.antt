-- ===== src/Plan/Days.antt =====
-- The distribution over days: no task is lost, and every day is filled as far as it goes.
use study_assistance_agent.Prelude.{
  append_nil, ℕ, zero, suc, not, ◌&&◌, ◌+◌, ◌≤◌, ◌≡◌, refl, ap, sym, ◌∙◌, subst, ◌⊎◌, inl, inr,
  List, [], ◌∷◌, ◌++◌, arith, if◌then◌else◌, false, ltb, length,
}
use study_assistance_agent.Filling.{
  fill_day, total_of, is_empty, append_assoc, is_empty-cases, IsWithin, IsFull, filled,
}
use study_assistance_agent.Plan.{
  PlanTask, PlanDay, minutes, available_on, make_day, days_from, add_extra, distribute,
  review_buffer_minutes,
}

-- The tasks of all days, in order.
abbrev pub all_tasks : List PlanDay → List PlanTask
all_tasks [] = []
all_tasks (d ∷ ds) = d.tasks ++ all_tasks ds

all_tasks-append : (xs ys : List PlanDay) → all_tasks (xs ++ ys) ≡ all_tasks xs ++ all_tasks ys
all_tasks-append [] ys = refl
all_tasks-append (x ∷ xs) ys =
    ap (λ r. x.tasks ++ r) (all_tasks-append xs ys)
    ∙ sym (append_assoc x.tasks (all_tasks xs) (all_tasks ys))

-- A day of a plan as it should be: its number and date, whole tasks within the minutes of the day
-- (or one task that is longer), as many as fit before the tasks `rest`, and its minutes, with the
-- review of the day before unless the day is the first or has no tasks.
pub record IsDay (start_date daily_minutes d : ℕ) (rest : List PlanTask) (day : PlanDay)
    : Type 0 where
  pub numbered : day.day ≡ d + 1
  pub dated : day.date ≡ start_date + d
  pub within : IsWithin minutes (available_on daily_minutes d) day.tasks
  pub full : IsFull minutes (available_on daily_minutes d) day.tasks rest
  pub minutes :
      day.total_minutes
      ≡ total_of minutes day.tasks
        + (if ltb 0 d && not (is_empty day.tasks) then review_buffer_minutes else 0)

-- The days of a plan from day `d` on, before the tasks `rest`.
abbrev pub AreDays : ℕ → ℕ → ℕ → List PlanTask → List PlanDay → Type 0
AreDays start_date daily_minutes d rest [] = Unit
AreDays start_date daily_minutes d rest (day ∷ days) =
    IsDay start_date daily_minutes d (all_tasks days ++ rest) day
    × AreDays start_date daily_minutes (suc d) rest days

module _ (start_date daily_minutes : ℕ) where
  days_from-cases :
      (n d : ℕ) (tasks : List PlanTask)
      → let f = fill_day minutes (available_on daily_minutes d) [] 0 tasks in
        let later = days_from start_date daily_minutes n (suc d) f.rest in
        ((f.rest ≡ [])
          × (days_from start_date daily_minutes (suc n) d tasks
              ≡ (make_day start_date d f ∷ [], [])))
        ⊎ (days_from start_date daily_minutes (suc n) d tasks
            ≡ (make_day start_date d f ∷ later.0, later.1))
  unfolding days_from
  days_from-cases n d tasks =
      elim (is_empty-cases (fill_day minutes (available_on daily_minutes d) [] 0 tasks).rest) [
        | inl e ↦ inl (e, rw e)
        | inr e ↦ inr (rw e)
      ]

  days_from-tasks :
      (n d : ℕ) (tasks : List PlanTask)
      → let r = days_from start_date daily_minutes n d tasks in all_tasks r.0 ++ r.1 ≡ tasks
  unfolding make_day
  days_from-tasks zero d tasks = unfold days_from in refl
  days_from-tasks (suc n) d tasks =
      let f = fill_day minutes (available_on daily_minutes d) [] 0 tasks in
      let later = days_from start_date daily_minutes n (suc d) f.rest in
      elim (days_from-cases n d tasks) [
        | inl (e, is) ↦ rw is (
            append_nil (f.day_tasks ++ [])
            ∙ ap (λ r. f.day_tasks ++ r) (sym e)
            ∙ (filled minutes (available_on daily_minutes d) tasks).split)
        | inr is ↦ rw is (
            append_assoc f.day_tasks (all_tasks later.0) later.1
            ∙ ap (λ r. f.day_tasks ++ r) (days_from-tasks n (suc d) f.rest)
            ∙ (filled minutes (available_on daily_minutes d) tasks).split)
      ]

  make_day-IsDay :
      (d : ℕ) (tasks : List PlanTask)
      → let f = fill_day minutes (available_on daily_minutes d) [] 0 tasks in
        IsDay start_date daily_minutes d f.rest (make_day start_date d f)
  unfolding make_day
  make_day-IsDay d tasks =
      let f = filled minutes (available_on daily_minutes d) tasks in
      record {
        numbered = refl;
        dated = refl;
        within = f.within;
        full = f.full;
        minutes = rw f.used;
      }

  days_from-AreDays :
      (n d : ℕ) (tasks : List PlanTask)
      → let r = days_from start_date daily_minutes n d tasks in
        AreDays start_date daily_minutes d r.1 r.0
  days_from-AreDays zero d tasks = unfold days_from in tt
  days_from-AreDays (suc n) d tasks =
      let f = fill_day minutes (available_on daily_minutes d) [] 0 tasks in
      elim (days_from-cases n d tasks) [
        | inl (e, is) ↦ rw is (
          subst (λ r. IsDay start_date daily_minutes d r (make_day start_date d f)) e
              (make_day-IsDay d tasks),
          tt,
        )
        | inr is ↦ rw is (
          rw (days_from-tasks n (suc d) f.rest) (make_day-IsDay d tasks),
          days_from-AreDays n (suc d) f.rest,
        )
      ]

  days_from-count :
      (n d : ℕ) (tasks : List PlanTask)
      → length (days_from start_date daily_minutes n d tasks).0 ≤ n
  days_from-count zero d tasks = unfold days_from in omega arith
  days_from-count (suc n) d tasks = elim (days_from-cases n d tasks) [
    | inl (e, is) ↦ rw is (omega arith)
    | inr is ↦ rw is (
        omega (
          arith,
          days_from-count n (suc d)
              (fill_day minutes (available_on daily_minutes d) [] 0 tasks).rest,
        ))
  ]

  days_from-left :
      (n d : ℕ) (tasks : List PlanTask)
      → let r = days_from start_date daily_minutes n d tasks in (r.1 ≡ []) ⊎ (length r.0 ≡ n)
  days_from-left zero d tasks = unfold days_from in inr refl
  days_from-left (suc n) d tasks =
      let ih =
        days_from-left n (suc d)
          (fill_day minutes (available_on daily_minutes d) [] 0 tasks).rest in
      elim (days_from-cases n d tasks) [
        | inl (e, is) ↦ rw is (inl refl)
        | inr is ↦ rw is (elim ih [ inl e ↦ inl e | inr e ↦ inr (ap suc e) ])
      ]

  add_extra-cases :
      (n : ℕ) (days : List PlanDay) (rest : List PlanTask)
      → ((rest ≡ []) × (add_extra start_date n (days, rest) ≡ days))
        ⊎ ((is_empty rest ≡ false)
            × (add_extra start_date n (days, rest)
                ≡ days
                  ++ record {
                    day = length days + 1;
                    date = start_date + n;
                    tasks = rest;
                    total_minutes = total_of minutes rest;
                  }
                    ∷ []))
  unfolding add_extra
  add_extra-cases n days [] = inl (refl, refl)
  add_extra-cases n days (t ∷ ts) = inr (refl, refl)

  add_extra-tasks :
      (n : ℕ) (r : List PlanDay × List PlanTask)
      → all_tasks (add_extra start_date n r) ≡ all_tasks r.0 ++ r.1
  unfolding add_extra
  add_extra-tasks n (days, []) = sym (append_nil (all_tasks days))
  add_extra-tasks n (days, t ∷ ts) =
      all_tasks-append days _ ∙ ap (λ r. all_tasks days ++ t ∷ r) (append_nil ts)

-- The days of a plan hold the given tasks, each once and in the given order.
pub distribute-tasks :
    (tasks : List PlanTask) (start_date total_days daily_minutes : ℕ)
    → all_tasks (distribute tasks start_date total_days daily_minutes) ≡ tasks
unfolding distribute
distribute-tasks tasks start_date total_days daily_minutes =
    add_extra-tasks start_date daily_minutes total_days
      (days_from start_date daily_minutes total_days 0 tasks)
    ∙ days_from-tasks start_date daily_minutes total_days 0 tasks

-- The plan of `distribute` is made of days that are numbered and dated in order, at most the given
-- number of them: each day's tasks are within its minutes, less the review of the day before unless
-- it is the first, or are a single longer task; and the first task after them does not fit in it.
-- The tasks of these days and the tasks that are left over are the given tasks, in their order. Tasks
-- are left over only when that number of days is used up, and then they are one day more.
pub distribute-AreDays :
    (tasks : List PlanTask) (start_date total_days daily_minutes : ℕ)
    → (days : List PlanDay) × (rest : List PlanTask) × AreDays start_date daily_minutes 0 rest days
      × (all_tasks days ++ rest ≡ tasks)
      × (length days ≤ total_days)
      × ((rest ≡ []) ⊎ (length days ≡ total_days))
      × (((rest ≡ []) × (distribute tasks start_date total_days daily_minutes ≡ days))
          ⊎ ((is_empty rest ≡ false)
              × (distribute tasks start_date total_days daily_minutes
                  ≡ days
                    ++ record {
                      day = length days + 1;
                      date = start_date + total_days;
                      tasks = rest;
                      total_minutes = total_of minutes rest;
                    }
                      ∷ [])))
unfolding distribute
distribute-AreDays tasks start_date total_days daily_minutes =
    let r = days_from start_date daily_minutes total_days 0 tasks in
    (
      r.0,
      r.1,
      days_from-AreDays start_date daily_minutes total_days 0 tasks,
      days_from-tasks start_date daily_minutes total_days 0 tasks,
      days_from-count start_date daily_minutes total_days 0 tasks,
      days_from-left start_date daily_minutes total_days 0 tasks,
      add_extra-cases start_date daily_minutes total_days r.0 r.1,
    )
