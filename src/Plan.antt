-- ===== src/Plan.antt =====
-- `ReviewPlanService` of platform/app/review_plan.py: the course's entries, the tasks made of them,
-- and their greedy distribution over days. A date is the number of its day; the minutes of a day,
-- which the service makes of the hours of the request, are an argument; the chunks come from the
-- knowledge index. A response's texts and time stamps are left out.
pub mod Entries
pub mod Days
mod Tests
use study_assistance_agent.Prelude.{
  ℕ, zero, suc, ◌+◌, ◌-◌, max, String, str_eq, Bool, true, false, not, ◌&&◌, Option, none, some,
  List, [], ◌∷◌, ◌++◌, map, if◌then◌else◌, ltb, length, any, is_some, find_row,
}
use study_assistance_agent.Filling.{Filled, fill_day, total_of, is_empty}

-- What the service reads of a chunk of the index.
pub record Chunk : Type 0 where
  pub file : String
  pub course : String
  pub title : String
  pub difficulty : String
  pub tags : List String

pub record Entry : Type 0 where
  pub file : String
  pub title : String
  pub difficulty : String
  pub tags : List String

pub record PlanTask : Type 0 where
  pub file : String
  pub title : String
  pub difficulty : String
  pub estimated_minutes : ℕ
  pub priority : String
  pub tags : List String

pub record PlanDay : Type 0 where
  pub day : ℕ
  pub date : ℕ
  pub tasks : List PlanTask
  pub total_minutes : ℕ

abbrev pub review_buffer_minutes : ℕ
review_buffer_minutes = 10

abbrev pub has_file : String → Entry → Bool
has_file file e = str_eq e.file file

abbrev pub entry_of : Chunk → Entry
entry_of c = record {
  file = c.file;
  title = c.title;
  difficulty = if str_eq c.difficulty "" then "中等" else c.difficulty;
  tags = c.tags;
}

-- The body of the loop of `_load_entries`; `seen` is the ordered dictionary's values.
unfoldable pub load_chunk : String → Chunk → List Entry → List Entry
load_chunk course c seen =
    if not (str_eq c.course course)
    then seen
    else if is_some (find_row (has_file c.file) seen)
    then seen
    else seen ++ entry_of c ∷ []

unfoldable pub load_from : String → List Chunk → List Entry → List Entry
unfolding load_chunk
load_from course [] seen = seen
load_from course (c ∷ cs) seen = load_from course cs (load_chunk course c seen)

unfoldable pub load_entries : String → List Chunk → List Entry
load_entries course chunks = load_from course chunks []

-- `DIFFICULTY_TIME.get(diff, 35)`
unfoldable pub minutes_of : String → ℕ
minutes_of difficulty =
    if str_eq difficulty "入门" then 25 else if str_eq difficulty "进阶" then 50 else 35

-- `DIFFICULTY_PRIORITY.get(diff, "medium")`
unfoldable pub priority_of : String → String
priority_of difficulty =
    if str_eq difficulty "入门" then "low" else if str_eq difficulty "进阶" then "high" else "medium"

unfoldable pub build_tasks : List Entry → List PlanTask
unfolding minutes_of priority_of
build_tasks entries =
    map
      (λ e. record {
        file = e.file;
        title = e.title;
        difficulty = e.difficulty;
        estimated_minutes = minutes_of e.difficulty;
        priority = priority_of e.difficulty;
        tags = e.tags;
      })
      entries

abbrev pub minutes : PlanTask → ℕ
minutes t = t.estimated_minutes

-- Subtraction stops at 0, as `max(available, 0)` does.
unfoldable pub available_on : ℕ → ℕ → ℕ
available_on daily_minutes d =
    if ltb 0 d then daily_minutes - review_buffer_minutes else daily_minutes

unfoldable pub make_day : ℕ → ℕ → Filled PlanTask → PlanDay
make_day start_date d f = record {
  day = d + 1;
  date = start_date + d;
  tasks = f.day_tasks;
  total_minutes =
      f.used + (if ltb 0 d && not (is_empty f.day_tasks) then review_buffer_minutes else 0);
}

-- The loop over the days from `d` on, `n` of them left: the days, and the tasks that are left.
unfoldable pub days_from : ℕ → ℕ → ℕ → ℕ → List PlanTask → List PlanDay × List PlanTask
unfolding fill_day available_on make_day
days_from start_date daily_minutes zero d tasks = ([], tasks)
days_from start_date daily_minutes (suc n) d tasks =
    let f = fill_day minutes (available_on daily_minutes d) [] 0 tasks in
    let later = days_from start_date daily_minutes n (suc d) f.rest in
    if is_empty f.rest
    then (make_day start_date d f ∷ [], [])
    else (make_day start_date d f ∷ later.0, later.1)

-- The tasks that are left go to one day more.
unfoldable pub add_extra : ℕ → ℕ → List PlanDay × List PlanTask → List PlanDay
add_extra start_date total_days (days, []) = days
add_extra start_date total_days (days, t ∷ ts) =
    days
    ++ record {
      day = length days + 1;
      date = start_date + total_days;
      tasks = t ∷ ts;
      total_minutes = total_of minutes (t ∷ ts);
    }
      ∷ []

unfoldable pub distribute : List PlanTask → ℕ → ℕ → ℕ → List PlanDay
unfolding days_from add_extra
distribute tasks start_date total_days daily_minutes =
    add_extra start_date total_days (days_from start_date daily_minutes total_days 0 tasks)

-- `max((target - today).days, 1)`: `target` is the day given, or 14 days from today.
unfoldable pub total_days_to : ℕ → Option ℕ → ℕ
total_days_to today none = 14
total_days_to today (some target) = max (target - today) 1

-- The days of the response of `generate`.
unfoldable pub plan_days : String → List Chunk → ℕ → Option ℕ → ℕ → List PlanDay
unfolding load_entries build_tasks distribute total_days_to
plan_days course chunks today target daily_minutes =
    distribute (build_tasks (load_entries course chunks)) today (total_days_to today target)
      daily_minutes
