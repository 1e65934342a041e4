-- ===== src/Plan/Tests.antt =====
-- Small plans.
use study_assistance_agent.Prelude.{
  ℕ, String, ◌≡◌, refl, ◌≤◌, ◌⊎◌, ◌++◌, ◌+◌, true, false, none, List, [], ◌∷◌, length, is_some,
  find_row,
}
use mathlib.Core.List.{Memᴰ}
use study_assistance_agent.Prelude.Tables.Keys.{at_key, IsKeyed}
use study_assistance_agent.Plan.{Chunk, PlanTask, PlanDay, distribute, plan_days, minutes}
use study_assistance_agent.Filling.{is_empty, total_of}
use study_assistance_agent.Plan.Days.{all_tasks, AreDays, distribute-AreDays}
use study_assistance_agent.Plan.Entries.{task_file, plan_days_complete}

abbrev task : String → ℕ → PlanTask
task file minutes = record {
  file = file;
  title = file;
  difficulty = "中等";
  estimated_minutes = minutes;
  priority = "medium";
  tags = [];
}

abbrev tasks : List PlanTask
tasks = task "a" 35 ∷ task "b" 50 ∷ task "c" 25 ∷ []

-- The second task does not fit on the first day, and the third is left for the extra day.
distribute_two_days :
    distribute tasks 100 2 60
    ≡ record { day = 1; date = 100; tasks = task "a" 35 ∷ []; total_minutes = 35 }
      ∷ record { day = 2; date = 101; tasks = task "b" 50 ∷ []; total_minutes = 60 }
      ∷ record { day = 3; date = 102; tasks = task "c" 25 ∷ []; total_minutes = 25 }
      ∷ []
unfolding distribute
distribute_two_days = refl

distribute-AreDays_example :
    (days : List PlanDay) × (rest : List PlanTask) × AreDays 100 60 0 rest days
    × (all_tasks days ++ rest ≡ tasks)
    × (length days ≤ 2)
    × ((rest ≡ []) ⊎ (length days ≡ 2))
    × (((rest ≡ []) × (distribute tasks 100 2 60 ≡ days))
        ⊎ ((is_empty rest ≡ false)
            × (distribute tasks 100 2 60
                ≡ days
                  ++ record {
                    day = length days + 1;
                    date = 100 + 2;
                    tasks = rest;
                    total_minutes = total_of minutes rest;
                  }
                    ∷ [])))
distribute-AreDays_example = distribute-AreDays tasks 100 2 60

abbrev chunk : String → String → Chunk
chunk file course = record {
  file = file;
  course = course;
  title = file;
  difficulty = "";
  tags = [];
}

abbrev chunks : List Chunk
chunks = chunk "a" "os" ∷ chunk "b" "net" ∷ chunk "a" "os" ∷ chunk "c" "os" ∷ []

plan_days_complete_example :
    let tasks = all_tasks (plan_days "os" chunks 100 none 60) in
    IsKeyed task_file tasks
    × ((c : Chunk)
        → Memᴰ c chunks
        → c.course ≡ "os"
        → is_some (find_row (at_key task_file c.file) tasks) ≡ true)
    × ((file : String)
        → is_some (find_row (at_key task_file file) tasks) ≡ true
        → (c : Chunk) × Memᴰ c chunks × (c.course ≡ "os") × (c.file ≡ file))
plan_days_complete_example = plan_days_complete "os" chunks 100 none 60
