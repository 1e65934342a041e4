-- ===== src/Plan/Entries.antt =====
-- The entries of a course: one for each file of the course, and no file twice in its plan.
use mathlib.Core.List.{Memᴰ}
use mathlib.Core.List.Memᴰ.{head, tail}
use study_assistance_agent.Prelude.{
  ℕ, String, eq_iff, ◌≡◌, refl, ◌∙◌, sym, ◌⊎◌, inl, inr, Bool, true, false, str_eq, Bool-cases,
  Option, List, [], ◌∷◌, ◌++◌, arith, is_some, find_row,
}
use study_assistance_agent.Prelude.Tables.Keys.{at_key, IsKeyed, IsKeyed-append}
use study_assistance_agent.Plan.{
  Chunk, Entry, PlanTask, has_file, entry_of, load_chunk, load_from, load_entries, build_tasks,
  plan_days, total_days_to,
}
use study_assistance_agent.Plan.Days.{all_tasks, distribute-tasks}

abbrev file_of : Entry → String
file_of e = e.file

abbrev pub task_file : PlanTask → String
task_file t = t.file

module _ (p : Entry → Bool) where
  find_row-grows :
      (xs ys : List Entry) → is_some (find_row p xs) ≡ true → is_some (find_row p (xs ++ ys)) ≡ true
  unfolding find_row
  find_row-grows [] ys h = cc
  find_row-grows (x ∷ xs) ys h = ground (arith, find_row-grows xs ys)

  find_row-added :
      (xs : List Entry) (y : Entry) → p y ≡ true → is_some (find_row p (xs ++ y ∷ [])) ≡ true
  unfolding find_row
  find_row-added [] y h = ground arith
  find_row-added (x ∷ xs) y h = ground (arith, find_row-added xs y h)

  find_row-other :
      (xs : List Entry) (y : Entry)
      → p y ≡ false
      → is_some (find_row p (xs ++ y ∷ [])) ≡ true
      → is_some (find_row p xs) ≡ true
  unfolding find_row
  find_row-other [] y n h = ground arith
  find_row-other (x ∷ xs) y n h = ground (arith, find_row-other xs y n)

module _ (course : String) where
  load_chunk-IsKeyed :
      (c : Chunk) (seen : List Entry)
      → IsKeyed file_of seen
      → IsKeyed file_of (load_chunk course c seen)
  unfolding load_chunk
  load_chunk-IsKeyed c seen k = ground (arith, IsKeyed-append file_of (entry_of c) seen k)

  load_from-IsKeyed :
      (cs : List Chunk) (seen : List Entry)
      → IsKeyed file_of seen
      → IsKeyed file_of (load_from course cs seen)
  unfolding load_from
  load_from-IsKeyed [] seen k = k
  load_from-IsKeyed (c ∷ cs) seen k =
      load_from-IsKeyed cs (load_chunk course c seen) (load_chunk-IsKeyed c seen k)

  -- What is in the list stays in it.
  load_chunk-keeps :
      (c : Chunk) (seen : List Entry) (file : String)
      → is_some (find_row (has_file file) seen) ≡ true
      → is_some (find_row (has_file file) (load_chunk course c seen)) ≡ true
  unfolding load_chunk
  load_chunk-keeps c seen file h =
      ground (arith, find_row-grows (has_file file) seen (entry_of c ∷ []) h)

  load_chunk-adds :
      (c : Chunk) (seen : List Entry)
      → c.course ≡ course
      → is_some (find_row (has_file c.file) (load_chunk course c seen)) ≡ true
  unfolding load_chunk
  load_chunk-adds c seen h = ground (
    arith,
    (eq_iff c.course course).1 h,
    find_row-added (has_file c.file) seen (entry_of c) ((eq_iff c.file c.file).1 refl),
  )

  load_from-keeps :
      (cs : List Chunk) (seen : List Entry) (file : String)
      → is_some (find_row (has_file file) seen) ≡ true
      → is_some (find_row (has_file file) (load_from course cs seen)) ≡ true
  unfolding load_from
  load_from-keeps [] seen file h = h
  load_from-keeps (c ∷ cs) seen file h =
      load_from-keeps cs (load_chunk course c seen) file (load_chunk-keeps c seen file h)

  load_from-adds :
      (cs : List Chunk) (seen : List Entry) (c : Chunk)
      → Memᴰ c cs
      → c.course ≡ course
      → is_some (find_row (has_file c.file) (load_from course cs seen)) ≡ true
  unfolding load_from
  load_from-adds [] seen c m h = elim m [ ]
  load_from-adds (d ∷ ds) seen c (head e) h =
      load_from-keeps ds (load_chunk course d seen) c.file (rw (← e) (load_chunk-adds c seen h))
  load_from-adds (d ∷ ds) seen c (tail m) h = load_from-adds ds (load_chunk course d seen) c m h

  -- A new entry is of a chunk of the course.
  load_chunk-only :
      (c : Chunk) (seen : List Entry) (file : String)
      → is_some (find_row (has_file file) (load_chunk course c seen)) ≡ true
      → (is_some (find_row (has_file file) seen) ≡ true) ⊎ ((c.course ≡ course) × (c.file ≡ file))
  unfolding load_chunk
  load_chunk-only c seen file h = elim (Bool-cases (str_eq c.course course)) [
    | inr f ↦ inl (ground (arith, f))
    | inl t ↦ elim (Bool-cases (str_eq c.file file)) [
      | inl own ↦ inr ((eq_iff c.course course).0 t, (eq_iff c.file file).0 own)
      | inr other ↦ inl (ground (arith, find_row-other (has_file file) seen (entry_of c) other, t))
    ]
  ]

  load_from-only :
      (cs : List Chunk) (seen : List Entry) (file : String)
      → is_some (find_row (has_file file) (load_from course cs seen)) ≡ true
      → (is_some (find_row (has_file file) seen) ≡ true)
        ⊎ ((c : Chunk) × Memᴰ c cs × (c.course ≡ course) × (c.file ≡ file))
  unfolding load_from
  load_from-only [] seen file h = inl h
  load_from-only (d ∷ ds) seen file h = elim (load_from-only ds (load_chunk course d seen) file h) [
    | inr (c, m, same, own) ↦ inr (c, tail m, same, own)
    | inl there ↦ elim (load_chunk-only d seen file there) [
      | inl before ↦ inl before
      | inr (same, own) ↦ inr (d, head refl, same, own)
    ]
  ]

found_nothing : (file : String) → is_some (find_row (has_file file) []) ≡ true → ⊥
unfolding find_row
found_nothing file h = ground arith

find_row-build_tasks :
    (file : String) (es : List Entry)
    → is_some (find_row (at_key task_file file) (build_tasks es))
      ≡ is_some (find_row (has_file file) es)
unfolding build_tasks find_row
find_row-build_tasks file [] = refl
find_row-build_tasks file (e ∷ es) = ground (arith, find_row-build_tasks file es)

build_tasks-IsKeyed : (es : List Entry) → IsKeyed file_of es → IsKeyed task_file (build_tasks es)
unfolding build_tasks
build_tasks-IsKeyed [] k = tt
build_tasks-IsKeyed (e ∷ es) k =
    (ground (arith, find_row-build_tasks e.file es), build_tasks-IsKeyed es k.1)

-- The tasks of a plan are for the files of the course: there is a task for every file that the index
-- has a chunk of the course of, for no other file, and no file twice.
pub plan_days_complete :
    (course : String) (chunks : List Chunk) (today : ℕ) (target : Option ℕ) (daily_minutes : ℕ)
    → let tasks = all_tasks (plan_days course chunks today target daily_minutes) in
      IsKeyed task_file tasks
      × ((c : Chunk)
          → Memᴰ c chunks
          → c.course ≡ course
          → is_some (find_row (at_key task_file c.file) tasks) ≡ true)
      × ((file : String)
          → is_some (find_row (at_key task_file file) tasks) ≡ true
          → (c : Chunk) × Memᴰ c chunks × (c.course ≡ course) × (c.file ≡ file))
unfolding plan_days load_entries
plan_days_complete course chunks today target daily_minutes =
    let entries = load_from course chunks [] in
    rw (distribute-tasks (build_tasks entries) today (total_days_to today target) daily_minutes) (
      build_tasks-IsKeyed entries (load_from-IsKeyed course chunks [] tt),
      (λ c m h. find_row-build_tasks c.file entries ∙ load_from-adds course chunks [] c m h),
      (λ file h.
          elim (load_from-only course chunks [] file
            (sym (find_row-build_tasks file entries) ∙ h)) [
              | inl there ↦ absurd (found_nothing file there)
              | inr c ↦ c
            ]),
    )
