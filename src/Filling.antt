-- ===== src/Filling.antt =====
-- The loop that fills one day of a plan with the tasks that fit in its minutes: it is the same in
-- platform/app/review_plan.py and in platform/app/goal_planner.py.
use study_assistance_agent.Prelude.{
  ℕ, not, ◌&&◌, ◌+◌, ◌≤◌, ◌<◌, ◌≡◌, refl, ap, ◌∙◌, ◌⊎◌, inl, inr, Bool, true, false, List, [], ◌∷◌,
  ◌++◌, arith, if◌then◌else◌, ltb, length, Bool-cases,
}

-- The variables of one day's loop when it ends: `day_tasks`, `used`, and the tasks from `task_idx` on.
pub record Filled (T : Type 0) : Type 0 where
  pub day_tasks : List T
  pub used : ℕ
  pub rest : List T

pub append_assoc {ℓ} : {A : Type ℓ} (xs ys zs : List A) → (xs ++ ys) ++ zs ≡ xs ++ (ys ++ zs)
append_assoc [] ys zs = refl
append_assoc (x ∷ xs) ys zs = ap (λ r. x ∷ r) (append_assoc xs ys zs)

module _ {T : Type 0} where
  abbrev pub is_empty : List T → Bool
  is_empty [] = true
  is_empty (t ∷ ts) = false

  pub is_empty-cases : (ts : List T) → (ts ≡ []) ⊎ (is_empty ts ≡ false)
  is_empty-cases [] = inl refl
  is_empty-cases (t ∷ ts) = inr refl

module _ {T : Type 0} (minutes : T → ℕ) where
  abbrev pub total_of : List T → ℕ
  total_of [] = 0
  total_of (t ∷ ts) = minutes t + total_of ts

  unfoldable pub fill_day : ℕ → List T → ℕ → List T → Filled T
  fill_day available day_tasks used [] = record { day_tasks = day_tasks; used = used; rest = [] }
  fill_day available day_tasks used (t ∷ ts) =
      let next = fill_day available (day_tasks ++ t ∷ []) (used + minutes t) ts in
      if ltb available (used + minutes t) && not (is_empty day_tasks)
      then record { day_tasks = day_tasks; used = used; rest = t ∷ ts }
      else next

  total-append : (xs ys : List T) → total_of (xs ++ ys) ≡ total_of xs + total_of ys
  total-append [] ys = omega arith
  total-append (x ∷ xs) ys = omega (arith, total-append xs ys)

  -- A list of tasks is within the minutes of a day, or it is a single task.
  abbrev pub IsWithin : ℕ → List T → Type 0
  IsWithin available tasks = (total_of tasks ≤ available) ⊎ (length tasks ≤ 1)

  -- The first task that is left does not fit.
  abbrev pub IsFull : ℕ → List T → List T → Type 0
  IsFull available tasks [] = Unit
  IsFull available tasks (t ∷ ts) = available < total_of tasks + minutes t

  -- What one day's loop leaves, when it starts with `before` and the tasks `tasks`.
  pub record IsFilled (available : ℕ) (before tasks : List T) (f : Filled T) : Type 0 where
    pub split : f.day_tasks ++ f.rest ≡ before ++ tasks
    pub used : f.used ≡ total_of f.day_tasks
    pub within : IsWithin available f.day_tasks
    pub full : IsFull available f.day_tasks f.rest
    pub left : length f.rest ≤ length tasks

  IsWithin-append :
      (available used : ℕ) (before : List T) (t : T)
      → used ≡ total_of before
      → (ltb available (used + minutes t) && not (is_empty before)) ≡ false
      → IsWithin available (before ++ t ∷ [])
  IsWithin-append available used [] t u h = inr (omega arith)
  IsWithin-append available used (b ∷ bs) t u h =
      inl (ground (arith, total-append (b ∷ bs) (t ∷ [])))

  IsFull-first :
      (available used : ℕ) (before : List T) (t : T) (ts : List T)
      → used ≡ total_of before
      → (ltb available (used + minutes t) && not (is_empty before)) ≡ true
      → IsFull available before (t ∷ ts)
  IsFull-first available used before t ts u h = ground arith

  fill_day-IsFilled :
      (available : ℕ) (before : List T) (used : ℕ) (tasks : List T)
      → used ≡ total_of before
      → IsWithin available before
      → IsFilled available before tasks (fill_day available before used tasks)
  unfolding fill_day
  fill_day-IsFilled available before used [] u w = record {
    split = refl;
    used = u;
    within = w;
    full = tt;
    left = omega arith;
  }
  fill_day-IsFilled available before used (t ∷ ts) u w =
      elim (Bool-cases (ltb available (used + minutes t) && not (is_empty before))) [
        | inl h ↦
            rw (h, fill_day)
              (record {
                split = refl;
                used = u;
                within = w;
                full = IsFull-first available used before t ts u h;
                left = omega arith;
              })
        | inr h ↦
            let ih =
              fill_day-IsFilled available (before ++ t ∷ []) (used + minutes t) ts
                (omega (arith, total-append before (t ∷ [])))
                (IsWithin-append available used before t u h) in
            rw (h, fill_day)
              (record {
                split = ih.split ∙ append_assoc before (t ∷ []) ts;
                used = ih.used;
                within = ih.within;
                full = ih.full;
                left = omega (arith, ih.left);
              })
      ]

  -- A day that starts empty.
  pub filled :
      (available : ℕ) (tasks : List T) → IsFilled available [] tasks (fill_day available [] 0 tasks)
  filled available tasks = fill_day-IsFilled available [] 0 tasks refl (inl (omega arith))

  -- The first task always goes into the day.
  pub filled-first :
      (available : ℕ) (t : T) (ts : List T)
      → length (fill_day available [] 0 (t ∷ ts)).rest ≤ length ts
  unfolding fill_day
  filled-first available t ts =
      let after =
        fill_day-IsFilled available (t ∷ []) (0 + minutes t) ts (omega arith) (inr (omega arith)) in
      elim (Bool-cases (ltb available (0 + minutes t))) [
        | inl h ↦ rw (fill_day, h) after.left
        | inr h ↦ rw (fill_day, h) after.left
      ]
