-- ===== src/Planner/Pinning/Closure.antt =====
-- The pinned files: the required ones, and with a file its prerequisites.
use mathlib.Core.List.{Memᴰ}
use mathlib.Core.List.Memᴰ.{head, tail}
use study_assistance_agent.Prelude.{
  ℕ, zero, suc, ◌+◌, ◌≤◌, String, str_eq, eq_iff, ◌≡◌, refl, sym, subst, ap, ◌∙◌, ◌⊎◌, inl, inr,
  Bool, true, false, ◌||◌, List, [], ◌∷◌, arith, length, Bool-cases,
}
use study_assistance_agent.Lifecycle.{GoalPlanTask}
use study_assistance_agent.Planner.Order.{Graph, prerequisites_of, has_file, has_text}
use study_assistance_agent.Planner.Order.Heap.{AreDistinct}
use study_assistance_agent.Planner.Order.Loop.{left_of, left_of-emitted, left_of-all}
use study_assistance_agent.Planner.Pinning.{
  pin_all, close, is_required, required_files, pinned_files,
}

has_file-cases :
    (ts : List GoalPlanTask) (f : String)
    → has_file ts f ≡ true
    → (t : GoalPlanTask) × Memᴰ t ts × (t.file ≡ f)
has_file-cases [] f h = ground arith
has_file-cases (t ∷ ts) f h = elim (Bool-cases (str_eq t.file f)) [
  | inl e ↦ (t, head refl, (eq_iff t.file f).0 e)
  | inr e ↦ let (u, m, same) = has_file-cases ts f (ground arith) in (u, tail m, same)
]

-- The prerequisites are among the tasks.
abbrev pub AreKnown : List GoalPlanTask → Graph → Type 0
AreKnown tasks edges =
    (f p : String) → has_text (prerequisites_of edges f) p ≡ true → has_file tasks p ≡ true

module _ (tasks : List GoalPlanTask) (unique : AreDistinct tasks) where
  -- Two numbers that fall together: what is on the stack, and what is not pinned.
  abbrev weight : List String → List String → ℕ
  weight pinned stack = length stack + length (left_of pinned tasks)

  weight-pinned :
      (f : String) (pinned stack : List String)
      → has_file tasks f ≡ true
      → has_text pinned f ≡ false
      → weight (f ∷ pinned) (f ∷ stack) ≡ weight pinned stack
  weight-pinned f pinned stack k n =
      let (t, m, same) = has_file-cases tasks f k in
      let fresh : has_text pinned t.file ≡ false = ap (has_text pinned) same ∙ n in
      let shorter = (left_of-emitted t pinned tasks unique m fresh).1 in
      subst (λ g. weight (g ∷ pinned) (g ∷ stack) ≡ weight pinned stack) same
        (omega (arith, shorter))

  pub record IsPushed (ps pinned stack : List String) (r : List String × List String) : Type 0 where
    pub keeps : (f : String) → has_text pinned f ≡ true → has_text r.0 f ≡ true
    stays : (f : String) → has_text stack f ≡ true → has_text r.1 f ≡ true
    pins : (f : String) → has_text ps f ≡ true → has_text r.0 f ≡ true
    pushes : (f : String) → has_text r.0 f ≡ true → (has_text pinned f || has_text r.1 f) ≡ true
    balanced : weight r.0 r.1 ≡ weight pinned stack

  pub pin_all-IsPushed :
      (ps pinned stack : List String)
      → ((f : String) → has_text ps f ≡ true → has_file tasks f ≡ true)
      → IsPushed ps pinned stack (pin_all ps pinned stack)
  unfolding pin_all
  pin_all-IsPushed [] pinned stack k = record {
    keeps = λ f h. h;
    stays = λ f h. h;
    pins = λ f h. ground arith;
    pushes = λ f h. ground arith;
    balanced = refl;
  }
  pin_all-IsPushed (p ∷ ps) pinned stack k = elim (Bool-cases (has_text pinned p)) [
    | inl e ↦
        let r = pin_all-IsPushed ps pinned stack (λ f h. k f (ground arith)) in
        rw e (record {
          keeps = r.keeps;
          stays = r.stays;
          pins = λ f h. ground (arith, r.pins f, r.keeps f, eq_iff p f);
          pushes = r.pushes;
          balanced = r.balanced;
        })
    | inr e ↦
        let r = pin_all-IsPushed ps (p ∷ pinned) (p ∷ stack) (λ f h. k f (ground arith)) in
        let even = weight-pinned p pinned stack (k p (ground (arith, eq_iff p p))) e in
        rw e (record {
          keeps = λ f h. ground (arith, r.keeps f);
          stays = λ f h. ground (arith, r.stays f);
          pins = λ f h. ground (arith, r.pins f, r.keeps f, eq_iff p f);
          pushes = λ f h. ground (arith, r.pushes f h, r.stays f);
          balanced = r.balanced ∙ even;
        })
  ]

  -- A pinned file that is not on the stack has its prerequisites pinned.
  abbrev IsOpen : Graph → List String → List String → Type 0
  IsOpen edges pinned stack =
      (f : String)
      → has_text pinned f ≡ true
      → (has_text stack f ≡ true)
        ⊎ ((p : String) → has_text (prerequisites_of edges f) p ≡ true → has_text pinned p ≡ true)

  or_cases : (a b : Bool) → (a || b) ≡ true → (a ≡ true) ⊎ (b ≡ true)
  or_cases true b h = inl refl
  or_cases false b h = inr h

  pushed-IsOpen :
      (edges : Graph) (f : String) (pinned stack : List String)
      → AreKnown tasks edges
      → IsOpen edges pinned (f ∷ stack)
      → let r = pin_all (prerequisites_of edges f) pinned stack in IsOpen edges r.0 r.1
  pushed-IsOpen edges f pinned stack known h g k =
      let r = pin_all-IsPushed (prerequisites_of edges f) pinned stack (known f) in
      elim (or_cases _ _ (r.pushes g k)) [
        | inr pushed ↦ inl pushed
        | inl old ↦ elim (h g old) [
          | inr closed ↦ inr (λ p m. r.keeps p (closed p m))
          | inl queued ↦ elim (or_cases _ _ queued) [
            | inr later ↦ inl (r.stays g later)
            | inl now ↦ inr (λ p m. r.pins p (
                subst (λ x. has_text (prerequisites_of edges x) p ≡ true) (sym ((eq_iff f g).0 now))
                  m))
          ]
        ]
      ]

  -- The loop ends with an empty stack: with every file its prerequisites are pinned.
  close-IsClosed :
      (edges : Graph) (n : ℕ) (pinned stack : List String)
      → AreKnown tasks edges
      → weight pinned stack ≤ n
      → IsOpen edges pinned stack
      → (f p : String) → has_text (close edges n pinned stack) f ≡ true
      → has_text (prerequisites_of edges f) p ≡ true
      → has_text (close edges n pinned stack) p ≡ true
  unfolding close
  close-IsClosed edges zero pinned [] known l h f p k m = elim (h f k) [
    | inl absent ↦ cc
    | inr closed ↦ closed p m
  ]
  close-IsClosed edges zero pinned (g ∷ stack) known l h f p k m = absurd (omega arith)
  close-IsClosed edges (suc n) pinned [] known l h f p k m = elim (h f k) [
    | inl absent ↦ cc
    | inr closed ↦ closed p m
  ]
  close-IsClosed edges (suc n) pinned (g ∷ stack) known l h f p k m =
      let r = pin_all (prerequisites_of edges g) pinned stack in
      let even = (pin_all-IsPushed (prerequisites_of edges g) pinned stack (known g)).balanced in
      close-IsClosed edges n r.0 r.1 known (omega (arith, even))
        (pushed-IsOpen edges g pinned stack known h) f p k m

  module _ (lower : String → String) (required : List String) where
    required_files-weight :
        (stack : List String) (ts : List GoalPlanTask)
        → AreDistinct ts
        → ((f : String)
            → has_file ts f ≡ true
            → (has_file tasks f ≡ true) × (has_text stack f ≡ false))
        → let files = required_files lower required stack ts in
          weight files files ≡ weight stack stack
    unfolding required_files
    required_files-weight stack [] u h = refl
    required_files-weight stack (t ∷ ts) u h =
        let own = h t.file (ground (arith, eq_iff t.file t.file)) in
        elim (Bool-cases (is_required lower required t)) [
          | inl e ↦ rw e (
              required_files-weight (t.file ∷ stack) ts u.1
                (λ f k. ground (arith, h f, u.0, eq_iff t.file f))
              ∙ weight-pinned t.file stack stack own.0 own.1)
          | inr e ↦ rw e (required_files-weight stack ts u.1 (λ f k. ground (arith, h f)))
        ]

    pub pinned_files-IsClosed :
        (edges : Graph)
        → AreKnown tasks edges
        → (f p : String) → has_text (pinned_files lower required tasks edges) f ≡ true
        → has_text (prerequisites_of edges f) p ≡ true
        → has_text (pinned_files lower required tasks edges) p ≡ true
    unfolding pinned_files
    pinned_files-IsClosed edges known f p k m =
        let files = required_files lower required [] tasks in
        let even = required_files-weight [] tasks unique (λ g h. (h, refl)) in
        let all = ap length (left_of-all tasks) in
        close-IsClosed edges (length tasks) files files known (omega (arith, even, all))
          (λ g h. inl h) f p k m

pub close-alone : (n : ℕ) (pinned stack : List String) → close [] n pinned stack ≡ pinned
unfolding close pin_all prerequisites_of
close-alone zero pinned stack = refl
close-alone (suc n) pinned [] = refl
close-alone (suc n) pinned (f ∷ stack) = close-alone n pinned stack
