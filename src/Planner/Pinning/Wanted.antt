-- ===== src/Planner/Pinning/Wanted.antt =====
-- The pinned files are those of the required tasks, and whatever they want.
use mathlib.Core.List.{Memᴰ}
use mathlib.Core.List.Memᴰ.{head, tail}
use study_assistance_agent.Prelude.{
  ℕ, zero, suc, String, str_eq, eq_iff, ◌≡◌, refl, subst, ◌∙◌, inl, inr, true, List, [], ◌∷◌, arith,
  length, Bool-cases,
}
use study_assistance_agent.Lifecycle.{GoalPlanTask}
use study_assistance_agent.Planner.Order.{Graph, prerequisites_of, has_text}
use study_assistance_agent.Planner.Order.Heap.{AreDistinct}
use study_assistance_agent.Planner.Pinning.{
  is_required, pin_all, close, required_files, pinned_files,
}
use study_assistance_agent.Planner.Pinning.Required.{required_files-is_required}
use study_assistance_agent.Planner.Pinning.Closure.{
  AreKnown, pin_all-IsPushed, pinned_files-IsClosed,
}

-- A file of a required task, or a prerequisite of a file that is wanted.
pub data Wanted (lower : String → String) (required : List String) (tasks : List GoalPlanTask)
    (edges : Graph) : String → Type 0 where
  named :
      (t : GoalPlanTask)
      → Memᴰ t tasks
      → is_required lower required t ≡ true
      → (f : String) → t.file ≡ f
      → Wanted lower required tasks edges f
  needed :
      (f : String)
      → Wanted lower required tasks edges f
      → (p : String) → has_text (prerequisites_of edges f) p ≡ true
      → Wanted lower required tasks edges p

module _ (lower : String → String) (required : List String) (tasks : List GoalPlanTask)
    (edges : Graph) where
  abbrev pub AreWanted : List String → Type 0
  AreWanted files = (f : String) → has_text files f ≡ true → Wanted lower required tasks edges f

  AreWanted-cons :
      (f : String) (files : List String)
      → Wanted lower required tasks edges f
      → AreWanted files
      → AreWanted (f ∷ files)
  AreWanted-cons f files w ws g k = elim (Bool-cases (str_eq f g)) [
    | inl e ↦ subst (Wanted lower required tasks edges) ((eq_iff f g).0 e) w
    | inr e ↦ ws g (ground arith)
  ]

  AreWanted-tail : (f : String) (files : List String) → AreWanted (f ∷ files) → AreWanted files
  AreWanted-tail f files ws g k = ws g (ground arith)

  pin_all-AreWanted :
      (ps pinned stack : List String)
      → AreWanted ps
      → AreWanted pinned
      → AreWanted stack
      → let r = pin_all ps pinned stack in AreWanted r.0 × AreWanted r.1
  unfolding pin_all
  pin_all-AreWanted [] pinned stack w v u = (v, u)
  pin_all-AreWanted (p ∷ ps) pinned stack w v u = elim (Bool-cases (has_text pinned p)) [
    | inl e ↦ rw (e, pin_all) (pin_all-AreWanted ps pinned stack (AreWanted-tail p ps w) v u)
    | inr e ↦
        let own = w p (ground (arith, eq_iff p p)) in
        rw (e, pin_all)
          (pin_all-AreWanted ps (p ∷ pinned) (p ∷ stack) (AreWanted-tail p ps w)
            (AreWanted-cons p pinned own v) (AreWanted-cons p stack own u))
  ]

  close-AreWanted :
      (n : ℕ) (pinned stack : List String)
      → AreWanted pinned
      → AreWanted stack
      → AreWanted (close edges n pinned stack)
  unfolding close
  close-AreWanted zero pinned stack v u = v
  close-AreWanted (suc n) pinned [] v u = v
  close-AreWanted (suc n) pinned (f ∷ stack) v u =
      let own = u f (ground (arith, eq_iff f f)) in
      let (v', u') =
        pin_all-AreWanted (prerequisites_of edges f) pinned stack (λ p m. needed f own p m) v
          (AreWanted-tail f stack u) in
      close-AreWanted n _ _ v' u'

  required_files-AreWanted :
      (stack : List String) (ts : List GoalPlanTask)
      → ((t : GoalPlanTask) → Memᴰ t ts → Memᴰ t tasks)
      → AreWanted stack
      → AreWanted (required_files lower required stack ts)
  unfolding required_files
  required_files-AreWanted stack [] sub w = w
  required_files-AreWanted stack (t ∷ ts) sub w = elim (Bool-cases (is_required lower required t)) [
    | inl e ↦ rw e (
        required_files-AreWanted (t.file ∷ stack) ts (λ u m. sub u (tail m))
          (AreWanted-cons t.file stack (named t (sub t (head refl)) e t.file refl) w))
    | inr e ↦ rw e (required_files-AreWanted stack ts (λ u m. sub u (tail m)) w)
  ]

  pub pinned_files-AreWanted : AreWanted (pinned_files lower required tasks edges)
  unfolding pinned_files
  pinned_files-AreWanted =
      let files = required_files lower required [] tasks in
      let w = required_files-AreWanted [] tasks (λ t m. m) (λ f k. ground arith) in
      close-AreWanted (length tasks) files files w w

  module _ (unique : AreDistinct tasks) (known : AreKnown tasks edges) where
    close-keeps :
        (n : ℕ) (pinned stack : List String) (f : String)
        → has_text pinned f ≡ true
        → has_text (close edges n pinned stack) f ≡ true
    unfolding close
    close-keeps zero pinned stack f k = k
    close-keeps (suc n) pinned [] f k = k
    close-keeps (suc n) pinned (g ∷ stack) f k =
        let r = pin_all-IsPushed tasks unique (prerequisites_of edges g) pinned stack (known g) in
        close-keeps n _ _ f (r.keeps f k)

    pub Wanted-pinned_files :
        (f : String)
        → Wanted lower required tasks edges f
        → has_text (pinned_files lower required tasks edges) f ≡ true
    unfolding pinned_files
    Wanted-pinned_files f (named t m r g e) =
        let files = required_files lower required [] tasks in
        let own = required_files-is_required lower required t [] tasks unique m in
        subst (λ x. has_text (pinned_files lower required tasks edges) x ≡ true) e
          (close-keeps (length tasks) files files t.file (own ∙ r))
    Wanted-pinned_files f (needed g w p m) =
        pinned_files-IsClosed tasks unique lower required edges known g p (Wanted-pinned_files g w)
          m
