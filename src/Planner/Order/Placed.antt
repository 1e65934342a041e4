-- ===== src/Planner/Order/Placed.antt =====
-- `_kahn` on prerequisites without cycles: every task comes after its prerequisites.
use mathlib.Core.List.{Perm}
use study_assistance_agent.Prelude.{
  ℕ, zero, suc, ◌<◌, String, str_eq, eq_iff, ◌≡◌, refl, sym, subst, ap, ◌∙◌, ◌⊎◌, inl, inr, Bool,
  true, false, not, ◌&&◌, ◌||◌, some, List, [], ◌∷◌, ◌++◌, arith, All, Bool-cases,
}
use study_assistance_agent.Lifecycle.{GoalPlanTask}
use study_assistance_agent.Planner.Order.{
  Graph, prerequisites_of, has_file, has_text, entry_leb, Sorting, waiting, start, kahn,
}
use study_assistance_agent.Planner.Order.Heap.{AreDistinct}
use study_assistance_agent.Planner.Order.Visits.{IsTracked}
use study_assistance_agent.Planner.Order.Files.{mem-has_file}
use study_assistance_agent.Planner.Order.Rounds.{IsRound}
use study_assistance_agent.Planner.Order.Loop.{rounds_all}

-- The prerequisites among the tasks are `seen`.
abbrev pub AreSeen : List GoalPlanTask → List String → List String → Type 0
AreSeen tasks seen prereqs = All (λ p. has_file tasks p ≡ true → has_text seen p ≡ true) prereqs

-- Every task comes after its prerequisites, some of which are `seen` before all of them.
abbrev pub IsPlaced : List GoalPlanTask → Graph → List String → List GoalPlanTask → Type 0
IsPlaced tasks edges seen [] = Unit
IsPlaced tasks edges seen (t ∷ ts) =
    AreSeen tasks seen (prerequisites_of edges t.file) × IsPlaced tasks edges (t.file ∷ seen) ts

-- A rank that falls from every task to its prerequisites: the prerequisites have no cycle.
abbrev pub IsAcyclic : List GoalPlanTask → Graph → (String → ℕ) → Type 0
IsAcyclic tasks edges rank =
    (f p : String)
    → has_file tasks f ≡ true
    → has_file tasks p ≡ true
    → has_text (prerequisites_of edges f) p ≡ true
    → rank p < rank f

module _ (tasks : List GoalPlanTask) (edges : Graph) where
  moved_seen :
      (seen : List String) (u : GoalPlanTask) (ts : List GoalPlanTask) (ps : List String)
      → All (λ p. has_file tasks p ≡ true → (has_text seen p || has_file (u ∷ ts) p) ≡ true) ps
      → All (λ p. has_file tasks p ≡ true → (has_text (u.file ∷ seen) p || has_file ts p) ≡ true) ps
  moved_seen seen u ts [] h = tt
  moved_seen seen u ts (p ∷ ps) h = ((λ k. ground (arith, h.0 k)), moved_seen seen u ts ps h.1)

  All-seen :
      (seen : List String) (ps : List String)
      → All (λ p. has_file tasks p ≡ true → (has_text seen p || has_file [] p) ≡ true) ps
      → AreSeen tasks seen ps
  All-seen seen [] h = tt
  All-seen seen (p ∷ ps) h = ((λ k. ground (arith, h.0 k)), All-seen seen ps h.1)

  IsPlaced-snoc :
      (seen : List String) (ts : List GoalPlanTask) (t : GoalPlanTask)
      → IsPlaced tasks edges seen ts
      → All
          (λ p. has_file tasks p ≡ true → (has_text seen p || has_file ts p) ≡ true)
          (prerequisites_of edges t.file)
      → IsPlaced tasks edges seen (ts ++ t ∷ [])
  IsPlaced-snoc seen [] t h k = (All-seen seen (prerequisites_of edges t.file) k, tt)
  IsPlaced-snoc seen (u ∷ ts) t h k = (
    h.0,
    IsPlaced-snoc (u.file ∷ seen) ts t h.1 (moved_seen seen u ts (prerequisites_of edges t.file) k),
  )

module _ (before : GoalPlanTask → GoalPlanTask → Bool) (tasks : List GoalPlanTask)
    (edges : Graph) where
  seen_of_free :
      (emitted : List String) (ts : List GoalPlanTask) (ps : List String)
      → ((f : String) → has_text emitted f ≡ true → has_file ts f ≡ true)
      → waiting before tasks edges emitted ps ≡ 0
      → All (λ p. has_file tasks p ≡ true → (has_text [] p || has_file ts p) ≡ true) ps
  seen_of_free emitted ts [] known h = tt
  seen_of_free emitted ts (p ∷ ps) known h =
      ((λ k. ground (arith, known p)), seen_of_free emitted ts ps known (ground arith))

  -- A prerequisite that is waited for.
  waiting-cases :
      (emitted ps : List String)
      → (waiting before tasks edges emitted ps ≡ 0)
        ⊎ ((p : String) × (has_text ps p ≡ true)
            × (has_file tasks p ≡ true)
            × (has_text emitted p ≡ false))
  waiting-cases emitted [] = inl refl
  waiting-cases emitted (p ∷ ps) = elim (waiting-cases emitted ps) [
    | inr (q, among, known, fresh) ↦ inr (q, ground arith, known, fresh)
    | inl rest ↦ elim (Bool-cases (has_file tasks p && not (has_text emitted p))) [
      | inl e ↦ inr (p, ground (arith, eq_iff p p), ground arith, ground arith)
      | inr e ↦ inl (ground arith)
    ]
  ]

  -- Without cycles, some task that is left waits for nothing.
  some_free :
      (rank : String → ℕ) (emitted : List String)
      → IsAcyclic tasks edges rank
      → (n : ℕ) (f : String) → rank f < n
      → has_file tasks f ≡ true
      → has_text emitted f ≡ false
      → (g : String) × (has_file tasks g ≡ true)
        × (has_text emitted g ≡ false)
        × (waiting before tasks edges emitted (prerequisites_of edges g) ≡ 0)
  some_free rank emitted acyclic zero f l k e = absurd (omega arith)
  some_free rank emitted acyclic (suc n) f l k e =
      elim (waiting-cases emitted (prerequisites_of edges f)) [
        | inl free ↦ (f, k, e, free)
        | inr (p, among, known, fresh) ↦
            let falls = acyclic f p k known among in
            some_free rank emitted acyclic n p (omega arith) known fresh
      ]

  module _ (unique : AreDistinct tasks) (rank : String → ℕ)
      (acyclic : IsAcyclic tasks edges rank) where
    -- The heap is never empty while tasks are left.
    first_free :
        (s : Sorting)
        → IsTracked before tasks edges [] s
        → (r : IsRound before tasks edges unique s)
        → waiting before tasks edges s.emitted (prerequisites_of edges r.first.file) ≡ 0
    first_free s h r = elim r.free [
      | inr free ↦ free
      | inl empty ↦
          let known = mem-has_file r.first tasks r.member in
          let (g, k, e, free) =
            some_free rank s.emitted acyclic (suc (rank r.first.file)) r.first.file (omega arith)
              known r.fresh in
          let queued : has_file s.heap g ≡ false = ap (λ ts. has_file ts g) empty in
          absurd (ground (arith, h.degrees g k e, h.ready g k e, queued))
    ]

    abbrev IsGood : Sorting → Type 0
    IsGood s =
        IsPlaced tasks edges [] s.ordered
        × ((f : String) → has_text s.emitted f ≡ true → has_file s.ordered f ≡ true)

    has_file-snoc :
        (ts : List GoalPlanTask) (t : GoalPlanTask) (f : String)
        → has_file (ts ++ t ∷ []) f ≡ (has_file ts f || str_eq t.file f)
    has_file-snoc [] t f = ground arith
    has_file-snoc (u ∷ ts) t f = ground (arith, has_file-snoc ts t f)

    round-IsGood :
        (s : Sorting)
        → IsTracked before tasks edges [] s
        → (r : IsRound before tasks edges unique s) → IsGood s
        → IsGood r.next
    round-IsGood s h r (placed, known) =
        rw (r.emitted, r.ordered)
          (
            IsPlaced-snoc tasks edges [] s.ordered r.first placed (
                seen_of_free s.emitted s.ordered (prerequisites_of edges r.first.file) known
                  (first_free s h r)),
            (λ f e. ground (arith, known f, has_file-snoc s.ordered r.first f)),
          )

same_some : (a b : Sorting) → some a ≡ some b → a ≡ b
same_some a b h = cc h

-- Kahn's algorithm returns a permutation of the tasks. Where the prerequisites have no cycle, every task
-- comes after its prerequisites among them. The tasks must have distinct files.
pub kahn_lem :
    (key : GoalPlanTask → List ℕ) (tasks : List GoalPlanTask) (edges : Graph)
    → AreDistinct tasks
    → (ordered : List GoalPlanTask) × (kahn key tasks edges ≡ some ordered)
      × Perm ordered tasks
      × ((rank : String → ℕ) → IsAcyclic tasks edges rank → IsPlaced tasks edges [] ordered)
unfolding kahn start
kahn_lem key tasks edges unique =
    let before = entry_leb key in
    let (s, returned, nothing, shuffled) =
      rounds_all before tasks edges unique (λ s. Unit {0}) (λ s h r p. tt) tt in
    (
      s.ordered,
      rw (kahn, returned) refl,
      shuffled,
      λ rank acyclic.
          let (s', returned', good, shuffled') =
            rounds_all before tasks edges unique (IsGood before tasks edges unique rank acyclic)
              (round-IsGood before tasks edges unique rank acyclic) (tt, (λ f e. ground arith)) in
          subst (λ z. IsPlaced tasks edges [] z.ordered) (same_some s' s (sym returned' ∙ returned))
            good.0,
    )
