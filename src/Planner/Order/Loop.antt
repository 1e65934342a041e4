-- ===== src/Planner/Order/Loop.antt =====
-- All rounds of `_kahn`: they return, and what every round keeps holds at the end.
use mathlib.Core.List.{Memᴰ, Perm}
use mathlib.Core.List.Perm
use mathlib.Core.List.Memᴰ.{head, tail}
use mathlib.Core.List.{append_assoc}
use study_assistance_agent.Prelude.{
  ℕ, zero, suc, String, str_eq, eq_iff, ◌≡◌, refl, sym, subst, ap, ◌∙◌, inl, inr, Bool, false, not,
  some, List, [], ◌∷◌, ◌++◌, arith, length, select, append_nil, Bool-cases,
}
use study_assistance_agent.Lifecycle.{GoalPlanTask}
use study_assistance_agent.Planner.Order.{
  Graph, has_file, has_text, Sorting, pending, rounds, start,
}
use study_assistance_agent.Planner.Order.Heap.{AreDistinct}
use study_assistance_agent.Planner.Order.Visits.{IsTracked}
use study_assistance_agent.Planner.Order.Files.{mem-has_file}
use study_assistance_agent.Planner.Order.Rounds.{IsRound, round_lem, start-IsTracked}

abbrev pub left_of : List String → List GoalPlanTask → List GoalPlanTask
left_of emitted ts = select (λ t. not (has_text emitted t.file)) ts

left_of-absent :
    (f : String) (emitted : List String) (ts : List GoalPlanTask)
    → has_file ts f ≡ false
    → left_of (f ∷ emitted) ts ≡ left_of emitted ts
unfolding select
left_of-absent f emitted [] n = refl
left_of-absent f emitted (t ∷ ts) n =
    ground (arith, left_of-absent f emitted ts, eq_iff f t.file, eq_iff t.file f)

pub left_of-all : (ts : List GoalPlanTask) → left_of [] ts ≡ ts
unfolding select
left_of-all [] = refl
left_of-all (t ∷ ts) = ap (λ us. t ∷ us) (left_of-all ts)

-- A task that is emitted is the one that is not left any more.
pub left_of-emitted :
    (t : GoalPlanTask) (emitted : List String) (ts : List GoalPlanTask)
    → AreDistinct ts
    → Memᴰ t ts
    → has_text emitted t.file ≡ false
    → Perm (t ∷ left_of (t.file ∷ emitted) ts) (left_of emitted ts)
      × (length (left_of emitted ts) ≡ suc (length (left_of (t.file ∷ emitted) ts)))
unfolding select
left_of-emitted t emitted [] u m fresh = elim m [ ]
left_of-emitted t emitted (x ∷ ts) u (head e) fresh =
    subst
      (λ y.
        Perm (t ∷ left_of (t.file ∷ emitted) (y ∷ ts)) (left_of emitted (y ∷ ts))
        × (length (left_of emitted (y ∷ ts)) ≡ suc (length (left_of (t.file ∷ emitted) (y ∷ ts)))))
      e
      (let same =
          left_of-absent t.file emitted ts (subst (λ y. has_file ts y.file ≡ false) (sym e) u.0) in
        let kept : left_of emitted (t ∷ ts) ≡ t ∷ left_of emitted ts = ground arith in
        let dropped : left_of (t.file ∷ emitted) (t ∷ ts) ≡ left_of emitted ts =
          ground (arith, eq_iff t.file t.file, same) in
        rw (kept, dropped) (Perm.rfl, refl))
left_of-emitted t emitted (x ∷ ts) u (tail m) fresh =
    let (moved, shorter) = left_of-emitted t emitted ts u.1 m fresh in
    let known = mem-has_file t ts m in
    let other : str_eq t.file x.file ≡ false = ground (arith, eq_iff t.file x.file) in
    elim (Bool-cases (has_text emitted x.file)) [
      | inl e ↦ rw (e, other) (moved, shorter)
      | inr e ↦ rw (e, other) (Perm.trans (Perm.swap x t _) (Perm.cons x moved), ap suc shorter)
    ]

module _ (before : GoalPlanTask → GoalPlanTask → Bool) (tasks : List GoalPlanTask) (edges : Graph)
    (unique : AreDistinct tasks) where
  left_cases :
      (ts : List GoalPlanTask) (n : ℕ)
      → length ts ≡ suc n
      → (t : GoalPlanTask) × (us : List GoalPlanTask) × (ts ≡ t ∷ us)
  left_cases [] n h = ground arith
  left_cases (t ∷ us) n h = (t, us, refl)

  none_left : (ts : List GoalPlanTask) → length ts ≡ 0 → ts ≡ []
  none_left [] h = refl
  none_left (t ∷ ts) h = ground arith

  -- The rounds return, and no task is left.
  pub rounds_ind {κ} :
      (P : Sorting → Type κ)
      → ((s : Sorting)
          → IsTracked before tasks edges [] s
          → (r : IsRound before tasks edges unique s) → P s
          → P r.next)
      → (n : ℕ) (s : Sorting) → IsTracked before tasks edges [] s
      → length (pending before tasks edges s.emitted) ≡ n
      → P s
      → (s' : Sorting) × (rounds before tasks edges n s ≡ some s')
        × P s'
        × (pending before tasks edges s'.emitted ≡ [])
  unfolding rounds
  rounds_ind P keep zero s h l p = (s, refl, p, none_left _ l)
  rounds_ind P keep (suc n) s h l p =
      let (t, ts, left) = left_cases (pending before tasks edges s.emitted) n l in
      let r = round_lem before tasks edges unique s t ts h left in
      let shorter = (left_of-emitted r.first s.emitted tasks unique r.member r.fresh).1 in
      let l' : length (pending before tasks edges r.next.emitted) ≡ n =
        rw r.emitted (omega (arith, shorter, l)) in
      let (s', returned, p', nothing) = rounds_ind P keep n r.next r.tracked l' (keep s h r p) in
      (s', rw (r.returned, rounds) returned, p', nothing)

  abbrev IsShuffled : Sorting → Type 0
  IsShuffled s = Perm (s.ordered ++ pending before tasks edges s.emitted) tasks

  pub round-IsShuffled :
      (s : Sorting) → (r : IsRound before tasks edges unique s) → IsShuffled s → IsShuffled r.next
  round-IsShuffled s r p =
      rw (r.emitted, r.ordered)
        (Perm.trans
          (subst (λ ts. Perm ts (s.ordered ++ pending before tasks edges s.emitted))
            (sym (append_assoc s.ordered (r.first ∷ []) _))
            (Perm.append_left s.ordered
              (left_of-emitted r.first s.emitted tasks unique r.member r.fresh).0))
          p)

  pub rounds_all {κ} :
      (P : Sorting → Type κ)
      → ((s : Sorting)
          → IsTracked before tasks edges [] s
          → (r : IsRound before tasks edges unique s) → P s
          → P r.next)
      → P (start before tasks edges)
      → (s : Sorting) × (rounds before tasks edges (length tasks) (start before tasks edges)
          ≡ some s)
        × P s
        × Perm s.ordered tasks
  unfolding start
  rounds_all P keep p =
      let (s, returned, (good, shuffled), nothing) =
        rounds_ind (λ s. P s × IsShuffled s) (λ s h r q. (keep s h r q.0, round-IsShuffled s r q.1))
          (length tasks) (start before tasks edges) (start-IsTracked before tasks edges unique)
          (ap length (left_of-all tasks))
          (p, subst (λ ts. Perm ts tasks) (sym (left_of-all tasks)) Perm.rfl) in
      (
        s,
        returned,
        good,
        subst (λ ts. Perm ts tasks) (ap (λ us. s.ordered ++ us) nothing ∙ append_nil s.ordered)
            shuffled,
      )
