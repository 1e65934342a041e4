-- ===== src/Planner/Pinning/Reports.antt =====
-- The report of `_prerequisite_report`: it finds no violation exactly where every task comes after its
-- prerequisites, provided that these have no cycle.
use study_assistance_agent.Prelude.{
  ℕ, String, str_eq, eq_iff, ◌≡◌, refl, inl, inr, true, false, ◌||◌, List, [], ◌∷◌, map, arith, ltb,
  select, Bool-cases,
}
use study_assistance_agent.Lifecycle.{GoalPlanTask}
use study_assistance_agent.Planner.Order.{
  Graph, prerequisites_of, has_file, has_text, present_edges,
}
use study_assistance_agent.Planner.Order.Heap.{AreDistinct}
use study_assistance_agent.Planner.Order.Placed.{IsPlaced, IsAcyclic}
use study_assistance_agent.Planner.Order.Edges.{
  has_text-select, AreSeen-at, AreSeen-all, present_edges_lem,
}
use study_assistance_agent.Planner.Pinning.{position, late_mentions, late_edges, violations}

module _ (tasks : List GoalPlanTask) (graph : Graph) where
  -- In an order, a prerequisite stands before the task, or before the list.
  IsPlaced-position :
      (seen : List String) (ts : List GoalPlanTask) (f p : String)
      → IsPlaced tasks graph seen ts
      → has_file ts f ≡ true
      → has_text (prerequisites_of graph f) p ≡ true
      → has_file tasks p ≡ true
      → (has_text seen p || ltb (position ts p) (position ts f)) ≡ true
  unfolding position
  IsPlaced-position seen [] f p h k m known = cc
  IsPlaced-position seen (t ∷ ts) f p h k m known = elim (Bool-cases (str_eq t.file f)) [
    | inl e ↦
        ground (arith, eq_iff t.file f, AreSeen-at tasks seen (prerequisites_of graph t.file) p h.0)
    | inr e ↦ ground (arith, IsPlaced-position (t.file ∷ seen) ts f p h.1)
  ]

  -- And the other way round.
  position-IsPlaced :
      (seen : List String) (ts : List GoalPlanTask)
      → AreDistinct ts
      → ((f p : String)
          → has_file ts f ≡ true
          → has_text (prerequisites_of graph f) p ≡ true
          → has_file tasks p ≡ true
          → (has_text seen p || ltb (position ts p) (position ts f)) ≡ true)
      → IsPlaced tasks graph seen ts
  unfolding position
  position-IsPlaced seen [] u h = tt
  position-IsPlaced seen (t ∷ ts) u h = (
    AreSeen-all tasks seen (prerequisites_of graph t.file)
        (λ p m k. ground (arith, h t.file p, eq_iff t.file t.file)),
    position-IsPlaced (t.file ∷ seen) ts u.1
        (λ f p k m known. ground (arith, h f p, u.0, eq_iff t.file f)),
  )

late_mentions-none :
    (place : String → ℕ) (f : String) (ps : List String)
    → ((p : String) → has_text ps p ≡ true → ltb (place f) (place p) ≡ false)
    → late_mentions place f ps ≡ 0
unfolding late_mentions
late_mentions-none place f [] h = refl
late_mentions-none place f (p ∷ ps) h =
    ground (arith, h p, eq_iff p p, late_mentions-none place f ps (λ q m. h q (ground arith)))

late_mentions-at :
    (place : String → ℕ) (f p : String) (ps : List String)
    → late_mentions place f ps ≡ 0
    → has_text ps p ≡ true
    → ltb (place f) (place p) ≡ false
unfolding late_mentions
late_mentions-at place f p [] h m = cc
late_mentions-at place f p (q ∷ ps) h m = ground (arith, late_mentions-at place f p ps, eq_iff q p)

late_edges-at :
    (place : String → ℕ) (f p : String) (edges : Graph)
    → late_edges place edges ≡ 0
    → has_text (prerequisites_of edges f) p ≡ true
    → ltb (place f) (place p) ≡ false
unfolding late_edges prerequisites_of
late_edges-at place f p [] h m = cc
late_edges-at place f p ((g, ps) ∷ edges) h m =
    ground (arith, late_edges-at place f p edges, late_mentions-at place g p ps, eq_iff g f)

late_edges-none :
    (place : String → ℕ) (tasks ts : List GoalPlanTask) (graph : Graph)
    → ((f p : String)
        → has_file ts f ≡ true
        → has_text (prerequisites_of graph f) p ≡ true
        → has_file tasks p ≡ true
        → ltb (place f) (place p) ≡ false)
    → late_edges place
        (map (λ t. (t.file, select (has_file tasks) (prerequisites_of graph t.file))) ts)
      ≡ 0
unfolding late_edges
late_edges-none place tasks [] graph h = refl
late_edges-none place tasks (t ∷ ts) graph h =
    let ps = prerequisites_of graph t.file in
    let own = late_mentions-none place t.file (select (has_file tasks) ps) (λ p m.
      ground (arith, h t.file p, has_text-select (has_file tasks) ps p, eq_iff t.file t.file)) in
    let others = late_edges-none place tasks ts graph (λ f p k. h f p (ground arith)) in
    omega (arith, own, others)

position-differs :
    (ts : List GoalPlanTask) (f p : String)
    → has_file ts f ≡ true
    → has_file ts p ≡ true
    → str_eq f p ≡ false
    → ltb (position ts f) (position ts p) ≡ false
    → ltb (position ts p) (position ts f) ≡ true
unfolding position
position-differs [] f p h k n l = cc
position-differs (t ∷ ts) f p h k n l =
    ground (arith, position-differs ts f p, eq_iff t.file f, eq_iff t.file p, eq_iff f p)

ltb_turned : (a b : ℕ) → ltb a b ≡ true → ltb b a ≡ false
ltb_turned a b h = ground arith

-- An order has no violation.
pub violations-none :
    (tasks : List GoalPlanTask) (graph : Graph)
    → IsPlaced tasks graph [] tasks
    → violations tasks graph ≡ 0
unfolding violations present_edges
violations-none tasks graph h = late_edges-none (position tasks) tasks tasks graph (λ f p k m known.
    ltb_turned (position tasks p) (position tasks f)
      (IsPlaced-position tasks graph [] tasks f p h k m known))

-- No violation, and no cycle, make an order.
pub violations-IsPlaced :
    (tasks : List GoalPlanTask) (graph : Graph) (rank : String → ℕ)
    → AreDistinct tasks
    → IsAcyclic tasks graph rank
    → violations tasks graph ≡ 0
    → IsPlaced tasks graph [] tasks
unfolding violations
violations-IsPlaced tasks graph rank unique acyclic h =
    position-IsPlaced tasks graph [] tasks unique (λ f p k m known.
      let falls = acyclic f p k known m in
      let other : str_eq f p ≡ false = ground (arith, falls, eq_iff f p) in
      let among : has_text (prerequisites_of (present_edges tasks graph) f) p ≡ true =
        ground (arith, present_edges_lem tasks graph f p) in
      position-differs tasks f p k known other
        (late_edges-at (position tasks) f p (present_edges tasks graph) h among))
