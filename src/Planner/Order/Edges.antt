-- ===== src/Planner/Order/Edges.antt =====
-- The prerequisites among the tasks, and orders in which every task comes after its prerequisites.
use study_assistance_agent.Prelude.{
  String, eq_iff, ◌≡◌, refl, Bool, true, ◌&&◌, ◌||◌, List, [], ◌∷◌, ◌++◌, map, arith, select, All,
}
use study_assistance_agent.Lifecycle.{GoalPlanTask}
use study_assistance_agent.Planner.Order.{
  Graph, prerequisites_of, has_file, has_text, present_edges,
}
use study_assistance_agent.Planner.Order.Placed.{AreSeen, IsPlaced}

pub has_text-select :
    (q : String → Bool) (ps : List String) (p : String)
    → has_text (select q ps) p ≡ (has_text ps p && q p)
unfolding select
has_text-select q [] p = refl
has_text-select q (x ∷ ps) p = ground (arith, has_text-select q ps p, eq_iff x p)

module _ (tasks : List GoalPlanTask) (graph : Graph) where
  mapped_edges :
      (ts : List GoalPlanTask) (f p : String)
      → has_text
          (prerequisites_of
            (map (λ t. (t.file, select (has_file tasks) (prerequisites_of graph t.file))) ts)
            f)
          p
        ≡ (has_file ts f && (has_text (prerequisites_of graph f) p && has_file tasks p))
  unfolding prerequisites_of
  mapped_edges [] f p = refl
  mapped_edges (t ∷ ts) f p = ground (
    arith,
    mapped_edges ts f p,
    eq_iff t.file f,
    has_text-select (has_file tasks) (prerequisites_of graph t.file) p,
  )

  -- The edges of the plan are those of the graph between two of its tasks.
  pub present_edges_lem :
      (f p : String)
      → has_text (prerequisites_of (present_edges tasks graph) f) p
        ≡ (has_file tasks f && (has_text (prerequisites_of graph f) p && has_file tasks p))
  unfolding present_edges
  present_edges_lem f p = mapped_edges tasks f p

pub AreSeen-at :
    (tasks : List GoalPlanTask) (seen ps : List String) (p : String)
    → AreSeen tasks seen ps
    → has_text ps p ≡ true
    → has_file tasks p ≡ true
    → has_text seen p ≡ true
AreSeen-at tasks seen [] p h m k = cc
AreSeen-at tasks seen (x ∷ ps) p h m k =
    ground (arith, AreSeen-at tasks seen ps p h.1, eq_iff x p, h.0)

pub AreSeen-all :
    (tasks : List GoalPlanTask) (seen ps : List String)
    → ((p : String) → has_text ps p ≡ true → has_file tasks p ≡ true → has_text seen p ≡ true)
    → AreSeen tasks seen ps
AreSeen-all tasks seen [] h = tt
AreSeen-all tasks seen (x ∷ ps) h =
    (h x (ground (arith, eq_iff x x)), AreSeen-all tasks seen ps (λ p m. h p (ground arith)))

-- An order for some tasks and edges is one for others, which ask for no more.
pub IsPlaced-weaken :
    (tasks other : List GoalPlanTask) (edges graph : Graph) (seen : List String)
    (ts : List GoalPlanTask)
    → All
        (λ t.
          (p : String)
          → has_text (prerequisites_of graph t.file) p ≡ true
          → has_file other p ≡ true
          → (has_text (prerequisites_of edges t.file) p ≡ true) × (has_file tasks p ≡ true))
        ts
    → IsPlaced tasks edges seen ts
    → IsPlaced other graph seen ts
IsPlaced-weaken tasks other edges graph seen [] h placed = tt
IsPlaced-weaken tasks other edges graph seen (t ∷ ts) h placed = (
  AreSeen-all other seen (prerequisites_of graph t.file) (λ p m k.
      let (among, known) = h.0 p m k in
      AreSeen-at tasks seen (prerequisites_of edges t.file) p placed.0 among known),
  IsPlaced-weaken tasks other edges graph (t.file ∷ seen) ts h.1 placed.1,
)

pub IsPlaced-empty :
    (tasks : List GoalPlanTask) (seen : List String) (ts : List GoalPlanTask)
    → IsPlaced tasks [] seen ts
unfolding prerequisites_of
IsPlaced-empty tasks seen [] = tt
IsPlaced-empty tasks seen (t ∷ ts) = (tt, IsPlaced-empty tasks (t.file ∷ seen) ts)

pub IsPlaced-append :
    (tasks : List GoalPlanTask) (graph : Graph) (seen : List String) (xs ys : List GoalPlanTask)
    → IsPlaced tasks graph seen xs
    → ((more : List String)
        → ((f : String) → (has_text seen f || has_file xs f) ≡ true → has_text more f ≡ true)
        → IsPlaced tasks graph more ys)
    → IsPlaced tasks graph seen (xs ++ ys)
IsPlaced-append tasks graph seen [] ys h rest = rest seen (λ f k. ground arith)
IsPlaced-append tasks graph seen (x ∷ xs) ys h rest = (
  h.0,
  IsPlaced-append tasks graph (x.file ∷ seen) xs ys h.1
      (λ more k. rest more (λ f m. k f (ground arith))),
)

pub All-has_file :
    (tasks ts : List GoalPlanTask)
    → ((f : String) → has_file ts f ≡ true → has_file tasks f ≡ true)
    → All (λ t. has_file tasks t.file ≡ true) ts
All-has_file tasks [] h = tt
All-has_file tasks (t ∷ ts) h = (
  h t.file (ground (arith, eq_iff t.file t.file)),
  All-has_file tasks ts (λ f k. h f (ground arith)),
)
