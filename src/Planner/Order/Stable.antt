-- ===== src/Planner/Order/Stable.antt =====
-- The order of all tasks, and that of some tasks with all their prerequisites.
use mathlib.Core.List.{Perm}
use study_assistance_agent.Prelude.{
  ℕ, String, ◌≡◌, refl, sym, ◌∙◌, Bool, true, ◌&&◌, Option, some, List, [], ◌∷◌, arith, select,
  order_by, All,
}
use study_assistance_agent.Lifecycle.{GoalPlanTask}
use study_assistance_agent.Planner.Order.{
  Graph, prerequisites_of, has_file, has_text, present_edges, order_key, entry_leb, kahn,
  stable_order,
}
use study_assistance_agent.Planner.Order.Heap.{AreDistinct}
use study_assistance_agent.Planner.Order.Files.{has_file-select, AreDistinct-select}
use study_assistance_agent.Planner.Order.Shuffles.{has_file-perm, order_by-perm}
use study_assistance_agent.Planner.Order.Placed.{IsPlaced, IsAcyclic, kahn_lem}
use study_assistance_agent.Planner.Order.Edges.{
  present_edges_lem, IsPlaced-weaken, IsPlaced-empty, All-has_file,
}

-- An order of the tasks is returned. Where the prerequisites have no cycle, every task comes after its
-- prerequisites.
pub record IsOrder (tasks : List GoalPlanTask) (graph : Graph) (o : Option (List GoalPlanTask))
    : Type 0 where
  pub result : List GoalPlanTask
  pub returned : o ≡ some result
  pub shuffled : Perm result tasks
  pub placed : (rank : String → ℕ) → IsAcyclic tasks graph rank → IsPlaced tasks graph [] result

-- The files that are kept have their prerequisites kept.
abbrev pub AreKept : List GoalPlanTask → Graph → (String → Bool) → Type 0
AreKept tasks graph keep =
    (f p : String)
    → keep f ≡ true
    → has_text (prerequisites_of (present_edges tasks graph) f) p ≡ true
    → keep p ≡ true

All-asked :
    (tasks : List GoalPlanTask) (graph : Graph) (keep : String → Bool) (sub : List GoalPlanTask)
    → AreKept tasks graph keep
    → ((f : String) → has_file sub f ≡ (has_file tasks f && keep f))
    → (ts : List GoalPlanTask) → All (λ t. has_file sub t.file ≡ true) ts
    → All
        (λ t.
          (p : String)
          → has_text (prerequisites_of graph t.file) p ≡ true
          → has_file tasks p ≡ true
          → (has_text (prerequisites_of (present_edges tasks graph) t.file) p ≡ true)
            × (has_file sub p ≡ true))
        ts
All-asked tasks graph keep sub kept files [] h = tt
All-asked tasks graph keep sub kept files (t ∷ ts) h = (
  (λ p m k.
      let among : has_text (prerequisites_of (present_edges tasks graph) t.file) p ≡ true =
        ground (arith, present_edges_lem tasks graph t.file p, files t.file, h.0) in
      (among, ground (arith, kept t.file p, files p, files t.file, h.0))),
  All-asked tasks graph keep sub kept files ts h.1,
)

kept_lem :
    (key : GoalPlanTask → List ℕ) (tasks : List GoalPlanTask) (graph : Graph) (keep : String → Bool)
    (sub : List GoalPlanTask)
    → AreDistinct sub
    → AreKept tasks graph keep
    → ((f : String) → has_file sub f ≡ (has_file tasks f && keep f))
    → (block : List GoalPlanTask) × (kahn key sub (present_edges tasks graph) ≡ some block)
      × Perm block sub
      × ((rank : String → ℕ) → IsAcyclic tasks graph rank → IsPlaced tasks graph [] block)
kept_lem key tasks graph keep sub unique kept files =
    let edges = present_edges tasks graph in
    let (block, returned, shuffled, placed) = kahn_lem key sub edges unique in
    (
      block,
      returned,
      shuffled,
      λ rank acyclic.
          let within : IsAcyclic sub edges rank = λ f p k l m.
            acyclic f p (ground (arith, files f)) (ground (arith, files p))
              (ground (arith, present_edges_lem tasks graph f p)) in
          IsPlaced-weaken sub tasks edges graph [] block
            (All-asked tasks graph keep sub kept files block
              (All-has_file sub block (λ f k. sym (has_file-perm block sub f shuffled) ∙ k)))
            (placed rank within),
    )

-- `_kahn` on the tasks that are kept.
pub kahn-select :
    (key : GoalPlanTask → List ℕ) (tasks : List GoalPlanTask) (graph : Graph) (keep : String → Bool)
    → AreDistinct tasks
    → AreKept tasks graph keep
    → let sub = select (λ t. keep t.file) tasks in
      (block : List GoalPlanTask) × (kahn key sub (present_edges tasks graph) ≡ some block)
      × Perm block sub
      × ((rank : String → ℕ) → IsAcyclic tasks graph rank → IsPlaced tasks graph [] block)
kahn-select key tasks graph keep unique kept =
    kept_lem key tasks graph keep (select (λ t. keep t.file) tasks)
      (AreDistinct-select keep tasks unique) kept (has_file-select keep tasks)

pub stable_order-IsOrder :
    (tasks : List GoalPlanTask) (graph : Graph)
    → AreDistinct tasks
    → IsOrder tasks graph (stable_order tasks graph)
unfolding stable_order
stable_order-IsOrder tasks [] unique = record {
  result = order_by (entry_leb order_key) tasks;
  returned = refl;
  shuffled = order_by-perm (entry_leb order_key) tasks;
  placed = λ rank acyclic. IsPlaced-empty tasks [] (order_by (entry_leb order_key) tasks);
}
stable_order-IsOrder tasks (e ∷ graph) unique =
    let (ordered, returned, shuffled, placed) =
      kept_lem order_key tasks (e ∷ graph) (λ f. true) tasks unique (λ f p k m. refl)
        (λ f. ground arith) in
    record { result = ordered; returned = returned; shuffled = shuffled; placed = placed }
