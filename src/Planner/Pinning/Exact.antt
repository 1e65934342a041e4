-- ===== src/Planner/Pinning/Exact.antt =====
-- The block of the pinned tasks has exactly the tasks that are wanted.
use mathlib.Core.List.{Memᴰ, Perm}
use mathlib.Core.List.Perm
use mathlib.Core.List.Memᴰ.{head, tail}
use study_assistance_agent.Prelude.{
  String, ◌≡◌, refl, ap, ◌∙◌, inl, inr, true, false, not, some, List, [], ◌∷◌, ◌++◌, map, arith,
  any, select, Bool-cases,
}
use study_assistance_agent.Lifecycle.{GoalPlanTask}
use study_assistance_agent.Planner.Order.{Graph, has_file, has_text}
use study_assistance_agent.Planner.Order.Heap.{AreDistinct}
use study_assistance_agent.Planner.Order.Files.{has_file-select}
use study_assistance_agent.Planner.Order.Shuffles.{has_file-perm, select-perm}
use study_assistance_agent.Planner.Pinning.{
  is_required, pinned_files, pin_edges, pin_required, user_rank, rank_of,
}
use study_assistance_agent.Planner.Pinning.Blocks.{pin_edges-AreKnown, pin_tasks-IsBlock}
use study_assistance_agent.Planner.Pinning.Wanted.{
  Wanted, named, needed, pinned_files-AreWanted, Wanted-pinned_files,
}

none_required :
    (lower : String → String) (required : List String) (ts : List GoalPlanTask) (t : GoalPlanTask)
    → any (is_required lower required) ts ≡ false
    → Memᴰ t ts
    → is_required lower required t ≡ false
none_required lower required [] t h m = elim m [ ]
none_required lower required (u ∷ ts) t h (head e) =
    ap (is_required lower required) e ∙ ground arith
none_required lower required (u ∷ ts) t h (tail m) =
    none_required lower required ts t (ground arith) m

no_topics :
    (lower : String → String) (ts : List GoalPlanTask) → any (is_required lower []) ts ≡ false
unfolding user_rank rank_of
no_topics lower [] = refl
no_topics lower (t ∷ ts) = no_topics lower ts

none-Wanted :
    (lower : String → String) (required : List String) (tasks : List GoalPlanTask) (graph : Graph)
    → any (is_required lower required) tasks ≡ false
    → (f : String) → Wanted lower required tasks (pin_edges tasks graph) f
    → ⊥
none-Wanted lower required tasks graph h f (named t m r g e) =
    let other = none_required lower required tasks t h m in ground (arith, other, r)
none-Wanted lower required tasks graph h f (needed g w p m) =
    none-Wanted lower required tasks graph h g w

-- The block of the pinned tasks comes first. It has the required tasks and the tasks that they want,
-- directly or not, and no others; the other tasks follow. The tasks must have distinct files.
pub pin_required-Wanted :
    (lower : String → String) (tasks : List GoalPlanTask) (required : List String) (graph : Graph)
    → AreDistinct tasks
    → (block : List GoalPlanTask) × (rest : List GoalPlanTask) × (pin_required lower tasks required
          graph
        ≡ some (block ++ rest))
      × Perm (block ++ rest) tasks
      × ((f : String)
          → has_file block f ≡ true
          → Wanted lower (map lower required) tasks (pin_edges tasks graph) f)
      × ((f : String)
          → has_file rest f ≡ true
          → Wanted lower (map lower required) tasks (pin_edges tasks graph) f
          → ⊥)
unfolding pin_required
pin_required-Wanted lower tasks [] graph unique = (
  [],
  tasks,
  refl,
  Perm.rfl,
  (λ f k. cc),
  λ f k w. none-Wanted lower [] tasks graph (no_topics lower tasks) f w,
)
pin_required-Wanted lower tasks (r ∷ rs) graph unique =
    let required = map lower (r ∷ rs) in
    elim (Bool-cases (any (is_required lower required) tasks)) [
      | inr e ↦ (
        [],
        tasks,
        rw (pin_required, e) refl,
        Perm.rfl,
        (λ f k. cc),
        λ f k w. none-Wanted lower required tasks graph e f w,
      )
      | inl e ↦
          let b = pin_tasks-IsBlock lower required tasks graph unique e in
          let edges = pin_edges tasks graph in
          let keep = has_text (pinned_files lower required tasks edges) in
          (
            b.block,
            select (λ t. not (keep t.file)) tasks,
            rw (pin_required, e) b.returned,
            Perm.trans (Perm.append_right _ b.shuffled) (select-perm (λ t. keep t.file) tasks),
            (λ f k. pinned_files-AreWanted lower required tasks edges f (
                ground
                  (arith, has_file-perm b.block _ f b.shuffled, has_file-select keep tasks f))),
            λ f k w.
                let kept =
                  Wanted-pinned_files lower required tasks edges unique
                    (pin_edges-AreKnown tasks graph) f w in
                ground (arith, kept, has_file-select (λ g. not (keep g)) tasks f),
          )
    ]
