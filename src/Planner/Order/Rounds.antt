-- ===== src/Planner/Order/Rounds.antt =====
-- One round of `_kahn` emits one task, and all rounds together every task once.
use mathlib.Core.List.{Memᴰ}
use study_assistance_agent.Prelude.{
  ℕ, String, str_eq, ◌≡◌, refl, subst, ◌⊎◌, inl, inr, Bool, true, false, not, some, List, [], ◌∷◌,
  ◌++◌, arith, if◌then◌else◌, ◌==◌, select, All,
}
use study_assistance_agent.Lifecycle.{GoalPlanTask}
use study_assistance_agent.Planner.Order.{
  Graph, prerequisites_of, has_file, has_text, pop_min, Sorting, waiting, dependents, pending,
  release, visit_all, emit, round, start,
}
use study_assistance_agent.Planner.Order.Heap.{AreDistinct}
use study_assistance_agent.Planner.Order.Visits.{
  IsTracked, visit_all-IsTracked, visit_all_emitted, All-dependents,
}
use study_assistance_agent.Planner.Order.Files.{
  has_file-select, AreDistinct-select, All-select, All-mem, mem-has_file,
}
use study_assistance_agent.Planner.Order.Popping.{
  IsPopped, emitted-IsTracked, heap-IsPopped, free_heap, stuck-IsPopped,
}

module _ (before : GoalPlanTask → GoalPlanTask → Bool) (tasks : List GoalPlanTask) (edges : Graph)
    (unique : AreDistinct tasks) where
  -- A round has emitted one more task, which waited for nothing unless the heap was empty.
  pub record IsRound (s : Sorting) : Type 0 where
    pub next : Sorting
    pub returned : round before tasks edges s ≡ some next
    pub first : GoalPlanTask
    pub member : Memᴰ first tasks
    pub fresh : has_text s.emitted first.file ≡ false
    pub emitted : next.emitted ≡ first.file ∷ s.emitted
    pub ordered : next.ordered ≡ s.ordered ++ first ∷ []
    pub tracked : IsTracked before tasks edges [] next
    pub free :
        (s.heap ≡ [])
        ⊎ (waiting before tasks edges s.emitted (prerequisites_of edges first.file) ≡ 0)

  visited_round :
      (s : Sorting) (first : GoalPlanTask) (others : List GoalPlanTask) (indegree : String → ℕ)
      → IsPopped before tasks edges unique first others indegree s.emitted
      → let after =
          visit_all before tasks edges (dependents before tasks edges first.file tasks) (record {
            indegree = indegree;
            heap = others;
            ordered = s.ordered ++ first ∷ [];
            emitted = first.file ∷ s.emitted;
          }) in
        (round before tasks edges s ≡ some after)
        → (s.heap ≡ [])
          ⊎ (waiting before tasks edges s.emitted (prerequisites_of edges first.file) ≡ 0)
        → IsRound s
  visited_round s first others indegree h returned free =
      let todo = dependents before tasks edges first.file tasks in
      let popped : Sorting = record {
        indegree = indegree;
        heap = others;
        ordered = s.ordered ++ first ∷ [];
        emitted = first.file ∷ s.emitted;
      } in
      let (emitted, ordered) = visit_all_emitted before tasks edges todo popped in
      record {
        next = visit_all before tasks edges todo popped;
        returned = returned;
        first = first;
        member = h.member;
        fresh = h.fresh;
        emitted = emitted;
        ordered = ordered;
        tracked =
            visit_all-IsTracked before tasks edges todo popped
              (All-dependents before tasks edges
                (λ d. Memᴰ d tasks × (has_file tasks d.file ≡ true)) first.file tasks
                (All-mem _ tasks (λ d m. (m, mem-has_file d tasks m))))
              (emitted-IsTracked before tasks edges unique first others (s.ordered ++ first ∷ [])
                indegree s.emitted h);
        free = free;
      }

  pending_members :
      (emitted : List String) (ts : List GoalPlanTask)
      → All (λ u. Memᴰ u tasks) ts
      → All
          (λ u. Memᴰ u tasks × (has_text emitted u.file ≡ false))
          (select (λ t. not (has_text emitted t.file)) ts)
  unfolding select
  pending_members emitted [] h = tt
  pending_members emitted (t ∷ ts) h = let rest = pending_members emitted ts h.1 in ground arith

  IsRound-at :
      (heap ordered : List GoalPlanTask) (indegree : String → ℕ) (emitted : List String)
      (t : GoalPlanTask) (ts : List GoalPlanTask)
      → let s : Sorting = record {
        indegree = indegree;
        heap = heap;
        ordered = ordered;
        emitted = emitted;
      } in
        IsTracked before tasks edges [] s → pending before tasks edges emitted ≡ t ∷ ts → IsRound s
  unfolding round release emit pop_min
  IsRound-at (x ∷ xs) ordered indegree emitted t ts h left =
      visited_round _ (pop_min before x xs).0 (pop_min before x xs).1 indegree
        (heap-IsPopped before tasks edges unique x xs ordered indegree emitted h) refl
        (inr (free_heap before tasks edges unique x xs ordered indegree emitted h))
  IsRound-at [] ordered indegree emitted t ts h left =
      let stuck = (pop_min before t ts).0 in
      let members =
        subst (All (λ u. Memᴰ u tasks × (has_text emitted u.file ≡ false))) left
          (pending_members emitted tasks (All-mem _ tasks (λ u m. m))) in
      visited_round _ stuck [] (λ f. if str_eq stuck.file f then 0 else indegree f)
        (stuck-IsPopped before tasks edges unique t ts ordered indegree emitted members h)
        (rw (left, round, release) refl) (inl refl)

  pub round_lem :
      (s : Sorting) (t : GoalPlanTask) (ts : List GoalPlanTask)
      → IsTracked before tasks edges [] s
      → pending before tasks edges s.emitted ≡ t ∷ ts
      → IsRound s
  round_lem s t ts h left = IsRound-at s.heap s.ordered s.indegree s.emitted t ts h left

  pub start-IsTracked : IsTracked before tasks edges [] (start before tasks edges)
  unfolding start
  start-IsTracked =
      let has_free = λ (f : String).
        has_file-select (λ g. waiting before tasks edges [] (prerequisites_of edges g) == 0) tasks
          f in
      record {
        degrees = λ f k n. omega arith;
        ready = λ f k n. ground (arith, has_free f);
        queued = λ f k. ground (arith, has_free f);
        distinct =
            AreDistinct-select (λ g. waiting before tasks edges [] (prerequisites_of edges g) == 0)
              tasks unique;
        members = All-select (λ t. Memᴰ t tasks) _ tasks (All-mem _ tasks (λ u m. m));
      }
