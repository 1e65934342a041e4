-- ===== src/Planner/Order/Popping.antt =====
-- What is known of the task that a round takes, and of the files after it is emitted.
use mathlib.Core.List.{Memᴰ}
use study_assistance_agent.Prelude.{
  ℕ, String, str_eq, eq_iff, ◌≡◌, Bool, true, false, List, [], ◌∷◌, arith, if◌then◌else◌, ◌==◌, All,
}
use study_assistance_agent.Lifecycle.{GoalPlanTask}
use study_assistance_agent.Planner.Order.{
  Graph, prerequisites_of, has_file, has_text, pop_min, waiting, dependents,
}
use study_assistance_agent.Planner.Order.Heap.{
  AreDistinct, has_file-pop_min, All-pop_min, AreDistinct-pop_min,
}
use study_assistance_agent.Planner.Order.Visits.{IsTracked, visits_of-dependents, waiting-emitted}
use study_assistance_agent.Planner.Order.Files.{mem-has_file}

module _ (before : GoalPlanTask → GoalPlanTask → Bool) (tasks : List GoalPlanTask) (edges : Graph)
    (unique : AreDistinct tasks) where
  -- Before a task is emitted: what the other files wait for.
  pub record IsPopped (first : GoalPlanTask) (others : List GoalPlanTask) (indegree : String → ℕ)
      (emitted : List String) : Type 0 where
    pub degrees :
        (f : String)
        → has_file tasks f ≡ true
        → has_text emitted f ≡ false
        → str_eq first.file f ≡ false
        → indegree f ≡ waiting before tasks edges emitted (prerequisites_of edges f)
    pub ready :
        (f : String)
        → has_file tasks f ≡ true
        → has_text emitted f ≡ false
        → str_eq first.file f ≡ false
        → has_file others f ≡ (indegree f == 0)
    pub queued :
        (f : String)
        → has_file others f ≡ true
        → (has_file tasks f ≡ true) × (has_text emitted f ≡ false) × (str_eq first.file f ≡ false)
    pub distinct : AreDistinct others
    pub members : All (λ t. Memᴰ t tasks) others
    pub member : Memᴰ first tasks
    pub fresh : has_text emitted first.file ≡ false

  pub emitted-IsTracked :
      (first : GoalPlanTask) (others ordered : List GoalPlanTask) (indegree : String → ℕ)
      (emitted : List String)
      → IsPopped first others indegree emitted
      → IsTracked before tasks edges (dependents before tasks edges first.file tasks) (record {
        indegree = indegree;
        heap = others;
        ordered = ordered;
        emitted = first.file ∷ emitted;
      })
  emitted-IsTracked first others ordered indegree emitted h =
      let known = mem-has_file first tasks h.member in
      record {
        degrees = λ f k n. ground (
          arith,
          h.degrees f k,
          visits_of-dependents before tasks edges first.file f tasks unique k,
          waiting-emitted before tasks edges first.file emitted (prerequisites_of edges f) known
              h.fresh,
        );
        ready = λ f k n. ground (arith, h.ready f k);
        queued = λ f k. ground (arith, h.queued f k);
        distinct = h.distinct;
        members = h.members;
      }

  -- The smallest entry of the heap.
  pub heap-IsPopped :
      (t : GoalPlanTask) (ts ordered : List GoalPlanTask) (indegree : String → ℕ)
      (emitted : List String)
      → IsTracked before tasks edges []
          (record { indegree = indegree; heap = t ∷ ts; ordered = ordered; emitted = emitted })
      → IsPopped (pop_min before t ts).0 (pop_min before t ts).1 indegree emitted
  heap-IsPopped t ts ordered indegree emitted h =
      let first = (pop_min before t ts).0 in
      let (absent, distinct) = AreDistinct-pop_min before t ts h.distinct in
      let (member, members) = All-pop_min before (λ u. Memᴰ u tasks) t ts h.members in
      record {
        degrees = λ f k n e. ground (arith, h.degrees f k n);
        ready = λ f k n e. ground (arith, h.ready f k n, has_file-pop_min before t ts f);
        queued = λ f k.
            ground (arith, h.queued f, has_file-pop_min before t ts f, eq_iff first.file f, absent);
        distinct = distinct;
        members = members;
        member = member;
        fresh = ground (
          arith,
          h.queued first.file,
          has_file-pop_min before t ts first.file,
          eq_iff first.file first.file,
        );
      }

  -- A task of the heap waits for nothing.
  pub free_heap :
      (t : GoalPlanTask) (ts ordered : List GoalPlanTask) (indegree : String → ℕ)
      (emitted : List String)
      → IsTracked before tasks edges []
          (record { indegree = indegree; heap = t ∷ ts; ordered = ordered; emitted = emitted })
      → let first = (pop_min before t ts).0 in
        waiting before tasks edges emitted (prerequisites_of edges first.file) ≡ 0
  free_heap t ts ordered indegree emitted h =
      let first = (pop_min before t ts).0 in
      ground (
        arith,
        h.queued first.file,
        h.degrees first.file,
        h.ready first.file,
        has_file-pop_min before t ts first.file,
        eq_iff first.file first.file,
      )

  -- The smallest of the tasks that are left, where the heap is empty.
  pub stuck-IsPopped :
      (t : GoalPlanTask) (ts ordered : List GoalPlanTask) (indegree : String → ℕ)
      (emitted : List String)
      → All (λ u. Memᴰ u tasks × (has_text emitted u.file ≡ false)) (t ∷ ts)
      → IsTracked before tasks edges []
          (record { indegree = indegree; heap = []; ordered = ordered; emitted = emitted })
      → let stuck = (pop_min before t ts).0 in
        IsPopped stuck [] (λ f. if str_eq stuck.file f then 0 else indegree f) emitted
  stuck-IsPopped t ts ordered indegree emitted left h =
      let stuck = (pop_min before t ts).0 in
      let (own, others) =
        All-pop_min before (λ u. Memᴰ u tasks × (has_text emitted u.file ≡ false)) t ts left in
      record {
        degrees = λ f k n e. ground (arith, h.degrees f k n);
        ready = λ f k n e. ground (arith, h.ready f k n);
        queued = λ f k. ground arith;
        distinct = tt;
        members = tt;
        member = own.0;
        fresh = own.1;
      }
