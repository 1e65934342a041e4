-- ===== src/Planner/Order/Visits.antt =====
-- What the loop of `_kahn` keeps: the numbers of prerequisites that are left, and what is in the heap.
use mathlib.Core.List.{Memᴰ}
use study_assistance_agent.Prelude.{
  ℕ, ◌+◌, String, str_eq, eq_iff, ◌≡◌, refl, inl, inr, Bool, true, false, List, [], ◌∷◌, ◌++◌, ◌∙◌,
  arith, if◌then◌else◌, ◌==◌, count_if, All, All-append, Bool-cases,
}
use study_assistance_agent.Lifecycle.{GoalPlanTask}
use study_assistance_agent.Planner.Order.{
  Graph, prerequisites_of, has_file, has_text, Sorting, waiting, visit, visit_all, mentions,
  dependents,
}
use study_assistance_agent.Planner.Order.Heap.{AreDistinct}

-- How often a file is still to be visited.
abbrev pub visits_of : String → List GoalPlanTask → ℕ
visits_of file todo = count_if (λ d. str_eq d.file file) todo

module _ (before : GoalPlanTask → GoalPlanTask → Bool) (tasks : List GoalPlanTask)
    (edges : Graph) where
  -- A file that is not emitted waits for the prerequisites that are not emitted and for the visits to
  -- come, and is in the heap as soon as it waits for none.
  pub record IsTracked (todo : List GoalPlanTask) (s : Sorting) : Type 0 where
    pub degrees :
        (f : String)
        → has_file tasks f ≡ true
        → has_text s.emitted f ≡ false
        → s.indegree f
          ≡ waiting before tasks edges s.emitted (prerequisites_of edges f) + visits_of f todo
    pub ready :
        (f : String)
        → has_file tasks f ≡ true
        → has_text s.emitted f ≡ false
        → has_file s.heap f ≡ (s.indegree f == 0)
    pub queued :
        (f : String)
        → has_file s.heap f ≡ true
        → (has_file tasks f ≡ true) × (has_text s.emitted f ≡ false)
    pub distinct : AreDistinct s.heap
    pub members : All (λ t. Memᴰ t tasks) s.heap

  module _ (d : GoalPlanTask) (todo : List GoalPlanTask) (s : Sorting)
      (h : IsTracked (d ∷ todo) s) where
    visited_emitted : has_text s.emitted d.file ≡ true → IsTracked todo s
    visited_emitted e = record {
      degrees = λ f k n. ground (arith, h.degrees f k n, eq_iff d.file f);
      ready = h.ready;
      queued = h.queued;
      distinct = h.distinct;
      members = h.members;
    }

    module _ (member : Memᴰ d tasks) (known : has_file tasks d.file ≡ true)
        (e : has_text s.emitted d.file ≡ false) where
      visit-IsTracked_new : IsTracked todo (visit before tasks edges d s)
      unfolding visit
      visit-IsTracked_new = rw e (record {
        degrees = λ f k n. ground (arith, h.degrees f k n, eq_iff d.file f);
        ready = λ f k n. ground (arith, h.degrees f k n, h.ready f k n, eq_iff d.file f);
        queued = λ f k. ground (arith, h.queued f, eq_iff d.file f);
        distinct = ground (
          arith,
          eq_iff d.file d.file,
          h.distinct,
          h.degrees d.file known e,
          h.ready d.file known e,
        );
        members = ground (arith, h.members, member);
      })

  pub visit-IsTracked :
      (d : GoalPlanTask) (todo : List GoalPlanTask) (s : Sorting)
      → Memᴰ d tasks
      → has_file tasks d.file ≡ true
      → IsTracked (d ∷ todo) s
      → IsTracked todo (visit before tasks edges d s)
  unfolding visit
  visit-IsTracked d todo s member known h = elim (Bool-cases (has_text s.emitted d.file)) [
    | inl e ↦ rw (e, visit) (visited_emitted d todo s h e)
    | inr e ↦ visit-IsTracked_new d todo s h member known e
  ]

  pub visit_all-IsTracked :
      (ds : List GoalPlanTask) (s : Sorting)
      → All (λ d. Memᴰ d tasks × (has_file tasks d.file ≡ true)) ds
      → IsTracked ds s
      → IsTracked [] (visit_all before tasks edges ds s)
  unfolding visit_all
  visit_all-IsTracked [] s members h = h
  visit_all-IsTracked (d ∷ ds) s members h =
      visit_all-IsTracked ds (visit before tasks edges d s) members.1
        (visit-IsTracked d ds s members.0.0 members.0.1 h)

  visit_emitted :
      (d : GoalPlanTask) (s : Sorting)
      → ((visit before tasks edges d s).emitted ≡ s.emitted)
        × ((visit before tasks edges d s).ordered ≡ s.ordered)
  unfolding visit
  visit_emitted d s = ground arith

  pub visit_all_emitted :
      (ds : List GoalPlanTask) (s : Sorting)
      → ((visit_all before tasks edges ds s).emitted ≡ s.emitted)
        × ((visit_all before tasks edges ds s).ordered ≡ s.ordered)
  unfolding visit_all
  visit_all_emitted [] s = (refl, refl)
  visit_all_emitted (d ∷ ds) s =
      let (emitted, ordered) = visit_all_emitted ds (visit before tasks edges d s) in
      let (emitted_one, ordered_one) = visit_emitted d s in
      (emitted ∙ emitted_one, ordered ∙ ordered_one)

-- How often a text is mentioned.
abbrev pub mentions_of : String → List String → ℕ
mentions_of p ps = count_if (λ q. str_eq q p) ps

count_if-append {ℓ} :
    {A : Type ℓ} (p : A → Bool) (xs ys : List A)
    → count_if p (xs ++ ys) ≡ count_if p xs + count_if p ys
count_if-append p [] ys = omega arith
count_if-append p (x ∷ xs) ys = ground (arith, count_if-append p xs ys)

module _ (before : GoalPlanTask → GoalPlanTask → Bool) (tasks : List GoalPlanTask)
    (edges : Graph) where
  visits_of-mentions :
      (p f : String) (t : GoalPlanTask) (ps : List String)
      → visits_of f (mentions before tasks edges p t ps)
        ≡ (if str_eq t.file f then mentions_of p ps else 0)
  unfolding mentions
  visits_of-mentions p f t [] = ground arith
  visits_of-mentions p f t (q ∷ ps) = ground (arith, visits_of-mentions p f t ps)

  visits_of-absent :
      (p f : String) (ts : List GoalPlanTask)
      → has_file ts f ≡ false
      → visits_of f (dependents before tasks edges p ts) ≡ 0
  unfolding dependents
  visits_of-absent p f [] n = refl
  visits_of-absent p f (t ∷ ts) n =
      let ps = prerequisites_of edges t.file in
      ground (
        arith,
        visits_of-absent p f ts,
        visits_of-mentions p f t ps,
        count_if-append (λ (d : GoalPlanTask). str_eq d.file f) (mentions before tasks edges p t ps)
            (dependents before tasks edges p ts),
      )

  pub visits_of-dependents :
      (p f : String) (ts : List GoalPlanTask)
      → AreDistinct ts
      → has_file ts f ≡ true
      → visits_of f (dependents before tasks edges p ts) ≡ mentions_of p (prerequisites_of edges f)
  unfolding dependents
  visits_of-dependents p f [] u h = ground arith
  visits_of-dependents p f (t ∷ ts) u h =
      let ps = prerequisites_of edges t.file in
      ground (
        arith,
        visits_of-dependents p f ts u.1,
        visits_of-absent p f ts,
        eq_iff t.file f,
        visits_of-mentions p f t ps,
        count_if-append (λ (d : GoalPlanTask). str_eq d.file f) (mentions before tasks edges p t ps)
            (dependents before tasks edges p ts),
      )

  All-mentions {κ} :
      (P : GoalPlanTask → Type κ) (p : String) (t : GoalPlanTask) (ps : List String)
      → P t
      → All P (mentions before tasks edges p t ps)
  unfolding mentions
  All-mentions P p t [] h = tt
  All-mentions P p t (q ∷ ps) h = let rest = All-mentions P p t ps h in ground arith

  pub All-dependents {κ} :
      (P : GoalPlanTask → Type κ) (p : String) (ts : List GoalPlanTask)
      → All P ts
      → All P (dependents before tasks edges p ts)
  unfolding dependents
  All-dependents P p [] h = tt
  All-dependents P p (t ∷ ts) h =
      All-append P (mentions before tasks edges p t (prerequisites_of edges t.file))
        (dependents before tasks edges p ts)
        (All-mentions P p t (prerequisites_of edges t.file) h.0) (All-dependents P p ts h.1)

  -- What waits for a file that is emitted now waits for the visits that its mentions bring.
  pub waiting-emitted :
      (p : String) (emitted ps : List String)
      → has_file tasks p ≡ true
      → has_text emitted p ≡ false
      → waiting before tasks edges emitted ps
        ≡ waiting before tasks edges (p ∷ emitted) ps + mentions_of p ps
  waiting-emitted p emitted [] k n = omega arith
  waiting-emitted p emitted (q ∷ ps) k n =
      ground (arith, waiting-emitted p emitted ps k n, eq_iff q p, eq_iff p q)
