-- ===== src/Planner/Pinning/Required.antt =====
-- The files of the required tasks.
use mathlib.Core.List.{Memᴰ}
use mathlib.Core.List.Memᴰ.{head, tail}
use study_assistance_agent.Prelude.{
  String, eq_iff, ◌≡◌, refl, sym, subst, false, ◌||◌, List, [], ◌∷◌, arith, if◌then◌else◌,
}
use study_assistance_agent.Lifecycle.{GoalPlanTask}
use study_assistance_agent.Planner.Order.{has_file, has_text}
use study_assistance_agent.Planner.Order.Heap.{AreDistinct}
use study_assistance_agent.Planner.Order.Files.{mem-has_file}
use study_assistance_agent.Planner.Pinning.{is_required, required_files}

module _ (lower : String → String) (required : List String) where
  required_files-absent :
      (f : String) (stack : List String) (ts : List GoalPlanTask)
      → has_file ts f ≡ false
      → has_text (required_files lower required stack ts) f ≡ has_text stack f
  unfolding required_files
  required_files-absent f stack [] h = refl
  required_files-absent f stack (t ∷ ts) h =
      let rest =
        required_files-absent f (if is_required lower required t then t.file ∷ stack else stack) ts
          (ground arith) in
      ground (arith, rest)

  pub required_files-is_required :
      (t : GoalPlanTask) (stack : List String) (ts : List GoalPlanTask)
      → AreDistinct ts
      → Memᴰ t ts
      → has_text (required_files lower required stack ts) t.file
        ≡ (has_text stack t.file || is_required lower required t)
  unfolding required_files
  required_files-is_required t stack [] u m = elim m [ ]
  required_files-is_required t stack (x ∷ ts) u (head e) =
      subst
        (λ y.
          has_text (required_files lower required stack (y ∷ ts)) t.file
          ≡ (has_text stack t.file || is_required lower required t))
        e
        (let rest =
            required_files-absent t.file
              (if is_required lower required t then t.file ∷ stack else stack) ts
              (subst (λ y. has_file ts y.file ≡ false) (sym e) u.0) in
          ground (arith, rest, eq_iff t.file t.file))
  required_files-is_required t stack (x ∷ ts) u (tail m) =
      let rest =
        required_files-is_required t
          (if is_required lower required x then x.file ∷ stack else stack) ts u.1 m in
      let known = mem-has_file t ts m in ground (arith, rest, eq_iff x.file t.file)
