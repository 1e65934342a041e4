-- ===== src/Planner/Order/Shuffles.antt =====
-- Permutations of tasks: what does not depend on the order of a list.
use mathlib.Core.Logic.{∥∥₁_elim}
use mathlib.Core.Bool.{Bool-set}
use mathlib.Core.List.{Permᴰ, Perm, perm_middle}
use mathlib.Core.List.Perm
use study_assistance_agent.Prelude.{
  String, str_eq, eq_iff, ◌≡◌, refl, ap, ◌∙◌, inl, inr, Bool, not, List, [], ◌∷◌, ◌++◌, arith, any,
  select, insert_row, order_by, Bool-cases,
}
use study_assistance_agent.Lifecycle.{GoalPlanTask}
use study_assistance_agent.Planner.Order.{has_file}
use study_assistance_agent.Planner.Order.Heap.{AreApart}

module _ (key : GoalPlanTask → String) where
  abbrev has_key : List GoalPlanTask → String → Bool
  has_key ts k = any (λ t. str_eq (key t) k) ts

  has_key-Permᴰ :
      {xs ys : List GoalPlanTask} (k : String) → Permᴰ xs ys → has_key xs k ≡ has_key ys k
  has_key-Permᴰ k Permᴰ.nil = refl
  has_key-Permᴰ k (Permᴰ.cons e p) = ground (arith, has_key-Permᴰ k p, ap (λ t. str_eq (key t) k) e)
  has_key-Permᴰ k (Permᴰ.swap e e') =
      ground (arith, ap (λ t. str_eq (key t) k) e, ap (λ t. str_eq (key t) k) e')
  has_key-Permᴰ k (Permᴰ.trans p q) = has_key-Permᴰ k p ∙ has_key-Permᴰ k q

  pub has_key-perm :
      (xs ys : List GoalPlanTask) (k : String) → Perm xs ys → has_key xs k ≡ has_key ys k
  has_key-perm xs ys k p = ∥∥₁_elim p (Bool-set _ _) (has_key-Permᴰ k)

  AreApart-Permᴰ : {xs ys : List GoalPlanTask} → Permᴰ xs ys → AreApart key xs → AreApart key ys
  AreApart-Permᴰ Permᴰ.nil u = tt
  AreApart-Permᴰ (Permᴰ.cons {b = b} e p) u =
      (ground (arith, u.0, has_key-Permᴰ (key b) p, ap key e), AreApart-Permᴰ p u.1)
  AreApart-Permᴰ (Permᴰ.swap {a' = a'} {b' = b'} {l = l} e e') u =
      ground (arith, u, ap key e, ap key e', eq_iff (key a') (key b'), eq_iff (key b') (key a'))
  AreApart-Permᴰ (Permᴰ.trans p q) u = AreApart-Permᴰ q (AreApart-Permᴰ p u)

  AreApart-prop : (ts : List GoalPlanTask) → IsProp (AreApart key ts)
  AreApart-prop [] = hlevel
  AreApart-prop (t ∷ ts) = let rest = AreApart-prop ts in hlevel rest

  pub AreApart-perm : (xs ys : List GoalPlanTask) → Perm xs ys → AreApart key xs → AreApart key ys
  AreApart-perm xs ys p u = ∥∥₁_elim p (AreApart-prop ys) (λ d. AreApart-Permᴰ d u)

pub has_file-perm :
    (xs ys : List GoalPlanTask) (f : String) → Perm xs ys → has_file xs f ≡ has_file ys f
has_file-perm xs ys f p = has_key-perm (λ t. t.file) xs ys f p

module _ {ℓ} {A : Type ℓ} where
  insert_row-perm :
      (before : A → A → Bool) (x : A) (xs : List A) → Perm (insert_row before x xs) (x ∷ xs)
  unfolding insert_row
  insert_row-perm before x [] = Perm.rfl
  insert_row-perm before x (y ∷ ys) = elim (Bool-cases (before x y)) [
    | inl e ↦ rw e Perm.rfl
    | inr e ↦ rw e (Perm.trans (Perm.cons y (insert_row-perm before x ys)) (Perm.swap x y ys))
  ]

  pub order_by-perm : (before : A → A → Bool) (xs : List A) → Perm (order_by before xs) xs
  unfolding order_by
  order_by-perm before [] = Perm.rfl
  order_by-perm before (x ∷ xs) =
      Perm.trans (insert_row-perm before x (order_by before xs))
        (Perm.cons x (order_by-perm before xs))

  -- What passes a test and what does not.
  pub select-perm :
      (p : A → Bool) (xs : List A) → Perm (select p xs ++ select (λ x. not (p x)) xs) xs
  unfolding select
  select-perm p [] = Perm.rfl
  select-perm p (x ∷ xs) = elim (Bool-cases (p x)) [
    | inl e ↦ rw e (Perm.cons x (select-perm p xs))
    | inr e ↦ rw e (Perm.trans (perm_middle (select p xs) _) (Perm.cons x (select-perm p xs)))
  ]
