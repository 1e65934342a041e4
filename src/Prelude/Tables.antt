-- ===== src/Prelude/Tables.antt =====
-- A database table as the list of its rows, in the order of insertion, and the statements that
-- the stores issue on it.
pub mod Keys
pub mod Deletes
use mathlib.Core.Option
use mathlib.Core.Path.{◌≡◌, refl}
use mathlib.Core.Bool.{Bool, not}
use mathlib.Core.List.{List, [], ◌∷◌, ◌++◌}
use mathlib.Core.Option.{Option, none, some}
use native.Mathlib.Omega.{arith}
use study_assistance_agent.Prelude.Tests.{if◌then◌else◌}

module _ {ℓ} {A : Type ℓ} where
  -- `SELECT ... WHERE p`, read by `fetchone`.
  unfoldable pub find_row : (A → Bool) → List A → Option A
  find_row p [] = none
  find_row p (x ∷ xs) = if p x then some x else find_row p xs

  -- `SELECT ... WHERE p`, read by `fetchall`.
  unfoldable pub select : (A → Bool) → List A → List A
  select p [] = []
  select p (x ∷ xs) = let rest = select p xs in if p x then x ∷ rest else rest

  -- `UPDATE ... SET f WHERE p`.
  unfoldable pub update_rows : (A → Bool) → (A → A) → List A → List A
  update_rows p f [] = []
  update_rows p f (x ∷ xs) = (if p x then f x else x) ∷ update_rows p f xs

  -- `DELETE ... WHERE p`.
  unfoldable pub delete_rows : (A → Bool) → List A → List A
  unfolding select
  delete_rows p = select (λ x. not (p x))

  -- `ORDER BY`: a stable insertion sort by `before`, which is true of two rows in order.
  unfoldable pub insert_row : (A → A → Bool) → A → List A → List A
  insert_row before x [] = x ∷ []
  insert_row before x (y ∷ ys) = if before x y then x ∷ y ∷ ys else y ∷ insert_row before x ys

  unfoldable pub order_by : (A → A → Bool) → List A → List A
  unfolding insert_row
  order_by before [] = []
  order_by before (x ∷ xs) = insert_row before x (order_by before xs)

  pub select-append :
      (p : A → Bool) (xs ys : List A) → select p (xs ++ ys) ≡ select p xs ++ select p ys
  unfolding select
  select-append p [] ys = refl
  select-append p (x ∷ xs) ys = ground (arith, select-append p xs ys)

  pub find_row-append :
      (p : A → Bool) (xs ys : List A)
      → find_row p (xs ++ ys) ≡ elim (find_row p xs) [ none ↦ find_row p ys | some x ↦ some x ]
  unfolding find_row
  find_row-append p [] ys = refl
  find_row-append p (x ∷ xs) ys = ground (arith, find_row-append p xs ys)

  -- An update that leaves the test alone changes the row that the test finds, and no other.
  pub find_row-updated :
      (p q : A → Bool) (f : A → A) (xs : List A)
      → ((x : A) → p (f x) ≡ p x)
      → find_row p (update_rows q f xs) ≡ Option.map (λ x. if q x then f x else x) (find_row p xs)
  unfolding find_row update_rows
  find_row-updated p q f [] fixed = refl
  find_row-updated p q f (x ∷ xs) fixed = ground (arith, find_row-updated p q f xs fixed, fixed x)
