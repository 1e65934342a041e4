-- ===== src/Prelude/Tables/Deletes.antt =====
-- Reads of a table after a deletion, and the test whether a key has a row of some kind.
use mathlib.Core.Path.{◌≡◌, refl}
use mathlib.Core.Bool.{Bool, true, false, ◌&&◌}
use mathlib.Core.List.{List, [], ◌∷◌, Memᴰ}
use mathlib.Core.List.Memᴰ.{head, tail}
use mathlib.Core.Logic.{◌⊎◌, inl, inr}
use mathlib.Core.Option.{none, some}
use Prim.Native.String.{String}
use native.Mathlib.Omega.{arith}
use text.Mathlib.Text.{◌==◌}
use text.Mathlib.TextEquality.{eq_iff}
use study_assistance_agent.Prelude.Tests.{if◌then◌else◌, Bool-cases}
use study_assistance_agent.Prelude.Lists.{any}
use study_assistance_agent.Prelude.Tables.{find_row, select, delete_rows, insert_row, order_by}
use study_assistance_agent.Prelude.Tables.Keys.{at_key, IsKeyed}

-- Where the rows that are read are all deleted, or all kept.
pub select-delete_rows {ℓ} :
    {A : Type ℓ} (p q : A → Bool) (b : Bool) (xs : List A)
    → ((x : A) → p x ≡ true → q x ≡ b)
    → select p (delete_rows q xs) ≡ (if b then [] else select p xs)
unfolding select delete_rows
select-delete_rows p q b [] h = ground arith
select-delete_rows p q b (x ∷ xs) h = ground (arith, select-delete_rows p q b xs h, h x)

module _ {ℓ} {A : Type ℓ} (key : A → String) (q : A → Bool) (k : String) where
  abbrev pub has_kind : List A → Bool
  has_kind = any (λ x. q x && at_key key k x)

  pub has_kind-none : (xs : List A) → find_row (at_key key k) xs ≡ none → has_kind xs ≡ false
  unfolding find_row
  has_kind-none [] h = refl
  has_kind-none (x ∷ xs) h = ground (arith, has_kind-none xs)

  pub has_kind-some :
      (xs : List A) (x : A)
      → IsKeyed key xs
      → find_row (at_key key k) xs ≡ some x
      → has_kind xs ≡ q x
  unfolding find_row
  has_kind-some [] x u h = cc
  has_kind-some (y ∷ ys) x u h =
      ground (arith, has_kind-some ys x u.1, has_kind-none ys, eq_iff (key y) k)

  -- A row that is found has no kind that no row has.
  pub any-find_row :
      (xs : List A) (x : A) → find_row (at_key key k) xs ≡ some x → any q xs ≡ false → q x ≡ false
  unfolding find_row
  any-find_row [] x h n = cc
  any-find_row (y ∷ ys) x h n = ground (arith, any-find_row ys x)

  -- What is found among the kept rows is kept.
  pub kept-find_row :
      (xs : List A) (x : A) → find_row (at_key key k) (select q xs) ≡ some x → q x ≡ true
  unfolding find_row select
  kept-find_row [] x h = cc
  kept-find_row (y ∷ ys) x h = ground (arith, kept-find_row ys x)

  -- A row that is kept is still found.
  pub find_row-kept :
      (xs : List A) (x : A)
      → IsKeyed key xs
      → find_row (at_key key k) xs ≡ some x
      → q x ≡ true
      → find_row (at_key key k) (select q xs) ≡ some x
  unfolding find_row select
  find_row-kept [] x u h e = cc
  find_row-kept (y ∷ ys) x u h e = ground (arith, find_row-kept ys x u.1)

-- Deleting one key leaves the rows of the others.
pub find_row-delete_key {ℓ} :
    {A : Type ℓ} (key : A → String) (k j : String) (xs : List A)
    → find_row (at_key key k) (delete_rows (at_key key j) xs)
      ≡ (if j == k then none else find_row (at_key key k) xs)
unfolding find_row delete_rows select
find_row-delete_key key k j [] = ground arith
find_row-delete_key key k j (x ∷ xs) =
    ground (arith, find_row-delete_key key k j xs, eq_iff j k, eq_iff (key x) k, eq_iff (key x) j)

-- A deletion of other rows does not change whether there is a row of some kind.
pub any-delete_rows {ℓ} :
    {A : Type ℓ} (q p : A → Bool) (xs : List A)
    → ((x : A) → q x ≡ true → p x ≡ false)
    → any q (delete_rows p xs) ≡ any q xs
unfolding delete_rows select
any-delete_rows q p [] h = refl
any-delete_rows q p (x ∷ xs) h = ground (arith, any-delete_rows q p xs h, h x)

-- A deletion makes no new rows.
pub any-delete_rows-false {ℓ} :
    {A : Type ℓ} (q p : A → Bool) (xs : List A)
    → any q xs ≡ false
    → any q (delete_rows p xs) ≡ false
unfolding delete_rows select
any-delete_rows-false q p [] h = refl
any-delete_rows-false q p (x ∷ xs) h = ground (arith, any-delete_rows-false q p xs)

pub any-congr {ℓ} :
    {A : Type ℓ} (p q : A → Bool) (xs : List A) → ((x : A) → p x ≡ q x) → any p xs ≡ any q xs
any-congr p q [] h = refl
any-congr p q (x ∷ xs) h = ground (arith, any-congr p q xs h, h x)

mem-insert_row {ℓ} :
    {A : Type ℓ} (b : A → A → Bool) (a x : A) (xs : List A)
    → (a ≡ x) ⊎ Memᴰ a xs
    → Memᴰ a (insert_row b x xs)
unfolding insert_row
mem-insert_row b a x [] (inl e) = head e
mem-insert_row b a x [] (inr m) = elim m [ ]
mem-insert_row b a x (y ∷ ys) (inl e) = elim (Bool-cases (b x y)) [
  | inl t ↦ rw t (head e)
  | inr t ↦ rw t (tail (mem-insert_row b a x ys (inl e)))
]
mem-insert_row b a x (y ∷ ys) (inr (head e)) = elim (Bool-cases (b x y)) [
  | inl t ↦ rw t (tail (head e))
  | inr t ↦ rw t (head e)
]
mem-insert_row b a x (y ∷ ys) (inr (tail m)) = elim (Bool-cases (b x y)) [
  | inl t ↦ rw t (tail (tail m))
  | inr t ↦ rw t (tail (mem-insert_row b a x ys (inr m)))
]

-- Sorting loses no row.
pub mem-order_by {ℓ} :
    {A : Type ℓ} (b : A → A → Bool) (a : A) (xs : List A) → Memᴰ a xs → Memᴰ a (order_by b xs)
unfolding order_by
mem-order_by b a [] m = elim m [ ]
mem-order_by b a (x ∷ xs) (head e) = mem-insert_row b a x (order_by b xs) (inl e)
mem-order_by b a (x ∷ xs) (tail m) =
    mem-insert_row b a x (order_by b xs) (inr (mem-order_by b a xs m))
