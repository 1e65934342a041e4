-- ===== src/Prelude/Tables/Keys.antt =====
-- Tables whose rows have a text for a key: reads after writes, and unique keys.
use mathlib.Core.Option
use mathlib.Core.Path.{◌≡◌, refl}
use mathlib.Core.Bool.{Bool}
use mathlib.Core.List.{List, [], ◌∷◌, ◌++◌}
use mathlib.Core.Option.{Option, none, some}
use Prim.Native.String.{String}
use native.Mathlib.Omega.{arith}
use text.Mathlib.Text.{◌==◌}
use text.Mathlib.TextEquality.{eq_iff}
use study_assistance_agent.Prelude.Tests.{if◌then◌else◌, is_some, Option-cases}
use study_assistance_agent.Prelude.Tables.{find_row, select, update_rows, find_row-append}

module _ {ℓ} {A : Type ℓ} (key : A → String) where
  abbrev pub at_key : String → A → Bool
  at_key k x = key x == k

  pub key-find_row :
      (k : String) (xs : List A) (x : A) → find_row (at_key k) xs ≡ some x → key x ≡ k
  unfolding find_row
  key-find_row k [] x h = cc
  key-find_row k (y ∷ ys) x h = ground (arith, eq_iff (key y) k, key-find_row k ys x)

  pub find_row-update_rows :
      (k j : String) (f : A → A) (xs : List A)
      → ((x : A) → key (f x) ≡ key x)
      → find_row (at_key k) (update_rows (at_key j) f xs)
        ≡ (if j == k then Option.map f (find_row (at_key k) xs) else find_row (at_key k) xs)
  unfolding find_row update_rows
  find_row-update_rows k j f [] fixed = ground arith
  find_row-update_rows k j f (x ∷ xs) fixed = ground (
    arith,
    find_row-update_rows k j f xs fixed,
    fixed x,
    eq_iff j k,
    eq_iff (key x) k,
    eq_iff (key x) j,
    eq_iff (key (f x)) k,
  )

  -- `dict[key] = value`, on a dictionary whose values know their keys.
  unfoldable pub put_row : A → List A → List A
  put_row a xs =
      if is_some (find_row (at_key (key a)) xs)
      then update_rows (at_key (key a)) (λ x. a) xs
      else xs ++ a ∷ []

  find_row-replaced :
      (k : String) (a : A) (xs : List A)
      → find_row (at_key k) (update_rows (at_key (key a)) (λ x. a) xs) ≡ (
          if key a == k
          then Option.map (λ x. a) (find_row (at_key k) xs)
          else find_row (at_key k) xs)
  unfolding find_row update_rows
  find_row-replaced k a [] = ground arith
  find_row-replaced k a (x ∷ xs) =
      ground (
        arith,
        find_row-replaced k a xs,
        eq_iff (key a) k,
        eq_iff (key x) k,
        eq_iff (key x) (key a),
      )

  pub find_row-put_row :
      (k : String) (a : A) (xs : List A)
      → find_row (at_key k) (put_row a xs) ≡ (if key a == k then some a else find_row (at_key k) xs)
  unfolding put_row find_row
  find_row-put_row k a xs = ground (
    arith,
    find_row-replaced k a xs,
    find_row-append (at_key k) xs (a ∷ []),
    eq_iff (key a) k,
    Option-cases (find_row (at_key (key a)) xs),
  )

  -- No two rows have one key: a primary key, or a unique column.
  abbrev pub IsKeyed : List A → Type ℓ
  IsKeyed [] = Unit
  IsKeyed (x ∷ xs) = (find_row (at_key (key x)) xs ≡ none) × IsKeyed xs

  pub find_row-select-none :
      (k : String) (p : A → Bool) (xs : List A)
      → find_row (at_key k) xs ≡ none
      → find_row (at_key k) (select p xs) ≡ none
  unfolding find_row select
  find_row-select-none k p [] h = refl
  find_row-select-none k p (x ∷ xs) h = ground (arith, find_row-select-none k p xs)

  pub find_row-select :
      (k : String) (p : A → Bool) (xs : List A) (x : A)
      → IsKeyed xs
      → find_row (at_key k) (select p xs) ≡ some x
      → find_row (at_key k) xs ≡ some x
  unfolding find_row select
  find_row-select k p [] x u h = cc
  find_row-select k p (y ∷ ys) x u h =
      ground (
        arith,
        find_row-select k p ys x u.1,
        eq_iff (key y) k,
        find_row-select-none (key y) p ys u.0,
      )

  pub select-IsKeyed : (p : A → Bool) (xs : List A) → IsKeyed xs → IsKeyed (select p xs)
  unfolding select
  select-IsKeyed p [] u = tt
  select-IsKeyed p (x ∷ xs) u =
      ground (arith, select-IsKeyed p xs u.1, find_row-select-none (key x) p xs u.0)

  pub IsKeyed-append :
      (x : A) (xs : List A)
      → IsKeyed xs
      → find_row (at_key (key x)) xs ≡ none
      → IsKeyed (xs ++ x ∷ [])
  unfolding find_row
  IsKeyed-append x [] u h = ground arith
  IsKeyed-append x (y ∷ ys) u h = ground (
    arith,
    IsKeyed-append x ys u.1,
    find_row-append (at_key (key y)) ys (x ∷ []),
    eq_iff (key x) (key y),
    eq_iff (key y) (key x),
  )

  pub IsKeyed-update_rows :
      (j : String) (f : A → A) (xs : List A)
      → ((x : A) → key (f x) ≡ key x)
      → IsKeyed xs
      → IsKeyed (update_rows (at_key j) f xs)
  unfolding update_rows
  IsKeyed-update_rows j f [] fixed u = tt
  IsKeyed-update_rows j f (x ∷ xs) fixed u = ground (
    arith,
    IsKeyed-update_rows j f xs fixed u.1,
    fixed x,
    find_row-update_rows (key x) j f xs fixed,
  )

  -- A row that any test finds is the row of its key.
  pub find_row-own_key :
      (p : A → Bool) (xs : List A) (x : A)
      → IsKeyed xs
      → find_row p xs ≡ some x
      → find_row (at_key (key x)) xs ≡ some x
  unfolding find_row
  find_row-own_key p [] x u h = cc
  find_row-own_key p (y ∷ ys) x u h =
      ground (arith, find_row-own_key p ys x u.1, eq_iff (key y) (key x))
