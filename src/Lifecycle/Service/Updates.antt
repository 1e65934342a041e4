-- ===== src/Lifecycle/Service/Updates.antt =====
-- What holds of every row of a table: reading a row, and replacing one.
use study_assistance_agent.Prelude.{
  String, ◌≡◌, sym, subst, ap, ◌∙◌, inl, inr, Bool, true, false, none, some, List, [], ◌∷◌, arith,
  if◌then◌else◌, All, All-append, find_row, update_rows, Bool-cases, is_some,
}
use study_assistance_agent.Prelude.Tables.Keys.{at_key, put_row}

update_one {ℓ κ} :
    {A : Type ℓ} (P : A → Type κ) (b : Bool) (a x : A) → P a → P x → P (if b then a else x)
update_one P true a x h k = h
update_one P false a x h k = k

none-some {ℓ} : {A : Type ℓ} (a : A) → none ≡ some a → ⊥
none-some a h = ground arith

same_some {ℓ} : {A : Type ℓ} (a b : A) → some a ≡ some b → a ≡ b
same_some a b h = cc h

All-update {ℓ κ} :
    {A : Type ℓ} (P : A → Type κ) (p : A → Bool) (a : A) (xs : List A)
    → P a
    → All P xs
    → All P (update_rows p (λ x. a) xs)
unfolding update_rows
All-update P p a [] h hs = tt
All-update P p a (x ∷ xs) h hs = (update_one P (p x) a x h hs.0, All-update P p a xs h hs.1)

pub All-put {ℓ κ} :
    {A : Type ℓ} (P : A → Type κ) (key : A → String) (a : A) (xs : List A)
    → P a
    → All P xs
    → All P (put_row key a xs)
unfolding put_row
All-put P key a xs h hs = elim (Bool-cases (is_some (find_row (at_key key (key a)) xs))) [
  | inl f ↦ rw (put_row, f) (All-update P (at_key key (key a)) a xs h hs)
  | inr f ↦ rw (put_row, f) (All-append P xs (a ∷ []) hs (h, tt))
]

pub All-found {ℓ κ} :
    {A : Type ℓ} (P : A → Type κ) (p : A → Bool) (xs : List A) (a : A)
    → All P xs
    → find_row p xs ≡ some a
    → P a
unfolding find_row
All-found P p [] a hs f = absurd (none-some a f)
All-found P p (x ∷ xs) a hs f = elim (Bool-cases (p x)) [
  | inl h ↦ subst P (same_some x a (sym (ap (λ b. if b then some x else find_row p xs) h) ∙ f)) hs.0
  | inr h ↦ All-found P p xs a hs.1 (sym (ap (λ b. if b then some x else find_row p xs) h) ∙ f)
]
