-- ===== src/Runner/Ledger/Queues.antt =====
-- What `pending_effects` and `unfinished_effects` return: each effect of the kind once, as it is.
use mathlib.Core.List.{Memᴰ}
use mathlib.Core.List.Memᴰ.{head, tail}
use study_assistance_agent.Prelude.{
  String, str_eq, eq_iff, ◌≡◌, refl, ap, inl, inr, Bool, true, false, none, some, List, [], ◌∷◌,
  map, arith, All, Bool-cases, find_row, select, insert_row, order_by,
}
use study_assistance_agent.Prelude.Tables.Keys.{at_key, IsKeyed, select-IsKeyed}
use study_assistance_agent.Prelude.Tables.Deletes.{mem-order_by}
use study_assistance_agent.Runner.Ledger.{
  Ledger, EffectRow, EffectRecord, find_effect, effects_where,
}
use study_assistance_agent.Runner.Ledger.Reads.{id_of}

module _ {ℓ} {A : Type ℓ} (b : A → A → Bool) where
  find_row-insert_row :
      (p : A → Bool) (x : A) (xs : List A)
      → p x ≡ false
      → find_row p xs ≡ none
      → find_row p (insert_row b x xs) ≡ none
  unfolding find_row insert_row
  find_row-insert_row p x [] h n = ground arith
  find_row-insert_row p x (y ∷ ys) h n = ground (arith, find_row-insert_row p x ys h)

  find_row-order_by :
      (p : A → Bool) (xs : List A) → find_row p xs ≡ none → find_row p (order_by b xs) ≡ none
  unfolding find_row order_by
  find_row-order_by p [] n = refl
  find_row-order_by p (x ∷ xs) n =
      ground (arith, find_row-order_by p xs, find_row-insert_row p x (order_by b xs))

  module _ (key : A → String) where
    insert_row-IsKeyed :
        (x : A) (xs : List A)
        → find_row (at_key key (key x)) xs ≡ none
        → IsKeyed key xs
        → IsKeyed key (insert_row b x xs)
    unfolding insert_row find_row
    insert_row-IsKeyed x [] n k = (refl, tt)
    insert_row-IsKeyed x (y ∷ ys) n k = ground (
      arith,
      insert_row-IsKeyed x ys,
      find_row-insert_row (at_key key (key y)) x ys,
      eq_iff (key x) (key y),
      eq_iff (key y) (key x),
    )

    order_by-IsKeyed : (xs : List A) → IsKeyed key xs → IsKeyed key (order_by b xs)
    unfolding order_by
    order_by-IsKeyed [] k = tt
    order_by-IsKeyed (x ∷ xs) k =
        insert_row-IsKeyed x (order_by b xs) (find_row-order_by (at_key key (key x)) xs k.0)
          (order_by-IsKeyed xs k.1)

  insert_row-All :
      (P : A → Type ℓ) (x : A) (xs : List A) → P x → All P xs → All P (insert_row b x xs)
  unfolding insert_row
  insert_row-All P x [] h a = (h, tt)
  insert_row-All P x (y ∷ ys) h a = elim (Bool-cases (b x y)) [
    | inl e ↦ rw e (h, a)
    | inr e ↦ rw e (a.0, insert_row-All P x ys h a.1)
  ]

  order_by-All : (P : A → Type ℓ) (xs : List A) → All P xs → All P (order_by b xs)
  unfolding order_by
  order_by-All P [] a = tt
  order_by-All P (x ∷ xs) a = insert_row-All P x (order_by b xs) a.0 (order_by-All P xs a.1)

abbrev pub record_id : EffectRecord → String
record_id e = e.effect_id

abbrev effect_of : EffectRow → EffectRecord
effect_of row = row.effect

map-none :
    (k : String) (xs : List EffectRow)
    → find_row (at_key id_of k) xs ≡ none
    → find_row (at_key record_id k) (map effect_of xs) ≡ none
unfolding find_row
map-none k [] n = refl
map-none k (x ∷ xs) n = ground (arith, map-none k xs)

map-IsKeyed : (rows : List EffectRow) → IsKeyed id_of rows → IsKeyed record_id (map effect_of rows)
map-IsKeyed [] k = tt
map-IsKeyed (r ∷ rows) k = (map-none (id_of r) rows k.0, map-IsKeyed rows k.1)

mem-map : (r : EffectRow) (rows : List EffectRow) → Memᴰ r rows → Memᴰ r.effect (map effect_of rows)
mem-map r [] m = elim m [ ]
mem-map r (x ∷ xs) (head e) = head (ap effect_of e)
mem-map r (x ∷ xs) (tail m) = tail (mem-map r xs m)

-- The effect's row is as the record says, and passes the test.
pub record IsQueued (p : EffectRecord → Bool) (db : Ledger) (e : EffectRecord) : Type 0 where
  pub row : EffectRow
  pub known : find_effect e.effect_id db ≡ some row
  pub same : row.effect ≡ e
  pub holds : p e ≡ true

module _ {ℓ} {A : Type ℓ} where
  pub mem-none :
      (p : A → Bool) (x : A) (xs : List A) → Memᴰ x xs → find_row p xs ≡ none → p x ≡ false
  unfolding find_row
  mem-none p x [] m n = elim m [ ]
  mem-none p x (y ∷ ys) (head e) n = rw e (ground arith)
  mem-none p x (y ∷ ys) (tail m) n = ground (arith, mem-none p x ys m)

  All-of_members : (P : A → Type ℓ) (xs : List A) → ((x : A) → Memᴰ x xs → P x) → All P xs
  All-of_members P [] h = tt
  All-of_members P (x ∷ xs) h = (h x (head refl), All-of_members P xs (λ y m. h y (tail m)))

  mem-find_row :
      (key : A → String) (x : A) (xs : List A)
      → IsKeyed key xs
      → Memᴰ x xs
      → find_row (at_key key (key x)) xs ≡ some x
  unfolding find_row
  mem-find_row key x [] k m = elim m [ ]
  mem-find_row key x (y ∷ ys) k (head e) = rw e (rw ((eq_iff (key y) (key y)).1 refl) refl)
  mem-find_row key x (y ∷ ys) k (tail m) =
      let other : str_eq (key x) (key y) ≡ false = mem-none (at_key key (key y)) x ys m k.0 in
      ground
        (arith, mem-find_row key x ys k.1 m, other, eq_iff (key x) (key y), eq_iff (key y) (key x))

  find_row-mem : (p : A → Bool) (x : A) (xs : List A) → find_row p xs ≡ some x → Memᴰ x xs
  unfolding find_row
  find_row-mem p x [] e = absurd (ground arith)
  find_row-mem p x (y ∷ ys) e = elim (Bool-cases (p y)) [
    | inl h ↦ head (ground arith)
    | inr h ↦ tail (find_row-mem p x ys (ground arith))
  ]

  mem-select : (p : A → Bool) (x : A) (xs : List A) → Memᴰ x xs → p x ≡ true → Memᴰ x (select p xs)
  unfolding select
  mem-select p x [] m h = elim m [ ]
  mem-select p x (y ∷ ys) (head e) h = rw (rw e at h) (head e)
  mem-select p x (y ∷ ys) (tail m) h = elim (Bool-cases (p y)) [
    | inl e ↦ rw e (tail (mem-select p x ys m h))
    | inr e ↦ rw e (mem-select p x ys m h)
  ]

  select-All :
      (P : A → Type ℓ) (p : A → Bool) (xs : List A)
      → All P xs
      → All (λ x. P x × (p x ≡ true)) (select p xs)
  unfolding select
  select-All P p [] a = tt
  select-All P p (x ∷ xs) a = elim (Bool-cases (p x)) [
    | inl e ↦ rw e ((a.0, e), select-All P p xs a.1)
    | inr e ↦ rw e (select-All P p xs a.1)
  ]

module _ (p : EffectRecord → Bool) (db : Ledger) where
  queued :
      (rows : List EffectRow)
      → All (λ row. (find_effect (id_of row) db ≡ some row) × (p row.effect ≡ true)) rows
      → All (IsQueued p db) (map effect_of rows)
  queued [] a = tt
  queued (r ∷ rows) a =
      (record { row = r; known = a.0.0; same = refl; holds = a.0.1 }, queued rows a.1)

  pub effects_where-IsQueued : IsKeyed id_of db.effects → All (IsQueued p db) (effects_where p db)
  unfolding effects_where find_effect
  effects_where-IsQueued k = queued _ (
      order_by-All _ _ _ (
        select-All _ (λ (row : EffectRow). p row.effect) db.effects
          (All-of_members _ db.effects (λ x m. mem-find_row id_of x db.effects k m))))

  pub effects_where-IsKeyed : IsKeyed id_of db.effects → IsKeyed record_id (effects_where p db)
  unfolding effects_where
  effects_where-IsKeyed k = map-IsKeyed _ (
      order_by-IsKeyed _ id_of _
        (select-IsKeyed id_of (λ (row : EffectRow). p row.effect) db.effects k))

  pub mem-effects_where :
      (id : String) (row : EffectRow)
      → find_effect id db ≡ some row
      → p row.effect ≡ true
      → Memᴰ row.effect (effects_where p db)
  unfolding effects_where find_effect
  mem-effects_where id row e h = mem-map row _ (
      mem-order_by _ row _ (
        mem-select (λ (x : EffectRow). p x.effect) row db.effects (find_row-mem _ row db.effects e)
          h))
