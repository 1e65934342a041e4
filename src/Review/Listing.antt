-- ===== src/Review/Listing.antt =====
-- What `get_due` lists, in which order, and what it counts.
use mathlib.Core.List.{Memᴰ}
use mathlib.Core.List.Memᴰ.{head, tail}
use study_assistance_agent.Prelude.{
  ℕ, suc, ◌+◌, ◌-◌, ◌≤◌, String, ◌≡◌, refl, sym, subst, inl, inr, Bool, true, ◌&&◌, Option, none,
  some, str_eq, eq_iff, ◌⊎◌, Option-cases, List, [], ◌∷◌, arith, ltb, leb, ◌==◌, length, count_if,
  Bool-cases, insert_row, order_by,
}
use study_assistance_agent.Review.{Review, DueEntry, date_of, is_selected, collect_due}

-- Later entries are overdue by no more days.
abbrev pub IsOrdered : List DueEntry → Type 0
IsOrdered [] = Unit
IsOrdered (d ∷ []) = Unit
IsOrdered (d ∷ e ∷ rest) = (e.days_overdue ≤ d.days_overdue) × IsOrdered (e ∷ rest)

abbrev pub latest_first : DueEntry → DueEntry → Bool
latest_first a b = leb b.days_overdue a.days_overdue

insert_row-IsOrdered :
    (d : DueEntry) (ds : List DueEntry) → IsOrdered ds → IsOrdered (insert_row latest_first d ds)
unfolding insert_row
insert_row-IsOrdered d [] o = tt
insert_row-IsOrdered d (e ∷ []) o = ground arith
insert_row-IsOrdered d (e ∷ f ∷ rest) o = ground (arith, insert_row-IsOrdered d (f ∷ rest) o.1)

pub order_by-IsOrdered : (ds : List DueEntry) → IsOrdered (order_by latest_first ds)
unfolding order_by
order_by-IsOrdered [] = tt
order_by-IsOrdered (d ∷ ds) =
    insert_row-IsOrdered d (order_by latest_first ds) (order_by-IsOrdered ds)

insert_row-length :
    (d : DueEntry) (ds : List DueEntry) → length (insert_row latest_first d ds) ≡ suc (length ds)
unfolding insert_row
insert_row-length d [] = refl
insert_row-length d (e ∷ ds) = ground (arith, insert_row-length d ds)

pub order_by-length : (ds : List DueEntry) → length (order_by latest_first ds) ≡ length ds
unfolding order_by
order_by-length [] = refl
order_by-length (d ∷ ds) =
    omega (arith, insert_row-length d (order_by latest_first ds), order_by-length ds)

pub count-split :
    (ds : List DueEntry)
    → count_if (λ d. ltb 0 d.days_overdue) ds + count_if (λ d. d.days_overdue == 0) ds ≡ length ds
count-split [] = refl
count-split (d ∷ ds) = ground (arith, count-split ds)

leb-true : (a b : ℕ) → a ≤ b → leb a b ≡ true
leb-true a b h = ground arith

true-leb : (a b : ℕ) → leb a b ≡ true → a ≤ b
true-leb a b h = ground arith

module _ (is_under : String → String → Bool) (course : Option String) (today : ℕ) where
  -- The report is of all courses, or of a course that is the entry's or that its file lies under.
  abbrev pub IsWanted : Review → Type 0
  IsWanted e =
      (course ≡ none)
      ⊎ ((name : String) × (course ≡ some name)
          × ((name ≡ "") ⊎ ((e.course ≡ name) ⊎ (is_under name e.file ≡ true))))

  is_selected-IsWanted : (e : Review) → is_selected is_under course e ≡ true → IsWanted e
  unfolding is_selected
  is_selected-IsWanted e h = elim (Option-cases course) [
    | inl n ↦ inl n
    | inr (name, n) ↦ inr (
      name,
      n,
      (elim (Bool-cases (str_eq name "")) [
        | inl a ↦ inl ((eq_iff name "").0 a)
        | inr a ↦ elim (Bool-cases (str_eq e.course name)) [
          | inl b ↦ inr (inl ((eq_iff e.course name).0 b))
          | inr b ↦ inr (inr (ground (arith, n, a, b, h)))
        ]
      ]),
    )
  ]

  pub IsWanted-is_selected : (e : Review) → IsWanted e → is_selected is_under course e ≡ true
  unfolding is_selected
  IsWanted-is_selected e (inl n) = rw n refl
  IsWanted-is_selected e (inr (name, n, inl a)) =
      let own = (eq_iff name "").1 a in ground (arith, n, own)
  IsWanted-is_selected e (inr (name, n, inr (inl b))) =
      let own = (eq_iff e.course name).1 b in ground (arith, n, own)
  IsWanted-is_selected e (inr (name, n, inr (inr c))) = ground (arith, n, c)

  -- An entry of the report: a selected review of the history whose date has come, and for how long.
  abbrev pub IsListed : List Review → DueEntry → Type 0
  IsListed history d =
      Memᴰ d.entry history
      × IsWanted d.entry
      × (date_of d.entry.next_review ≤ today)
      × (d.days_overdue ≡ today - date_of d.entry.next_review)

  abbrev pub AreListed : List Review → List DueEntry → Type 0
  AreListed history [] = Unit
  AreListed history (d ∷ ds) = IsListed history d × AreListed history ds

  insert_row-AreListed :
      (history : List Review) (d : DueEntry) (ds : List DueEntry)
      → IsListed history d
      → AreListed history ds
      → AreListed history (insert_row latest_first d ds)
  unfolding insert_row
  insert_row-AreListed history d [] p h = (p, tt)
  insert_row-AreListed history d (e ∷ ds) p h =
      let rest = insert_row-AreListed history d ds p h.1 in
      elim (Bool-cases (latest_first d e)) [
        | inl t ↦ rw (t, insert_row) (p, h)
        | inr f ↦ rw (f, insert_row) (h.0, rest)
      ]

  pub order_by-AreListed :
      (history : List Review) (ds : List DueEntry)
      → AreListed history ds
      → AreListed history (order_by latest_first ds)
  unfolding order_by
  order_by-AreListed history [] h = tt
  order_by-AreListed history (d ∷ ds) h =
      insert_row-AreListed history d (order_by latest_first ds) h.0
        (order_by-AreListed history ds h.1)

  pub collect_due-AreListed :
      (history xs : List Review)
      → ((e : Review) → Memᴰ e xs → Memᴰ e history)
      → AreListed history (collect_due is_under course today xs).0
  unfolding collect_due
  collect_due-AreListed history [] m = tt
  collect_due-AreListed history (x ∷ xs) m =
      let rest = collect_due-AreListed history xs (λ e h. m e (tail h)) in
      elim (Bool-cases (is_selected is_under course x)) [
        | inr n ↦ rw (n, collect_due) rest
        | inl n ↦ elim (Bool-cases (leb (date_of x.next_review) today)) [
          | inl b ↦
              let listed : IsListed history
                  (record { entry = x; days_overdue = today - date_of x.next_review }) =
                (
                  m x (head refl),
                  is_selected-IsWanted x n,
                  true-leb (date_of x.next_review) today b,
                  refl,
                ) in
              rw (n, collect_due, b) (listed, rest)
          | inr b ↦ rw (n, collect_due, b) rest
        ]
      ]

  abbrev pub is_due : Review → Bool
  is_due e = is_selected is_under course e && leb (date_of e.next_review) today

  pub collect_due-counts :
      (history : List Review)
      → let r = collect_due is_under course today history in
        (r.1 ≡ count_if (is_selected is_under course) history)
        × (length r.0 ≡ count_if is_due history)
  unfolding collect_due
  collect_due-counts [] = (refl, refl)
  collect_due-counts (x ∷ xs) = ground (arith, collect_due-counts xs)

  due_head :
      (x : Review) (xs : List Review)
      → is_selected is_under course x ≡ true
      → date_of x.next_review ≤ today
      → Memᴰ
          (record { entry = x; days_overdue = today - date_of x.next_review })
          (collect_due is_under course today (x ∷ xs)).0
  unfolding collect_due
  due_head x xs s h =
      let due : leb (date_of x.next_review) today ≡ true =
        leb-true (date_of x.next_review) today h in
      rw (s, collect_due, due) (head refl)

  pub collect_due-mem :
      (history : List Review) (e : Review)
      → Memᴰ e history
      → is_selected is_under course e ≡ true
      → date_of e.next_review ≤ today
      → Memᴰ
          (record { entry = e; days_overdue = today - date_of e.next_review })
          (collect_due is_under course today history).0
  unfolding collect_due
  collect_due-mem [] e m s h = elim m [ ]
  collect_due-mem (x ∷ xs) e (head same) s h =
      subst
        (λ (y : Review).
          Memᴰ (record { entry = y; days_overdue = today - date_of y.next_review })
            (collect_due is_under course today (x ∷ xs)).0)
        (sym same)
        (due_head x xs (subst (λ (y : Review). is_selected is_under course y ≡ true) same s)
          (subst (λ (y : Review). date_of y.next_review ≤ today) same h))
  collect_due-mem (x ∷ xs) e (tail m) s h =
      let rest = collect_due-mem xs e m s h in
      elim (Bool-cases (is_selected is_under course x)) [
        | inr n ↦ rw (n, collect_due) rest
        | inl n ↦ elim (Bool-cases (leb (date_of x.next_review) today)) [
          | inl b ↦ rw (n, collect_due, b) (tail rest)
          | inr b ↦ rw (n, collect_due, b) rest
        ]
      ]

  pub collect_due-length :
      (history : List Review)
      → length (collect_due is_under course today history).0
        ≤ (collect_due is_under course today history).1
  unfolding collect_due
  collect_due-length [] = omega arith
  collect_due-length (x ∷ xs) = ground (arith, collect_due-length xs)
