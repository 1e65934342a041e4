-- ===== src/Planner/Pinning/Proposals.antt =====
-- A proposal of a model that is accepted has all the tasks.
use mathlib.Core.List.{Memᴰ, Perm}
use mathlib.Core.List.Perm
use mathlib.Core.List.Memᴰ.{head, tail}
use study_assistance_agent.Prelude.{
  suc, String, str_eq, eq_iff, ◌≡◌, refl, sym, subst, ap, ◌∙◌, inl, inr, true, false, some, List,
  [], ◌∷◌, map, arith, length, find_row, Bool-cases,
}
use study_assistance_agent.Lifecycle.{GoalPlanTask}
use study_assistance_agent.Planner.Order.{has_text}
use study_assistance_agent.Planner.Order.Heap.{AreApart}
use study_assistance_agent.Planner.Pinning.{is_every, has_id, is_proposal, by_ids}

abbrev pub HaveIds : List GoalPlanTask → Type 0
HaveIds ts = AreApart (λ t. t.task_id) ts

mem-has_id : (t : GoalPlanTask) (ts : List GoalPlanTask) → Memᴰ t ts → has_id ts t.task_id ≡ true
mem-has_id t [] m = elim m [ ]
mem-has_id t (u ∷ ts) (head e) =
    ground (arith, eq_iff u.task_id t.task_id, ap (λ (x : GoalPlanTask). x.task_id) e)
mem-has_id t (u ∷ ts) (tail m) = ground (arith, mem-has_id t ts m)

-- A list with one member taken out.
record IsTaken (x : GoalPlanTask) (ys : List GoalPlanTask) : Type 0 where
  others : List GoalPlanTask
  moved : Perm ys (x ∷ others)
  shorter : length ys ≡ suc (length others)
  kept : (u : GoalPlanTask) → Memᴰ u ys → str_eq u.task_id x.task_id ≡ false → Memᴰ u others

take_out : (x : GoalPlanTask) (ys : List GoalPlanTask) → Memᴰ x ys → IsTaken x ys
take_out x [] m = elim m [ ]
take_out x (y ∷ ys) (head e) = record {
  others = ys;
  moved = subst (λ z. Perm (y ∷ ys) (z ∷ ys)) (sym e) Perm.rfl;
  shorter = refl;
  kept = λ u m n. elim m [
    | head same ↦ absurd (
        ground (
          arith,
          ap (λ (z : GoalPlanTask). z.task_id) same,
          ap (λ (z : GoalPlanTask). z.task_id) e,
          n,
          eq_iff u.task_id x.task_id,
        ))
    | tail later ↦ later
  ];
}
take_out x (y ∷ ys) (tail m) =
    let r = take_out x ys m in
    record {
      others = y ∷ r.others;
      moved = Perm.trans (Perm.cons y r.moved) (Perm.swap x y r.others);
      shorter = ap suc r.shorter;
      kept = λ u k n. elim k [ head same ↦ head same | tail later ↦ tail (r.kept u later n) ];
    }

-- As many members, and all of those that are there: a permutation.
covered-perm :
    (xs ys : List GoalPlanTask)
    → HaveIds xs
    → ((u : GoalPlanTask) → Memᴰ u xs → Memᴰ u ys)
    → length ys ≡ length xs
    → Perm ys xs
covered-perm [] [] u all l = Perm.rfl
covered-perm [] (y ∷ ys) u all l = absurd (omega (arith, l))
covered-perm (x ∷ xs) ys u all l =
    let r = take_out x ys (all x (head refl)) in
    Perm.trans r.moved (
      Perm.cons x (
        covered-perm xs r.others u.1
          (λ v m.
            r.kept v (all v (tail m))
              (ground (arith, mem-has_id v xs m, u.0, eq_iff v.task_id x.task_id)))
          (omega (arith, r.shorter, l))))

find_id :
    (ts : List GoalPlanTask) (id : String)
    → has_id ts id ≡ true
    → (t : GoalPlanTask) × (find_row (λ u. str_eq u.task_id id) ts ≡ some t) × (t.task_id ≡ id)
unfolding find_row
find_id [] id h = ground arith
find_id (t ∷ ts) id h = elim (Bool-cases (str_eq t.task_id id)) [
  | inl e ↦ (t, rw e refl, (eq_iff t.task_id id).0 e)
  | inr e ↦ let (u, found, same) = find_id ts id (ground arith) in (u, rw e found, same)
]

-- A task is found by its id.
find_own :
    (ts : List GoalPlanTask) (t : GoalPlanTask)
    → HaveIds ts
    → Memᴰ t ts
    → find_row (λ u. str_eq u.task_id t.task_id) ts ≡ some t
unfolding find_row
find_own [] t u m = elim m [ ]
find_own (x ∷ ts) t u (head e) =
    subst (λ y. find_row (λ v. str_eq v.task_id t.task_id) (y ∷ ts) ≡ some t) e
      (rw ((eq_iff t.task_id t.task_id).1 refl) refl)
find_own (x ∷ ts) t u (tail m) =
    let other : str_eq x.task_id t.task_id ≡ false =
      ground (arith, mem-has_id t ts m, u.0, eq_iff x.task_id t.task_id) in
    rw other (find_own ts t u.1 m)

module _ (tasks : List GoalPlanTask) (ids : HaveIds tasks) where
  by_ids-found :
      (order : List String)
      → is_every (has_id tasks) order ≡ true
      → (ts : List GoalPlanTask) × (by_ids tasks order ≡ some ts)
        × (length ts ≡ length order)
        × ((u : GoalPlanTask) → Memᴰ u tasks → has_text order u.task_id ≡ true → Memᴰ u ts)
  unfolding by_ids
  by_ids-found [] h = ([], refl, refl, λ u m k. absurd (ground arith))
  by_ids-found (id ∷ order) h =
      let (t, found, same) = find_id tasks id (ground arith) in
      let (ts, rest, long, members) = by_ids-found order (ground arith) in
      (
        t ∷ ts,
        rw (found, by_ids, rest) refl,
        ap suc long,
        λ u m k. elim (Bool-cases (str_eq id u.task_id)) [
          | inl e ↦
              let own : some u ≡ some t =
                sym (find_own tasks u ids m)
                ∙ ap (λ i. find_row (λ v. str_eq v.task_id i) tasks)
                    (sym ((eq_iff id u.task_id).0 e))
                ∙ found in
              head (cc own)
          | inr e ↦ tail (members u m (ground arith))
        ],
      )

  has_all :
      (order : List String) (ts : List GoalPlanTask) (u : GoalPlanTask)
      → is_every (has_text order) (map (λ t. t.task_id) ts) ≡ true
      → Memᴰ u ts
      → has_text order u.task_id ≡ true
  has_all order [] u h m = elim m [ ]
  has_all order (t ∷ ts) u h (head e) =
      ap (λ (z : GoalPlanTask). has_text order z.task_id) e ∙ ground arith
  has_all order (t ∷ ts) u h (tail m) = has_all order ts u (ground arith) m

  -- A proposal that is accepted reorders the tasks.
  pub is_proposal-by_ids :
      (order : List String)
      → is_proposal tasks order ≡ true
      → (ts : List GoalPlanTask) × (by_ids tasks order ≡ some ts) × Perm ts tasks
  unfolding is_proposal
  is_proposal-by_ids order h =
      let (ts, found, long, members) = by_ids-found order (ground arith) in
      let every : is_every (has_text order) (map (λ t. t.task_id) tasks) ≡ true = ground arith in
      let as_long : length order ≡ length tasks = ground arith in
      (
        ts,
        found,
        covered-perm tasks ts ids (λ u m. members u m (has_all order tasks u every m))
            (long ∙ as_long),
      )
