-- ===== src/Runner/Reconcile/Progress.antt =====
-- A sweep brings every waiting effect nearer to its end: the deferrals are bounded.
use study_assistance_agent.Prelude.{
  ℕ, suc, ◌+◌, ◌<◌, String, str_eq, ◌≡◌, refl, ◌⊎◌, inl, inr, true, false, some, List, [], ◌∷◌,
  ◌++◌, arith, leb, count_if, Bool-cases,
}
use study_assistance_agent.Runner.Effects.{is_pending, is_terminal}
use study_assistance_agent.Runner.Ledger.{
  Ledger, EffectRow, EffectRecord, find_effect, move_to, reconcile_attempts,
}
use study_assistance_agent.Runner.Ledger.Trail.{IsSound}
use study_assistance_agent.Runner.Reconcile.{
  Verdict, present, absent, unknown, Swept, outcome_deferred, outcome_escalated, ends_escalated,
  is_escalated, deferrals, sweep,
}
use study_assistance_agent.Runner.Reconcile.Sweeps.{swept_as, row_after, attempts_of}
use study_assistance_agent.Runner.Reconcile.Settles.{sweep-settles}

abbrev count_deferred : List String → ℕ
count_deferred = count_if (λ a. str_eq a outcome_deferred)

count-deferred :
    (attempts : List String)
    → count_deferred (attempts ++ outcome_deferred ∷ []) ≡ suc (count_deferred attempts)
count-deferred [] = refl
count-deferred (a ∷ rest) = ground (arith, count-deferred rest)

ends-escalated :
    (attempts : List String) → ends_escalated (attempts ++ outcome_escalated ∷ []) ≡ true
ends-escalated [] = refl
ends-escalated (a ∷ []) = refl
ends-escalated (a ∷ b ∷ rest) = ends-escalated (b ∷ rest)

ends_of :
    (before after : List String)
    → after ≡ before ++ outcome_escalated ∷ []
    → ends_escalated after ≡ true
ends_of before after e = rw e (ends-escalated before)

deferred_of :
    (limit : ℕ) (before after : List String)
    → leb limit (count_deferred before + 1) ≡ false
    → after ≡ before ++ outcome_deferred ∷ []
    → (count_deferred after ≡ suc (count_deferred before)) × (count_deferred after < limit)
deferred_of limit before after b e =
    let more : count_deferred after ≡ suc (count_deferred before) = rw e (count-deferred before) in
    (more, ground (arith, more, b))

-- What a sweep leaves of an effect: it has ended, or a human has it, or it was deferred once more,
-- still below the limit.
abbrev pub IsNearer : ℕ → String → EffectRow → Ledger → Ledger → Type 0
IsNearer max_deferrals id row db after =
    ((next : EffectRow) × (find_effect id after ≡ some next)
      × (is_terminal next.effect.state ≡ true))
    ⊎ ((is_escalated id after ≡ true)
        ⊎ ((deferrals id after ≡ suc (deferrals id db)) × (deferrals id after < max_deferrals)))

nearer :
    (max_deferrals : ℕ) (verdict : Verdict) (id : String) (row : EffectRow) (db after : Ledger)
    → ends_escalated (reconcile_attempts id db) ≡ false
    → let s = swept_as max_deferrals verdict (reconcile_attempts id db) in
      (find_effect id after ≡ some (row_after s row))
      → (reconcile_attempts id after ≡ reconcile_attempts id db ++ attempts_of s)
      → IsNearer max_deferrals id row db after
unfolding is_escalated deferrals
nearer max_deferrals present id row db after h f a =
    inl (row_after Swept.applied row, rw h at f, unfold move_to in unfold is_terminal in refl)
nearer max_deferrals absent id row db after h f a =
    inl (row_after Swept.failed row, rw h at f, unfold move_to in unfold is_terminal in refl)
nearer max_deferrals unknown id row db after h f a =
    elim (Bool-cases (leb max_deferrals (count_deferred (reconcile_attempts id db) + 1))) [
      | inl b ↦ inr (inl (ends_of _ _ (rw (h, b) at a)))
      | inr b ↦ inr (inr (deferred_of _ _ _ b (rw (h, b) at a)))
    ]

-- On a sound ledger, take a pending effect that no human has. After a sweep, whatever the probe
-- answers, the effect is terminal, or it was escalated to a human, or it has one deferral more, and
-- then still fewer than the limit: so it can be deferred fewer times than the limit in all.
pub sweep-IsNearer :
    (max_deferrals : ℕ) (probe : EffectRecord → Verdict) (db : Ledger) (id : String)
    (row : EffectRow)
    → IsSound db
    → find_effect id db ≡ some row
    → is_pending row.effect.state ≡ true
    → is_escalated id db ≡ false
    → IsNearer max_deferrals id row db (sweep max_deferrals probe db).1
sweep-IsNearer max_deferrals probe db id row sound f p e =
    let (same, added) = (sweep-settles max_deferrals probe db sound).1 id row f in
    nearer max_deferrals (probe row.effect) id row db _ (unfold is_escalated in e) (rw p at same)
      (rw p at added)
