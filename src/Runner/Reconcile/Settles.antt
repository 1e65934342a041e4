-- ===== src/Runner/Reconcile/Settles.antt =====
-- What a sweep makes of every effect of the ledger.
use study_assistance_agent.Prelude.{
  append_nil, ℕ, String, ◌≡◌, refl, sym, subst, ◌∙◌, Bool, false, inl, inr, some, List, [], ◌∷◌,
  ◌++◌, arith, if◌then◌else◌, All, Bool-cases, Option-cases, find_row,
}
use study_assistance_agent.Prelude.Tables.Keys.{at_key, key-find_row}
use study_assistance_agent.Exec.{ok}
use study_assistance_agent.Runner.Effects.{is_pending}
use study_assistance_agent.Runner.Ledger.{
  Ledger, EffectRow, EffectRecord, find_effect, effects_where, pending_effects, reconcile_attempts,
}
use study_assistance_agent.Runner.Ledger.Reads.{find_effect-id_of, id_of-find_effect}
use study_assistance_agent.Runner.Ledger.Trail.{IsSound}
use study_assistance_agent.Runner.Ledger.Queues.{
  IsQueued, record_id, effects_where-IsQueued, effects_where-IsKeyed, mem-effects_where,
}
use study_assistance_agent.Runner.Reconcile.{Verdict, Swept, ReconcileReport, empty_report, sweep}
use study_assistance_agent.Runner.Reconcile.Sweeps.{is_waiting, swept_as, row_after, attempts_of}
use study_assistance_agent.Runner.Reconcile.Counting.{IsBalanced, Counts}
use study_assistance_agent.Runner.Reconcile.Passes.{outcomes, sweep_effects-IsPassed}

IsQueued-of_found :
    (p : EffectRecord → Bool) (db : Ledger) (k : String) (es : List EffectRecord) (e : EffectRecord)
    → All (IsQueued p db) es
    → find_row (at_key record_id k) es ≡ some e
    → IsQueued p db e
unfolding find_row
IsQueued-of_found p db k [] e a f = absurd (ground arith)
IsQueued-of_found p db k (x ∷ xs) e a f = elim (Bool-cases (at_key record_id k x)) [
  | inl h ↦
      let same : x ≡ e = ground arith in subst (λ (y : EffectRecord). IsQueued p db y) same a.0
  | inr h ↦ IsQueued-of_found p db k xs e a.1 (ground arith)
]

not_found :
    (id : String) (row : EffectRow) (db : Ledger)
    → find_effect id db ≡ some row
    → is_pending row.effect.state ≡ false
    → (e : EffectRecord) → e.effect_id ≡ id
    → IsQueued is_waiting db e
    → ⊥
not_found id row db f h e same q =
    let known : find_effect id db ≡ some q.row = rw (← same) q.known in
    let one : q.row ≡ row = cc (known, f) in ground (arith, one, q.same, q.holds, h)

-- What a sweep makes of any effect: nothing, unless it is pending.
abbrev pub swept_row : ℕ → (EffectRecord → Verdict) → List String → EffectRow → Swept
swept_row max_deferrals probe attempts row =
    if is_pending row.effect.state
    then swept_as max_deferrals (probe row.effect) attempts
    else Swept.skipped

-- On a sound ledger, a sweep returns, whatever the probe answers, with a report that has the number of
-- the pending effects that were not skipped, and of those with each outcome, whose sum it is. It settles every effect by its own state, verdict and attempts alone: one
-- that is not pending, or whose last attempt escalated it, is as it was; of the others, one that is
-- present is applied, one that is absent is failed, and one that is unknown stays pending, and is
-- escalated if it had been deferred so often that the limit is reached, and deferred otherwise. The
-- outcome is added to the effect's attempts.
pub sweep-settles :
    (max_deferrals : ℕ) (probe : EffectRecord → Verdict) (db : Ledger)
    → IsSound db
    → let r = sweep max_deferrals probe db in
      ((report : ReconcileReport) × (r.0 ≡ ok report)
        × IsBalanced report
        × Counts (outcomes max_deferrals probe db (pending_effects db)) empty_report report)
      × ((id : String) (row : EffectRow)
          → find_effect id db ≡ some row
          → let s = swept_row max_deferrals probe (reconcile_attempts id db) row in
            (find_effect id r.1 ≡ some (row_after s row))
            × (reconcile_attempts id r.1 ≡ reconcile_attempts id db ++ attempts_of s))
unfolding sweep pending_effects
sweep-settles max_deferrals probe db sound =
    let queue = effects_where-IsQueued is_waiting db sound.keyed in
    let p =
      sweep_effects-IsPassed max_deferrals probe (effects_where is_waiting db) empty_report db queue
        (effects_where-IsKeyed is_waiting db sound.keyed) refl in
    (
      (p.report, p.returned, p.balanced, p.counted),
      λ id row f. elim (Bool-cases (is_pending row.effect.state)) [
        | inl h ↦
            let done =
              p.swept row.effect row (mem-effects_where is_waiting db id row f h)
                (find_effect-id_of id row db f) in
            rw h (
              subst
                (λ (k : String).
                  let s = swept_as max_deferrals (probe row.effect) (reconcile_attempts k db) in
                  (find_effect k (sweep max_deferrals probe db).1 ≡ some (row_after s row))
                  × (reconcile_attempts k (sweep max_deferrals probe db).1
                      ≡ reconcile_attempts k db ++ attempts_of s))
                (id_of-find_effect id row db f) done)
        | inr h ↦
            rw h
              (elim (Option-cases (find_row (at_key record_id id) (effects_where is_waiting db))) [
                | inl n ↦
                    let (same, same') = p.other id n in
                    (same ∙ f, same' ∙ sym (append_nil (reconcile_attempts id db)))
                | inr (e, found) ↦ absurd (
                    not_found id row db f h e
                      (key-find_row record_id id (effects_where is_waiting db) e found)
                      (IsQueued-of_found is_waiting db id (effects_where is_waiting db) e queue
                        found))
              ])
      ],
    )
