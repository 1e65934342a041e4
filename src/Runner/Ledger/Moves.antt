-- ===== src/Runner/Ledger/Moves.antt =====
-- A legal transition of an effect that a query has returned.
use study_assistance_agent.Prelude.{
  String, str_eq, eq_iff, ◌≡◌, sym, subst, ap, true, inl, inr, Bool, Option, some, arith,
  if◌then◌else◌,
}
use study_assistance_agent.Exec.{Code, ok, err}
use study_assistance_agent.Runner.Effects.{assert_transition_allowed, EffectState, is_legal}
use study_assistance_agent.Runner.Ledger.{
  Ledger, EffectRow, EffectRecord, find_effect, move_to, transition, write_transition,
}
use study_assistance_agent.Runner.Ledger.Reads.{find_effect-write_transition}
use study_assistance_agent.Runner.Ledger.Trail.{transition-cases}
use study_assistance_agent.Runner.Ledger.Queues.{IsQueued}

module _ {p : EffectRecord → Bool} (e : EffectRecord) (db : Ledger) (q : IsQueued p db e) where
  not_refused :
      (t : EffectState) (d : Option String) (code : Code)
      → is_legal q.row.effect.state t ≡ true
      → transition e.effect_id t d db ≡ (err code, db)
      → ⊥
  unfolding transition assert_transition_allowed
  not_refused t d code legal refused = cc (rw (q.known, transition, legal) at refused)

  pub transition-moves :
      (t : EffectState) (d : Option String)
      → is_legal e.state t ≡ true
      → transition e.effect_id t d db
        ≡ (ok (move_to t d q.row).effect, write_transition q.row t d db)
  transition-moves t d legal =
      let legal' : is_legal q.row.effect.state t ≡ true =
        subst (λ (x : EffectRecord). is_legal x.state t ≡ true) (sym q.same) legal in
      elim (transition-cases e.effect_id t d db) [
        | inl (code, refused) ↦ absurd (not_refused t d code legal' refused)
        | inr (row, known, l, moved) ↦
            let same : row ≡ q.row = cc (known, q.known) in
            subst
              (λ (x : EffectRow).
                transition e.effect_id t d db
                ≡ (ok (move_to t d x).effect, write_transition x t d db))
              same moved
      ]

  pub transition-reads :
      (t : EffectState) (d : Option String) (k : String)
      → find_effect k (write_transition q.row t d db)
        ≡ (if str_eq e.effect_id k then some (move_to t d q.row) else find_effect k db)
  transition-reads t d k = ground (
    arith,
    find_effect-write_transition k q.row t d db,
    eq_iff e.effect_id k,
    q.known,
    ap (λ (x : EffectRecord). x.effect_id) q.same,
  )

  pub queued_row :
      (k : String) (x : EffectRow)
      → find_effect k db ≡ some x
      → str_eq e.effect_id k ≡ true
      → x.effect ≡ e
  queued_row k x f h =
      let g : find_effect e.effect_id db ≡ some x = rw ((eq_iff e.effect_id k).0 h) f in
      ground (arith, q.known, g, q.same)
