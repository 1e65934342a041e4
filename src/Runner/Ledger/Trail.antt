-- ===== src/Runner/Ledger/Trail.antt =====
-- The history of an effect: its rows of `effect_events` tell how it came to its state.
use study_assistance_agent.Prelude.{
  Option, inl, inr, ◌⊎◌, Bool-cases, String, eq_iff, ◌≡◌, refl, true, none, some, List, [], ◌∷◌,
  ◌++◌, arith, Option-cases,
}
use study_assistance_agent.Prelude.Tables.Keys.{IsKeyed, IsKeyed-update_rows}
use study_assistance_agent.Exec.{Code, ok, err, effect_unknown, effect_transition_invalid}
use study_assistance_agent.Runner.Effects.{
  EffectState, proposed, is_legal, assert_transition_allowed,
}
use study_assistance_agent.Runner.Ledger.{
  Ledger, EffectRow, find_effect, events, append_event, move_to, write_transition, transition,
}
use study_assistance_agent.Runner.Ledger.Reads.{
  id_of, find_effect-id_of, find_effect-write_transition, events-write_transition,
}

abbrev pub History : Type 0
History = List (Option EffectState × EffectState)

-- Legal steps lead from one state along the rows to another.
abbrev pub IsPath : EffectState → History → EffectState → Type 0
IsPath s [] t = s ≡ t
IsPath s ((none, b) ∷ rest) t = ⊥
IsPath s ((some a, b) ∷ rest) t = (a ≡ s) × (is_legal a b ≡ true) × IsPath b rest t

-- The rows begin with the proposal, and legal steps lead from there to the state.
abbrev pub IsTrail : History → EffectState → Type 0
IsTrail [] t = ⊥
IsTrail ((some a, b) ∷ rest) t = ⊥
IsTrail ((none, b) ∷ rest) t = (b ≡ proposed) × IsPath b rest t

IsPath-append :
    (s t u : EffectState) (h : History)
    → IsPath s h t
    → is_legal t u ≡ true
    → IsPath s (h ++ (some t, u) ∷ []) u
IsPath-append s t u [] p l = ground arith
IsPath-append s t u ((none, b) ∷ h) p l = absurd p
IsPath-append s t u ((some a, b) ∷ h) p l = (p.0, p.1, IsPath-append b t u h p.2 l)

pub IsTrail-append :
    (t u : EffectState) (h : History)
    → IsTrail h t
    → is_legal t u ≡ true
    → IsTrail (h ++ (some t, u) ∷ []) u
IsTrail-append t u [] p l = absurd p
IsTrail-append t u ((some a, b) ∷ h) p l = absurd p
IsTrail-append t u ((none, b) ∷ h) p l = (p.0, IsPath-append b t u h p.1 l)

pub record IsSound (db : Ledger) : Type 0 where
  -- the primary key
  pub keyed : IsKeyed id_of db.effects
  -- an effect's history is a legal way to its state
  pub traced :
      (id : String) (row : EffectRow)
      → find_effect id db ≡ some row
      → IsTrail (events id db) row.effect.state
  -- what is no effect has no history
  pub untraced : (id : String) → find_effect id db ≡ none → events id db ≡ []

module _ (row : EffectRow) (t : EffectState) (d : Option String) (db : Ledger)
    (known : find_effect (id_of row) db ≡ some row) (legal : is_legal row.effect.state t ≡ true)
    (sound : IsSound db) where
  write_transition-traced :
      (id : String) (x : EffectRow)
      → find_effect id (write_transition row t d db) ≡ some x
      → IsTrail (events id (write_transition row t d db)) x.effect.state
  unfolding move_to
  write_transition-traced id x h = ground (
    arith,
    find_effect-write_transition id row t d db,
    events-write_transition id row t d db,
    eq_iff (id_of row) id,
    sound.traced id x,
    sound.traced (id_of row) row known,
    IsTrail-append row.effect.state t (events (id_of row) db),
  )

  write_transition-untraced :
      (id : String)
      → find_effect id (write_transition row t d db) ≡ none
      → events id (write_transition row t d db) ≡ []
  write_transition-untraced id h = ground (
    arith,
    find_effect-write_transition id row t d db,
    events-write_transition id row t d db,
    eq_iff (id_of row) id,
    sound.untraced id,
  )

  write_transition-IsKeyed : IsKeyed id_of (write_transition row t d db).effects
  unfolding write_transition move_to append_event
  write_transition-IsKeyed =
      IsKeyed-update_rows id_of (id_of row) (move_to t d) db.effects (λ x. refl) sound.keyed

  pub write_transition-IsSound : IsSound (write_transition row t d db)
  write_transition-IsSound = record {
    keyed = write_transition-IsKeyed;
    traced = write_transition-traced;
    untraced = write_transition-untraced;
  }

-- What a call of `transition` has done: nothing, or one legal step of a known effect.
pub transition-cases :
    (id : String) (t : EffectState) (d : Option String) (db : Ledger)
    → ((code : Code) × (transition id t d db ≡ (err code, db)))
      ⊎ ((row : EffectRow) × (find_effect id db ≡ some row)
          × (is_legal row.effect.state t ≡ true)
          × (transition id t d db ≡ (ok (move_to t d row).effect, write_transition row t d db)))
unfolding transition assert_transition_allowed
transition-cases id t d db = elim (Option-cases (find_effect id db)) [
  | inl e ↦ inl (effect_unknown, rw (e, transition))
  | inr (row, e) ↦ elim (Bool-cases (is_legal row.effect.state t)) [
    | inl l ↦ inr (row, e, l, rw (e, transition, l))
    | inr l ↦ inl (effect_transition_invalid, rw (e, transition, l))
  ]
]

pub transition-IsSound :
    (id : String) (t : EffectState) (d : Option String) (db : Ledger)
    → IsSound db
    → IsSound (transition id t d db).1
transition-IsSound id t d db sound = elim (transition-cases id t d db) [
  | inl (code, same) ↦ rw same sound
  | inr (row, known, legal, moved) ↦
      rw moved (write_transition-IsSound row t d db (find_effect-id_of id row db known) legal sound)
]
