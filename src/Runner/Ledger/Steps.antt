-- ===== src/Runner/Ledger/Steps.antt =====
-- What one call, or many, do to an effect that is there: it keeps its job, tool, arguments and key,
-- and its state moves along the diagram.
use study_assistance_agent.Prelude.{
  Option, ℕ, String, eq_iff, ◌≡◌, refl, Bool, true, false, ◌⊎◌, inl, inr, some, [], ◌∷◌, arith,
  if◌then◌else◌, find_row, find_row-append, find_row-updated,
}
use study_assistance_agent.Runner.Effects.{EffectState, is_legal}
use study_assistance_agent.Runner.Ledger.{
  Ledger, EffectRow, find_effect, has_id, begin_effect, transition, move_to, append_event,
  write_transition, create_job, set_job_state, record_reconcile_attempt,
}
use study_assistance_agent.Runner.Ledger.Checkpoints.{record_checkpoint}
use study_assistance_agent.Runner.Ledger.Trail.{IsSound, transition-cases}
use study_assistance_agent.Prelude.Tables.Keys.{find_row-own_key}
use study_assistance_agent.Runner.Ledger.Reads.{id_of, find_effect-id_of}
use study_assistance_agent.Runner.Ledger.Soundness.{begin_effect-cases, with_row}
use study_assistance_agent.Runner.Ledger.Operations.{
  Op, create, set_state, begin, step, attempt, checkpoint, purge, apply_op,
}

-- The same effect, in the same state or one legal step on.
pub record IsStep (a b : EffectRow) : Type 0 where
  pub same_id : b.effect.effect_id ≡ a.effect.effect_id
  pub same_job : b.effect.job_id ≡ a.effect.job_id
  pub same_tool : b.effect.tool_name ≡ a.effect.tool_name
  pub same_digest : b.effect.argument_digest ≡ a.effect.argument_digest
  pub same_key : b.effect.idempotency_key ≡ a.effect.idempotency_key
  pub moved : (b ≡ a) ⊎ (is_legal a.effect.state b.effect.state ≡ true)

pub IsStep-refl : (a : EffectRow) → IsStep a a
IsStep-refl a = ground arith

abbrev pub is_purge : Op → Bool
is_purge (purge retention now clock) = true
is_purge _ = false

-- What a test that transitions leave alone finds, it still finds after a transition.
module _ (p : EffectRow → Bool)
    (fixed : (t : EffectState) (d : Option String) (y : EffectRow) → p (move_to t d y) ≡ p y) where
  write_transition-finds :
      (row : EffectRow) (t : EffectState) (d : Option String) (db : Ledger) (x : EffectRow)
      → IsSound db
      → find_effect row.effect.effect_id db ≡ some row
      → is_legal row.effect.state t ≡ true
      → find_row p db.effects ≡ some x
      → (y : EffectRow) × (find_row p (write_transition row t d db).effects ≡ some y) × IsStep x y
  unfolding write_transition append_event find_effect move_to
  write_transition-finds row t d db x sound known legal e =
      let id = row.effect.effect_id in
      (
        if has_id id x then move_to t d x else x,
        rw (find_row-updated p (has_id id) (move_to t d) db.effects (fixed t d), e) refl,
        ground (
          arith,
          find_row-own_key id_of p db.effects x sound.keyed e,
          eq_iff x.effect.effect_id id,
        ),
      )

  pub transition-finds :
      (id : String) (t : EffectState) (d : Option String) (db : Ledger) (x : EffectRow)
      → IsSound db
      → find_row p db.effects ≡ some x
      → (y : EffectRow) × (find_row p (transition id t d db).1.effects ≡ some y) × IsStep x y
  transition-finds id t d db x sound e = elim (transition-cases id t d db) [
    | inl (code, same) ↦ (x, rw same e, IsStep-refl x)
    | inr (row, known, legal, moved) ↦
        rw moved
          (write_transition-finds row t d db x sound (find_effect-id_of id row db known) legal e)
  ]

  append-finds :
      (row x : EffectRow) (db : Ledger)
      → find_row p db.effects ≡ some x
      → find_row p (with_row row db).effects ≡ some x
  unfolding append_event
  append-finds row x db e = rw (find_row-append p db.effects (row ∷ []), e) refl

  pub begin_effect-finds :
      (id job_id tool_name argument_digest key : String) (now : ℕ) (db : Ledger) (x : EffectRow)
      → find_row p db.effects ≡ some x
      → find_row p (begin_effect id job_id tool_name argument_digest key now db).1.effects ≡ some x
  begin_effect-finds id job_id tool_name argument_digest key now db x e =
      elim (begin_effect-cases id job_id tool_name argument_digest key now db) [
        | inl same ↦ rw same e
        | inr (free, new, begun) ↦ rw begun (append-finds _ x db e)
      ]

  pub apply_op-finds :
      (op : Op) (db : Ledger) (x : EffectRow)
      → is_purge op ≡ false
      → IsSound db
      → find_row p db.effects ≡ some x
      → (y : EffectRow) × (find_row p (apply_op op db).effects ≡ some y) × IsStep x y
  unfolding apply_op create_job set_job_state record_reconcile_attempt record_checkpoint
  apply_op-finds (create id scope_id learner_id now) db x h sound e =
      (x, ground arith, IsStep-refl x)
  apply_op-finds (set_state id state) db x h sound e = (x, ground arith, IsStep-refl x)
  apply_op-finds (begin id job_id tool_name argument_digest key now) db x h sound e =
      (x, begin_effect-finds id job_id tool_name argument_digest key now db x e, IsStep-refl x)
  apply_op-finds (step id target digest) db x h sound e =
      transition-finds id target digest db x sound e
  apply_op-finds (attempt id outcome) db x h sound e = (x, ground arith, IsStep-refl x)
  apply_op-finds (checkpoint c) db x h sound e = (x, ground arith, IsStep-refl x)
  apply_op-finds (purge retention now clock) db x h sound e = cc
