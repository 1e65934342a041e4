-- ===== src/Runner/Ledger/Replays.antt =====
-- Effects over many calls: an effect that failed or was compensated stays as it is, and a key is
-- never used for a second effect.
use study_assistance_agent.Prelude.{
  ℕ, String, str_eq, eq_iff, ◌≡◌, refl, ◌∙◌, Bool, true, false, ◌&&◌, ◌⊎◌, inl, inr, Option, none,
  some, List, [], ◌∷◌, arith, if◌then◌else◌, any, Option-cases, find_row, find_row-append,
}
use study_assistance_agent.Exec.{ok, err, idempotency_conflict}
use study_assistance_agent.Runner.Effects.{EffectState, failed, compensated, is_legal, has_started}
use study_assistance_agent.Runner.Ledger.{
  Ledger, EffectRow, EffectRecord, find_effect, find_key, has_id, has_key, begin_effect, move_to,
  append_event, replay_effect,
}
use study_assistance_agent.Runner.Ledger.Trail.{IsSound}
use study_assistance_agent.Runner.Ledger.Reads.{key_of}
use study_assistance_agent.Runner.Ledger.Soundness.{
  begin_effect-IsSound, insert_effect-cases, with_row, new_row,
}
use study_assistance_agent.Runner.Ledger.Operations.{Op, apply_op, run_ops, apply_op-IsSound}
use study_assistance_agent.Runner.Ledger.Steps.{IsStep, is_purge, apply_op-finds}

abbrev pub IsFinal : EffectState → Type 0
IsFinal s = (s ≡ failed) ⊎ (s ≡ compensated)

-- The same effect, later: its row is as it was if its state was final, and past `authorized` if it
-- was so before.
pub record IsLater (a b : EffectRow) : Type 0 where
  pub same_id : b.effect.effect_id ≡ a.effect.effect_id
  pub same_job : b.effect.job_id ≡ a.effect.job_id
  pub same_tool : b.effect.tool_name ≡ a.effect.tool_name
  pub same_digest : b.effect.argument_digest ≡ a.effect.argument_digest
  pub same_key : b.effect.idempotency_key ≡ a.effect.idempotency_key
  pub final : IsFinal a.effect.state → b ≡ a
  pub started : has_started a.effect.state ≡ true → has_started b.effect.state ≡ true

final-no_step : (s t : EffectState) → IsFinal s → is_legal s t ≡ true → ⊥
unfolding is_legal
final-no_step s t f l = ground arith

started-step :
    (s t : EffectState) → has_started s ≡ true → is_legal s t ≡ true → has_started t ≡ true
unfolding is_legal has_started
started-step s t h l = ground arith

IsLater-refl : (a : EffectRow) → IsLater a a
IsLater-refl a = ground arith

IsLater-step : (a b c : EffectRow) → IsStep a b → IsLater b c → IsLater a c
IsLater-step a b c s l = record {
  same_id = cc (s.same_id, l.same_id);
  same_job = cc (s.same_job, l.same_job);
  same_tool = cc (s.same_tool, l.same_tool);
  same_digest = cc (s.same_digest, l.same_digest);
  same_key = cc (s.same_key, l.same_key);
  final = λ f. elim s.moved [
    | inl e ↦ l.final (rw e f) ∙ e
    | inr m ↦ absurd (final-no_step a.effect.state b.effect.state f m)
  ];
  started = λ h.
      l.started
        (elim s.moved [ inl e ↦ rw e h | inr m ↦ started-step a.effect.state b.effect.state h m ]);
}

module _ (p : EffectRow → Bool)
    (fixed : (t : EffectState) (d : Option String) (y : EffectRow) → p (move_to t d y) ≡ p y) where
  run_ops-finds :
      (ops : List Op) (db : Ledger) (x : EffectRow)
      → any is_purge ops ≡ false
      → IsSound db
      → find_row p db.effects ≡ some x
      → (y : EffectRow) × (find_row p (run_ops ops db).effects ≡ some y) × IsLater x y
  unfolding run_ops
  run_ops-finds [] db x n sound e = (x, e, IsLater-refl x)
  run_ops-finds (op ∷ ops) db x n sound e =
      let (y, found, step) = apply_op-finds p fixed op db x (ground arith) sound e in
      let (z, last, later) =
        run_ops-finds ops (apply_op op db) y (ground arith) (apply_op-IsSound op db sound) found in
      (z, last, IsLater-step x y z step later)

-- On a sound ledger, calls that do not purge keep every effect: its row is found again, with the
-- same job, tool, argument digest and key, and it is the same row if it had failed or had been
-- compensated.
pub run_ops-keeps_effect :
    (ops : List Op) (db : Ledger) (id : String) (x : EffectRow)
    → any is_purge ops ≡ false
    → IsSound db
    → find_effect id db ≡ some x
    → (y : EffectRow) × (find_effect id (run_ops ops db) ≡ some y) × IsLater x y
unfolding find_effect
run_ops-keeps_effect ops db id x n sound e =
    run_ops-finds (has_id id) (λ t d y. unfold move_to in refl) ops db x n sound e

pub run_ops-keeps_key :
    (ops : List Op) (db : Ledger) (key : String) (x : EffectRow)
    → any is_purge ops ≡ false
    → IsSound db
    → find_key key db ≡ some x
    → (y : EffectRow) × (find_key key (run_ops ops db) ≡ some y) × IsLater x y
unfolding find_key
run_ops-keeps_key ops db key x n sound e =
    run_ops-finds (has_key key) (λ t d y. unfold move_to in refl) ops db x n sound e

replay_effect-ok :
    (tool_name digest : String) (x e : EffectRecord) (db : Ledger)
    → (replay_effect tool_name digest x db).0 ≡ ok e
    → (replay_effect tool_name digest x db ≡ (ok e, db))
      × (x ≡ e)
      × (e.tool_name ≡ tool_name)
      × (e.argument_digest ≡ digest)
unfolding replay_effect
replay_effect-ok tool_name digest x e db h =
    ground (arith, eq_iff x.argument_digest digest, eq_iff x.tool_name tool_name)

-- A new row is the one that its key finds, where the key was free.
find_key-with_row :
    (row : EffectRow) (db : Ledger)
    → find_key (key_of row) db ≡ none
    → find_key (key_of row) (with_row row db) ≡ some row
unfolding find_key append_event find_row
find_key-with_row row db free = ground (
  arith,
  find_row-append (has_key (key_of row)) db.effects (row ∷ []),
  eq_iff (key_of row) (key_of row),
)

module _ (id job_id tool_name digest key : String) (now : ℕ) (db : Ledger) where
  -- A call that returns has left a row with the call's key, tool and arguments.
  pub begin_effect-key :
      (e : EffectRecord)
      → (begin_effect id job_id tool_name digest key now db).0 ≡ ok e
      → (row : EffectRow) × (find_key key (begin_effect id job_id tool_name digest key now db).1
          ≡ some row)
        × (row.effect ≡ e)
        × (e.tool_name ≡ tool_name)
        × (e.argument_digest ≡ digest)
  unfolding begin_effect
  begin_effect-key e h = elim (Option-cases (find_key key db)) [
    | inr (row, found) ↦
        let h' : (replay_effect tool_name digest row.effect db).0 ≡ ok e =
          rw (found, begin_effect) at h in
        let (same, is, tool, args) = replay_effect-ok tool_name digest row.effect e db h' in
        (row, rw (found, begin_effect, same) found, is, tool, args)
    | inl free ↦ elim (insert_effect-cases (new_row id job_id tool_name digest key now) db) [
      | inl refused ↦ cc (rw (free, begin_effect, refused) at h)
      | inr (new, begun) ↦
          let h' : ok (new_row id job_id tool_name digest key now).effect ≡ ok e =
            rw (free, begin_effect, begun) at h in
          (
            new_row id job_id tool_name digest key now,
            rw (free, begin_effect, begun)
                (find_key-with_row (new_row id job_id tool_name digest key now) db free),
            cc h',
            cc h',
            cc h',
          )
    ]
  ]

replay_effect-lem :
    (tool_name digest : String) (x : EffectRecord) (db : Ledger)
    → replay_effect tool_name digest x db ≡ (
      if str_eq x.argument_digest digest && str_eq x.tool_name tool_name
          then ok x
          else err idempotency_conflict,
      db,
    )
unfolding replay_effect
replay_effect-lem tool_name digest x db = ground arith

-- A key that was used once on a sound ledger is used for one effect only. After any calls that do
-- not purge, a second `begin_effect` under the key leaves the ledger as it is, whatever its effect
-- id and job: with the same tool and argument digest it returns the effect of the first call, and
-- otherwise it is refused as a conflict.
pub begin_effect-replays :
    (id id' job_id job_id' tool_name tool_name' digest digest' key : String) (now now' : ℕ)
    (db : Ledger) (e : EffectRecord) (ops : List Op)
    → IsSound db
    → (begin_effect id job_id tool_name digest key now db).0 ≡ ok e
    → any is_purge ops ≡ false
    → let later = run_ops ops (begin_effect id job_id tool_name digest key now db).1 in
      (e' : EffectRecord) × (e'.effect_id ≡ e.effect_id)
      × (begin_effect id' job_id' tool_name' digest' key now' later ≡ (
        if str_eq digest digest' && str_eq tool_name tool_name'
            then ok e'
            else err idempotency_conflict,
        later,
      ))
unfolding begin_effect
begin_effect-replays id id' job_id job_id' tool_name tool_name' digest digest' key now now' db e ops
      sound h n =
    let first = begin_effect id job_id tool_name digest key now db in
    let (row, found, is, tool, args) = begin_effect-key id job_id tool_name digest key now db e h in
    let (last, known, later) =
      run_ops-keeps_key ops first.1 key row n
        (begin_effect-IsSound id job_id tool_name digest key now db sound) found in
    (
      last.effect,
      cc (later.same_id, is),
      rw (known, begin_effect)
          (replay_effect-lem tool_name' digest' last.effect (run_ops ops first.1)
            ∙ cc (later.same_tool, later.same_digest, is, tool, args)),
    )
