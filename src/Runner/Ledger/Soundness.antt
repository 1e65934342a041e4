-- ===== src/Runner/Ledger/Soundness.antt =====
-- Every method of the ledger keeps the histories of its effects.
use study_assistance_agent.Prelude.{
  ℕ, String, str_eq, eq_iff, ◌≡◌, refl, ◌⊎◌, inl, inr, none, some, [], ◌∷◌, ◌++◌, arith,
  if◌then◌else◌, is_some, Bool-cases, Option-cases, find_row, find_row-append,
}
use study_assistance_agent.Prelude.Tables.Keys.{IsKeyed-append}
use study_assistance_agent.Exec.{ok, err, effect_duplicate}
use study_assistance_agent.Runner.Effects.{proposed}
use study_assistance_agent.Runner.Ledger.{
  Ledger, EffectRow, EffectRecord, find_effect, find_job, events, append_event, begin_effect,
  find_key, insert_effect, replay_effect,
}
use study_assistance_agent.Runner.Ledger.Reads.{id_of, events-append_event}
use study_assistance_agent.Runner.Ledger.Trail.{IsSound}

-- A new row of `effect_ledger`.
abbrev pub new_row : String → String → String → String → String → ℕ → EffectRow
new_row id job_id tool_name argument_digest key now = record {
  effect = record {
    effect_id = id;
    job_id = job_id;
    tool_name = tool_name;
    argument_digest = argument_digest;
    idempotency_key = key;
    state = proposed;
    result_digest = none;
  };
  created_at = now;
}

abbrev pub with_row : EffectRow → Ledger → Ledger
with_row row db =
    append_event (id_of row) none proposed (record db { effects = db.effects ++ row ∷ [] })

module _ (row : EffectRow) (db : Ledger) where
  pub find_effect-with_row :
      (k : String)
      → find_effect (id_of row) db ≡ none
      → find_effect k (with_row row db)
        ≡ (if str_eq (id_of row) k then some row else find_effect k db)
  unfolding find_effect append_event find_row
  find_effect-with_row k h = ground (
    arith,
    find_row-append (λ (x : EffectRow). str_eq (id_of x) k) db.effects (row ∷ []),
    eq_iff (id_of row) k,
  )

  pub events-with_row :
      (k : String)
      → events k (with_row row db)
        ≡ (if str_eq (id_of row) k then events k db ++ (none, proposed) ∷ [] else events k db)
  unfolding events append_event
  events-with_row k = events-append_event k (id_of row) none proposed db

  pub with_row-IsSound :
      find_effect (id_of row) db ≡ none
      → row.effect.state ≡ proposed
      → IsSound db
      → IsSound (with_row row db)
  with_row-IsSound new first sound = record {
    keyed = unfold append_event find_effect in IsKeyed-append id_of row db.effects sound.keyed new;
    traced = λ k x h. ground (
      arith,
      find_effect-with_row k new,
      events-with_row k,
      eq_iff (id_of row) k,
      sound.traced k x,
      sound.untraced (id_of row) new,
    );
    untraced =
        λ k h. ground (arith, find_effect-with_row k new, events-with_row k, sound.untraced k);
  }

replay_effect-state :
    (tool_name argument_digest : String) (existing : EffectRecord) (db : Ledger)
    → (replay_effect tool_name argument_digest existing db).1 ≡ db
unfolding replay_effect
replay_effect-state tool_name argument_digest existing db = ground arith

pub insert_effect-cases :
    (row : EffectRow) (db : Ledger)
    → (insert_effect row.effect row.created_at db ≡ (err effect_duplicate, db))
      ⊎ ((find_effect (id_of row) db ≡ none)
          × (insert_effect row.effect row.created_at db ≡ (ok row.effect, with_row row db)))
unfolding insert_effect
insert_effect-cases row db = elim (Option-cases (find_effect (id_of row) db)) [
  | inr (old, e) ↦ inl (rw (e, insert_effect))
  | inl e ↦ elim (Bool-cases (is_some (find_job row.effect.job_id db))) [
    | inl j ↦ inr (e, rw (e, j, insert_effect))
    | inr j ↦ inl (rw (e, insert_effect, j))
  ]
]

module _ (id job_id tool_name argument_digest key : String) (now : ℕ) (db : Ledger) where
  -- What a call of `begin_effect` has done: nothing, or one new row with a key of its own.
  pub begin_effect-cases :
      ((begin_effect id job_id tool_name argument_digest key now db).1 ≡ db)
      ⊎ ((find_key key db ≡ none)
          × (find_effect id db ≡ none)
          × (begin_effect id job_id tool_name argument_digest key now db ≡ (
            ok (new_row id job_id tool_name argument_digest key now).effect,
            with_row (new_row id job_id tool_name argument_digest key now) db,
          )))
  unfolding begin_effect
  begin_effect-cases = elim (Option-cases (find_key key db)) [
    | inr (row, e) ↦
        inl (rw (e, begin_effect) (replay_effect-state tool_name argument_digest row.effect db))
    | inl e ↦ elim (insert_effect-cases (new_row id job_id tool_name argument_digest key now) db) [
      | inl same ↦ inl (rw (e, begin_effect, same))
      | inr (new, begun) ↦ inr (e, new, rw (e, begin_effect) begun)
    ]
  ]

  pub begin_effect-IsSound :
      IsSound db → IsSound (begin_effect id job_id tool_name argument_digest key now db).1
  begin_effect-IsSound sound = elim begin_effect-cases [
    | inl same ↦ rw same sound
    | inr (free, new, begun) ↦ rw begun (with_row-IsSound _ db new refl sound)
  ]
