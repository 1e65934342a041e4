-- ===== src/Runner/Recovery/Settling.antt =====
-- `resume_job` ends every unfinished effect of the job, and touches no other effect.
use mathlib.Core.List.{Memᴰ}
use study_assistance_agent.Prelude.{
  String, str_eq, eq_iff, ◌≡◌, refl, true, false, not, ◌&&◌, inl, inr, none, some, List, [], ◌∷◌,
  arith, All, Bool-cases, find_row,
}
use study_assistance_agent.Prelude.Tables.Keys.{at_key, IsKeyed}
use study_assistance_agent.Exec.{Exec, Result, ok, pure, ◌>>=◌}
use study_assistance_agent.Runner.Effects.{is_terminal}
use study_assistance_agent.Runner.Ledger.{
  Ledger, EffectRow, EffectRecord, find_effect, unfinished_effects, get_job_state,
}
use study_assistance_agent.Runner.Ledger.Reads.{id_of, id_of-find_effect}
use study_assistance_agent.Runner.Ledger.Trail.{IsSound}
use study_assistance_agent.Runner.Ledger.Moves.{queued_row}
use study_assistance_agent.Runner.Ledger.Queues.{
  IsQueued, record_id, mem-none, effects_where-IsQueued, effects_where-IsKeyed, mem-effects_where,
}
use study_assistance_agent.Runner.Outcome.{EffectTerminal, Reason, EffectOutcome}
use study_assistance_agent.Runner.Recovery.Resume.{
  Answers, is_cancelled, cancel_effect, resume_effect, resume_effects, resume_job,
}
use study_assistance_agent.Runner.Recovery.Ending.{
  is_open, IsEnded, fail_effect-IsEnded, resume_effect-IsEnded, requeued,
}

-- The loop has returned. A row of the job that is open after it was there before, and its effect was
-- not in the list; every row that was not open, or was of another job, is still there.
record IsSettled (job_id : String) (es : List EffectRecord) (db : Ledger)
    (r : Result (List EffectOutcome) × Ledger) : Type 0 where
  outcomes : List EffectOutcome
  returned : r.0 ≡ ok outcomes
  left :
      (k : String) (x : EffectRow)
      → find_effect k r.1 ≡ some x
      → str_eq x.effect.job_id job_id ≡ true
      → is_open x.effect ≡ true
      → (find_effect k db ≡ some x) × (find_row (at_key record_id k) es ≡ none)
  kept :
      (k : String) (x : EffectRow)
      → find_effect k db ≡ some x
      → (str_eq x.effect.job_id job_id && is_open x.effect) ≡ false
      → find_effect k r.1 ≡ some x

module _ (body : EffectRecord → Exec Ledger EffectOutcome) (job_id : String)
    (ends : (e : EffectRecord) (db : Ledger)
      → IsQueued is_open db e
      → IsEnded e db (body e db)) where
  resume_effects-cons :
      (e : EffectRecord) (es : List EffectRecord) (db : Ledger) (o : EffectOutcome)
      (os : List EffectOutcome)
      → str_eq e.job_id job_id ≡ true
      → (body e db).0 ≡ ok o
      → (resume_effects body job_id es (body e db).1).0 ≡ ok os
      → resume_effects body job_id (e ∷ es) db
        ≡ (ok (o ∷ os), (resume_effects body job_id es (body e db).1).1)
  unfolding resume_effects ◌>>=◌
  resume_effects-cons e es db o os h b r = rw (h, b, r)

  cons-IsSettled :
      (e : EffectRecord) (es : List EffectRecord) (db : Ledger)
      → str_eq e.job_id job_id ≡ true
      → IsQueued is_open db e
      → IsEnded e db (body e db)
      → IsSettled job_id es (body e db).1 (resume_effects body job_id es (body e db).1)
      → IsSettled job_id (e ∷ es) db (resume_effects body job_id (e ∷ es) db)
  unfolding find_row
  cons-IsSettled e es db h q b ih =
      rw (resume_effects-cons e es db b.result ih.outcomes h b.returned ih.returned) (record {
        outcomes = b.result ∷ ih.outcomes;
        returned = refl;
        left = λ k x f j o.
            let (f', n') = ih.left k x f j o in ground (arith, b.reads k, f', n', b.ended, o);
        kept = λ k x f n.
            ih.kept k x (ground (arith, b.reads k, f, queued_row e db q k x f, n, h, q.holds)) n;
      })

  resume_effects-IsSettled :
      (es : List EffectRecord) (db : Ledger)
      → All (IsQueued is_open db) es
      → IsKeyed record_id es
      → IsSettled job_id es db (resume_effects body job_id es db)
  unfolding resume_effects find_row pure
  resume_effects-IsSettled [] db a k = record {
    outcomes = [];
    returned = refl;
    left = λ k x f j o. (f, refl);
    kept = λ k x f n. f;
  }
  resume_effects-IsSettled (e ∷ es) db a k = elim (Bool-cases (str_eq e.job_id job_id)) [
    | inl h ↦
        let b = ends e db a.0 in
        cons-IsSettled e es db h a.0 b (
          resume_effects-IsSettled es (body e db).1 (requeued e db a.0 (body e db) es b k.0 a.1)
            k.1)
    | inr h ↦
        let ih = resume_effects-IsSettled es db a.1 k.1 in
        rw (h, resume_effects)
          (record {
            outcomes = ih.outcomes;
            returned = ih.returned;
            kept = ih.kept;
            left = λ k x f j o.
                let (f', n') = ih.left k x f j o in
                ground (arith, f', n', queued_row e db a.0 k x f', j, h);
          })
  ]

cancel_effect-IsEnded :
    (e : EffectRecord) (db : Ledger) → IsQueued is_open db e → IsEnded e db (cancel_effect e db)
unfolding cancel_effect
cancel_effect-IsEnded e db q =
    fail_effect-IsEnded e db q EffectTerminal.cancelled Reason.cancelled_on_resume

-- Where the list had every open effect, none of the job is left.
settled :
    (job_id : String) (db : Ledger) {es : List EffectRecord}
    (r : Result (List EffectOutcome) × Ledger)
    → ((id : String) (row : EffectRow)
        → find_effect id db ≡ some row
        → is_open row.effect ≡ true
        → Memᴰ row.effect es)
    → IsSettled job_id es db r
    → ((outcomes : List EffectOutcome) × (r.0 ≡ ok outcomes))
      × ((id : String) (row : EffectRow)
          → find_effect id r.1 ≡ some row
          → str_eq row.effect.job_id job_id ≡ true
          → is_terminal row.effect.state ≡ true)
      × ((id : String) (row : EffectRow)
          → find_effect id db ≡ some row
          → (str_eq row.effect.job_id job_id && not (is_terminal row.effect.state)) ≡ false
          → find_effect id r.1 ≡ some row)
settled job_id db {es} r all s = (
  (s.outcomes, s.returned),
  (λ id row f j. elim (Bool-cases (is_terminal row.effect.state)) [
    | inl e ↦ e
    | inr e ↦
        let (f', n) = s.left id row f j (rw e) in
        let other = mem-none (at_key record_id id) row.effect es (all id row f' (rw e)) n in
        absurd (ground (arith, other, id_of-find_effect id row db f', eq_iff (id_of row) id))
  ]),
  s.kept,
)

-- On a sound ledger, `resume_job` returns, whatever the caller answers. No effect of the job is then
-- unfinished, and every effect that was terminal, or is of another job, has the row that it had.
pub resume_job-settles :
    (revocations : List String) (answers : Answers) (job_id : String) (db : Ledger)
    → IsSound db
    → let r = resume_job revocations answers job_id db in
      ((outcomes : List EffectOutcome) × (r.0 ≡ ok outcomes))
      × ((id : String) (row : EffectRow)
          → find_effect id r.1 ≡ some row
          → str_eq row.effect.job_id job_id ≡ true
          → is_terminal row.effect.state ≡ true)
      × ((id : String) (row : EffectRow)
          → find_effect id db ≡ some row
          → (str_eq row.effect.job_id job_id && not (is_terminal row.effect.state)) ≡ false
          → find_effect id r.1 ≡ some row)
unfolding resume_job unfinished_effects
resume_job-settles revocations answers job_id db sound =
    let queue = effects_where-IsQueued is_open db sound.keyed in
    let keyed = effects_where-IsKeyed is_open db sound.keyed in
    elim (Bool-cases (is_cancelled (get_job_state job_id db))) [
      | inl h ↦
          rw (h, resume_job)
            (settled job_id db _ (λ id row f o. mem-effects_where is_open db id row f o)
              (resume_effects-IsSettled cancel_effect job_id cancel_effect-IsEnded _ db queue
                keyed))
      | inr h ↦
          rw (h, resume_job)
            (settled job_id db _ (λ id row f o. mem-effects_where is_open db id row f o)
              (resume_effects-IsSettled (resume_effect revocations answers job_id) job_id
                (λ e db' q. resume_effect-IsEnded e db' q revocations answers job_id) _ db queue
                keyed))
    ]
