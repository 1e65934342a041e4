-- ===== src/Runner/Recovery/Ending.antt =====
-- One step of `resume_job`: it returns, and ends the one effect.
use study_assistance_agent.Prelude.{
  String, str_eq, eq_iff, ◌≡◌, refl, Bool, true, not, inl, inr, none, some, List, [], ◌∷◌, arith,
  if◌then◌else◌, All, or_else, Bool-cases, find_row,
}
use study_assistance_agent.Prelude.Tables.Keys.{at_key}
use study_assistance_agent.Exec.{Result, ok, ◌>>=◌}
use study_assistance_agent.Runner.Effects.{
  EffectState, applied, failed, is_legal, is_terminal, is_pending,
}
use study_assistance_agent.Runner.Ledger.{
  Ledger, EffectRow, EffectRecord, find_effect, move_to, mark_failed, mark_applied,
}
use study_assistance_agent.Runner.Ledger.Moves.{transition-moves, transition-reads}
use study_assistance_agent.Runner.Ledger.Queues.{IsQueued, record_id}
use study_assistance_agent.Runner.Outcome.{EffectTerminal, Reason, EffectOutcome}
use study_assistance_agent.Runner.Authority.{is_revoked}
use study_assistance_agent.Runner.Recovery.Resume.{
  is_invalid, Answers, fail_effect, apply_effect, resume_effect,
}

abbrev pub is_open : EffectRecord → Bool
is_open e = not (is_terminal e.state)

-- The body has returned, and has ended the effect and changed no other.
pub record IsEnded (e : EffectRecord) (db : Ledger) (r : Result EffectOutcome × Ledger)
    : Type 0 where
  pub result : EffectOutcome
  pub returned : r.0 ≡ ok result
  pub row : EffectRow
  pub ended : is_terminal row.effect.state ≡ true
  pub reads :
      (k : String)
      → find_effect k r.1 ≡ (if str_eq e.effect_id k then some row else find_effect k db)

failed-legal : (s : EffectState) → not (is_terminal s) ≡ true → is_legal s failed ≡ true
unfolding is_legal is_terminal
failed-legal s h = ground arith

applied-legal : (s : EffectState) → is_pending s ≡ true → is_legal s applied ≡ true
unfolding is_legal is_pending
applied-legal s h = ground arith

module _ (e : EffectRecord) (db : Ledger) (q : IsQueued is_open db e) where
  pub fail_effect-IsEnded :
      (terminal : EffectTerminal) (reason : Reason)
      → IsEnded e db (fail_effect terminal reason e db)
  unfolding fail_effect mark_failed is_terminal ◌>>=◌
  fail_effect-IsEnded terminal reason =
      rw (transition-moves e db q failed none (failed-legal e.state q.holds)) (record {
        result = _;
        returned = refl;
        row = move_to failed none q.row;
        ended = unfold move_to in refl;
        reads = transition-reads e db q failed none;
      })

  apply_effect-IsEnded :
      (reason : Reason) → is_pending e.state ≡ true → IsEnded e db (apply_effect reason e db)
  unfolding apply_effect mark_applied is_terminal ◌>>=◌
  apply_effect-IsEnded reason h =
      rw
        (transition-moves e db q applied (some (or_else e.result_digest ""))
          (applied-legal e.state h))
        (record {
          result = _;
          returned = refl;
          row = move_to applied (some (or_else e.result_digest "")) q.row;
          ended = unfold move_to in refl;
          reads = transition-reads e db q applied (some (or_else e.result_digest ""));
        })

  pub resume_effect-IsEnded :
      (revocations : List String) (answers : Answers) (job_id : String)
      → IsEnded e db (resume_effect revocations answers job_id e db)
  unfolding resume_effect
  resume_effect-IsEnded revocations answers job_id =
      elim (Bool-cases (is_revoked job_id e.tool_name revocations)) [
        | inl h ↦
            rw (h, resume_effect)
              (fail_effect-IsEnded EffectTerminal.failed Reason.revoked_on_resume)
        | inr h ↦ elim (Bool-cases (is_invalid answers.revalidate e)) [
          | inl i ↦
              rw (h, resume_effect, i)
                (fail_effect-IsEnded EffectTerminal.failed Reason.revalidation_refused)
          | inr i ↦ elim (Bool-cases (is_pending e.state)) [
            | inr j ↦
                rw (h, resume_effect, i, j)
                  (fail_effect-IsEnded EffectTerminal.failed Reason.crashed_before_apply)
            | inl j ↦ elim (Bool-cases (answers.reconcile e)) [
              | inl k ↦
                  rw (h, resume_effect, i, j, k) (apply_effect-IsEnded Reason.reconciled_present j)
              | inr k ↦
                  rw (h, resume_effect, i, j, k)
                    (fail_effect-IsEnded EffectTerminal.failed Reason.reconciled_absent)
            ]
          ]
        ]
      ]

  -- An effect with another id is queued as before.
  pub requeued :
      (r : Result EffectOutcome × Ledger) (es : List EffectRecord)
      → IsEnded e db r
      → find_row (at_key record_id e.effect_id) es ≡ none
      → All (IsQueued is_open db) es
      → All (IsQueued is_open r.1) es
  unfolding find_row
  requeued r [] b n a = tt
  requeued r (x ∷ xs) b n a = (
    record {
      row = a.0.row;
      known = ground (
        arith,
        b.reads x.effect_id,
        a.0.known,
        eq_iff e.effect_id x.effect_id,
        eq_iff x.effect_id e.effect_id,
      );
      same = a.0.same;
      holds = a.0.holds;
    },
    requeued r xs b (ground arith) a.1,
  )
