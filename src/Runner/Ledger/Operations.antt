-- ===== src/Runner/Ledger/Operations.antt =====
-- The ledger under any sequence of calls of its methods.
use study_assistance_agent.Prelude.{
  ℕ, String, ◌≡◌, refl, Option, none, List, [], ◌∷◌, length, ◌≤◌, ◌+◌, arith, some, inl, inr,
  Option-cases, find_row, select,
}
use study_assistance_agent.Runner.Effects.{
  EffectState, proposed, authorized, pending, applied, failed, compensated, is_legal,
}
use study_assistance_agent.Runner.Ledger.{
  Ledger, Checkpoint, empty_ledger, create_job, set_job_state, begin_effect, transition,
  record_reconcile_attempt, events, find_effect,
}
use study_assistance_agent.Runner.Ledger.Checkpoints.{record_checkpoint}
use study_assistance_agent.Runner.Ledger.Retention.{Stamp, purge_expired}
use study_assistance_agent.Runner.Ledger.Trail.{
  History, IsPath, IsTrail, IsSound, transition-IsSound,
}
use study_assistance_agent.Runner.Ledger.Soundness.{begin_effect-IsSound}
use study_assistance_agent.Runner.Ledger.Purging.{purge_expired-IsSound}

-- One call of a method that writes, with its arguments.
pub data Op : Type 0 where
  create : String → String → String → ℕ → Op
  set_state : String → String → Op
  begin : String → String → String → String → String → ℕ → Op
  step : String → EffectState → Option String → Op
  attempt : String → String → Op
  checkpoint : Checkpoint → Op
  purge : Option ℕ → Option Stamp → ℕ → Op

unfoldable pub apply_op : Op → Ledger → Ledger
apply_op (create id scope_id learner_id now) db = (create_job id scope_id learner_id now db).1
apply_op (set_state id state) db = (set_job_state id state db).1
apply_op (begin id job_id tool_name argument_digest key now) db =
    (begin_effect id job_id tool_name argument_digest key now db).1
apply_op (step id target digest) db = (transition id target digest db).1
apply_op (attempt id outcome) db = (record_reconcile_attempt id outcome db).1
apply_op (checkpoint c) db = (record_checkpoint c db).1
apply_op (purge retention now clock) db = (purge_expired retention now clock db).1

-- Calls one after another, whether they raise or not.
unfoldable pub run_ops : List Op → Ledger → Ledger
unfolding apply_op
run_ops [] db = db
run_ops (op ∷ ops) db = run_ops ops (apply_op op db)

-- Soundness speaks of the effects and their events only.
same_effects : (a b : Ledger) → a.effects ≡ b.effects → a.events ≡ b.events → IsSound a → IsSound b
unfolding find_effect events
same_effects a b e h sound = record {
  keyed = rw (← e) sound.keyed;
  traced = λ id row f. rw (← h) (sound.traced id row (rw e f));
  untraced = λ id f. rw (← h) (sound.untraced id (rw e f));
}

pub apply_op-IsSound : (op : Op) (db : Ledger) → IsSound db → IsSound (apply_op op db)
unfolding apply_op create_job set_job_state record_reconcile_attempt record_checkpoint
apply_op-IsSound (create id scope_id learner_id now) db h =
    same_effects db _ (ground arith) (ground arith) h
apply_op-IsSound (set_state id state) db h = same_effects db _ (ground arith) (ground arith) h
apply_op-IsSound (begin id job_id tool_name argument_digest key now) db h =
    begin_effect-IsSound id job_id tool_name argument_digest key now db h
apply_op-IsSound (step id target digest) db h = transition-IsSound id target digest db h
apply_op-IsSound (attempt id outcome) db h = same_effects db _ (ground arith) (ground arith) h
apply_op-IsSound (checkpoint c) db h = same_effects db _ (ground arith) (ground arith) h
apply_op-IsSound (purge retention now clock) db h = purge_expired-IsSound retention now clock db h

pub run_ops_from-IsSound : (ops : List Op) (db : Ledger) → IsSound db → IsSound (run_ops ops db)
unfolding run_ops
run_ops_from-IsSound [] db h = h
run_ops_from-IsSound (op ∷ ops) db h =
    run_ops_from-IsSound ops (apply_op op db) (apply_op-IsSound op db h)

empty_ledger-IsSound : IsSound empty_ledger
unfolding find_effect events find_row select
empty_ledger-IsSound = record { keyed = tt; traced = λ id row h. cc; untraced = λ id h. refl }

-- Whatever calls are made on a new ledger, failing or not, in any order: no two effects have one
-- id, and the recorded events of every effect begin with its proposal and follow legal
-- transitions to the state in its row; an id without a row has no events.
pub run_ops-IsSound : (ops : List Op) → IsSound (run_ops ops empty_ledger)
run_ops-IsSound ops = run_ops_from-IsSound ops empty_ledger empty_ledger-IsSound

rank : EffectState → ℕ
rank proposed = 0
rank authorized = 1
rank pending = 2
rank applied = 3
rank failed = 4
rank compensated = 4

length-path : (s t : EffectState) (h : History) → IsPath s h t → rank s + length h ≤ 4
unfolding rank is_legal
length-path s t [] p = ground arith
length-path s t ((none, b) ∷ h) p = absurd p
length-path s t ((some a, b) ∷ h) p = ground (arith, length-path b t h p.2)

length-trail : (t : EffectState) (h : History) → IsTrail h t → length h ≤ 5
length-trail t [] p = absurd p
length-trail t ((some a, b) ∷ h) p = absurd p
length-trail t ((none, b) ∷ h) p = omega (arith, length-path b t h p.1)

-- Under any calls on a new ledger, no effect ever has more than five events.
pub length-events :
    (ops : List Op) (id : String) → length (events id (run_ops ops empty_ledger)) ≤ 5
length-events ops id =
    let sound = run_ops-IsSound ops in
    elim (Option-cases (find_effect id (run_ops ops empty_ledger))) [
      | inl e ↦ rw (sound.untraced id e) (omega arith)
      | inr (row, e) ↦
          length-trail row.effect.state (events id (run_ops ops empty_ledger))
            (sound.traced id row e)
    ]
