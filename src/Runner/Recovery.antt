-- ===== src/Runner/Recovery.antt =====
-- `RunnerJobExecutor.execute_effect` of platform/app/runner_recovery.py: one effect through the
-- pipeline, from the proposal to the domain write. The crash hook, which also holds the kill switch
-- of platform/app/runner_service.py, is a function of the crash point: `some c` is the error that
-- it raises there. The domain write is a function of the domain's state; `none` is an exception.
pub mod Calls
pub mod Still
pub mod Windows
pub mod Once
pub mod Repeats
pub mod Resume
mod Ending
pub mod Settling
mod Tests
use study_assistance_agent.Prelude.{
  ℕ, suc, ◌≡◌, String, ◌+++◌, Bool, true, false, Option, none, some, List, [],
}
use study_assistance_agent.Exec.{Code, Exec, Result, ok, err, pure, raise, lift, gets, ◌>>=◌, ◌>>◌}
use study_assistance_agent.Runner.Effects.{EffectState}
use study_assistance_agent.Runner.Outcome.{CrashPoint, EffectTerminal, Reason, EffectOutcome}
use study_assistance_agent.Runner.Ledger.{
  Ledger, EffectRecord, begin_effect, authorize_effect, mark_pending, mark_applied, mark_failed,
  find_by_idempotency_key, Checkpoint,
}
use study_assistance_agent.Runner.Ledger.Checkpoints.{next_checkpoint_seq, record_checkpoint}
use study_assistance_agent.Runner.Authority.{
  Digests, AuthorizationRecord, Registry, Confirmation, argument_digest, idempotency_key, authorize,
}

-- What the executor is built with.
pub record Setup (Arguments : Type 0) : Type 0 where
  pub digests : Digests Arguments
  pub registry : Registry
  pub revocations : List String
  pub max_attempts : ℕ

-- The arguments of one call, with the hook as it is during the call and the clock's reading.
pub record Call (Arguments Domain : Type 0) : Type 0 where
  pub job_id : String
  pub effect_id : String
  pub tool_name : String
  pub arguments : Arguments
  pub permissions : List String
  pub confirmation : Option Confirmation
  pub scope_id : String
  pub apply : Domain → Option String × Domain
  pub crash_hook : CrashPoint → Option Code
  pub now : ℕ

-- The ledger's database, the domain's state, and `_applied_count`.
pub record World (Domain : Type 0) : Type 0 where
  pub ledger : Ledger
  pub domain : Domain
  pub applied_count : ℕ

-- `_terminal_for`
unfoldable pub terminal_for : EffectState → EffectTerminal
terminal_for EffectState.applied = EffectTerminal.applied
terminal_for EffectState.compensated = EffectTerminal.compensated
terminal_for _ = EffectTerminal.failed

abbrev pub outcome : EffectTerminal → Reason → String → EffectOutcome
outcome terminal reason id = record {
  terminal = terminal;
  reason = reason;
  effect_id = some id;
  replayed = false;
  applied_count = 0;
}

unfoldable pub replay_outcome : EffectRecord → EffectOutcome
unfolding terminal_for
replay_outcome existing = record {
  terminal = terminal_for existing.state;
  reason = Reason.idempotent_replay;
  effect_id = some existing.effect_id;
  replayed = true;
  applied_count = 0;
}

module _ {Domain A : Type 0} where
  -- A method of the store, called by the executor.
  unfoldable pub on_ledger : Exec Ledger A → Exec (World Domain) A
  on_ledger m w = ((m w.ledger).0, record w { ledger = (m w.ledger).1 })

module _ {Arguments Domain : Type 0} (setup : Setup Arguments) (call : Call Arguments Domain) where
  open setup use {digests, registry}
  open call use {job_id, effect_id, tool_name, arguments, scope_id, apply, crash_hook, now}

  unfoldable pub boundary : CrashPoint → Exec (World Domain) (Unit {0})
  boundary point w = elim (crash_hook point) [ none ↦ (ok tt, w) | some code ↦ (err code, w) ]

  unfoldable pub checkpoint : String → String → String → Exec (World Domain) (Unit {0})
  checkpoint stage input_digest state_digest = do
    seq ← gets (λ w. next_checkpoint_seq job_id w.ledger)
    on_ledger (
        record_checkpoint (record {
          checkpoint_id = effect_id +++ (":" +++ stage);
          job_id = job_id;
          seq = seq;
          stage = stage;
          input_digest = input_digest;
          state_digest = state_digest;
        }))

  -- The domain write has returned.
  unfoldable pub after_apply : String → String → Exec (World Domain) EffectOutcome
  after_apply input_digest result_digest = do
    boundary CrashPoint.after_apply_before_ledger
    on_ledger (mark_applied effect_id result_digest)
    boundary CrashPoint.after_ledger_before_checkpoint
    checkpoint "after_apply" input_digest "applied"
    count ← gets (λ w. w.applied_count)
    pure (record {
      terminal = EffectTerminal.applied;
      reason = Reason.applied;
      effect_id = some effect_id;
      replayed = false;
      applied_count = count;
    })

  -- `apply()`: an exception too may leave the domain changed.
  unfoldable pub call_apply : Exec (World Domain) (Option String)
  call_apply w = (ok (apply w.domain).0, record w { domain = (apply w.domain).1 })

  unfoldable pub count_apply : Exec (World Domain) (Unit {0})
  count_apply w = (ok tt, record w { applied_count = suc w.applied_count })

  unfoldable pub after_write : String → Option String → Exec (World Domain) EffectOutcome
  after_write input_digest none = do
    on_ledger (mark_failed effect_id)
    pure (outcome EffectTerminal.failed Reason.apply_failed effect_id)
  after_write input_digest (some result_digest) = do
    count_apply
    after_apply input_digest result_digest

  -- The write is authorized: up to the domain write.
  unfoldable pub prepare : String → Exec (World Domain) (Unit {0})
  prepare input_digest = do
    on_ledger (authorize_effect effect_id)
    boundary CrashPoint.after_authorize
    checkpoint "before_apply" input_digest "authorized"
    boundary CrashPoint.mid_checkpoint
    on_ledger (mark_pending effect_id)
    boundary CrashPoint.mid_apply

  -- What `authorize` has decided.
  unfoldable pub after_decision :
      String → Result AuthorizationRecord → Exec (World Domain) EffectOutcome
  after_decision input_digest (err code) = do
    on_ledger (mark_failed effect_id)
    pure (outcome EffectTerminal.failed (Reason.refused code) effect_id)
  after_decision input_digest (ok _) = do
    prepare input_digest
    result ← call_apply
    after_write input_digest result

  -- The key is not in the ledger.
  unfoldable pub new_effect : String → String → Exec (World Domain) EffectOutcome
  new_effect digest key = do
    entry ← on_ledger (begin_effect effect_id job_id tool_name digest key now)
    boundary CrashPoint.after_propose
    after_decision entry.argument_digest
        (authorize digests registry tool_name job_id arguments call.permissions call.confirmation
          []).0

  unfoldable pub after_lookup : String → Option EffectRecord → Exec (World Domain) EffectOutcome
  after_lookup key (some existing) = pure (replay_outcome existing)
  after_lookup key none = do
    digest ← lift (argument_digest digests arguments)
    new_effect digest key

  unfoldable pub execute_effect : Exec (World Domain) EffectOutcome
  execute_effect = do
    boundary CrashPoint.before_propose
    key ← lift (idempotency_key digests job_id tool_name arguments scope_id)
    existing ← gets (λ w. find_by_idempotency_key key w.ledger)
    after_lookup key existing
