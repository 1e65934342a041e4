-- ===== src/Exec.antt =====
-- Methods that change a store and may raise. What was written before a raise stays written, so the
-- state stands beside the error too.

-- The codes of `RunnerAuthorityError` and `EffectLedgerError`, and the other exceptions that leave
-- a modelled method.
pub data Code : Type 0 where
  ledger_schema_unsupported job_duplicate job_unknown idempotency_conflict effect_duplicate : Code
  effect_unknown effect_transition_invalid checkpoint_conflict retention_invalid : Code
  write_scope_invalid write_arguments_invalid write_confirmation_invalid : Code
  write_allowlist_overlap write_tool_not_allowed write_tool_not_write : Code
  write_tool_not_idempotent write_tool_duplicate write_tool_not_registered : Code
  write_capability_missing write_confirmation_required write_confirmation_mismatch : Code
  write_confirmation_argument_mismatch write_authorization_revoked : Code
  runner_killed injected_crash integrity_error value_error : Code
  session_not_found illegal_session_state service_failed index_error : Code
  job_budget_invalid job_concurrency_exceeded job_cancelled_by_caller job_killed
        job_deadline_exceeded :
      Code
  job_cpu_exceeded job_disk_exceeded job_steps_invalid step_failed plan_not_found
        illegal_plan_progress_event :
      Code

pub data Result {ℓ} (A : Type ℓ) : Type ℓ where
  ok : A → Result A
  err : Code → Result A

abbrev pub Exec {ℓ} : Type ℓ → Type ℓ → Type ℓ
Exec S A = S → Result A × S

module _ {ℓ} {S A : Type ℓ} where
  unfoldable pub pure : A → Exec S A
  pure a s = (ok a, s)

  unfoldable pub raise : Code → Exec S A
  raise c s = (err c, s)

  unfoldable pub lift : Result A → Exec S A
  lift r s = (r, s)

  unfoldable pub gets : (S → A) → Exec S A
  gets f s = (ok (f s), s)

module _ {ℓ} {S A B : Type ℓ} where
  -- The rest of a block, after its first action has ended.
  abbrev pub rest_of : (A → Exec S B) → Result A → Exec S B
  rest_of f (ok a) s = f a s
  rest_of f (err c) s = (err c, s)

  infixl 10 ◌>>=◌ ◌>>◌
  -- To unfold it is to run the other ways to build an action too.
  unfoldable pub ◌>>=◌ : Exec S A → (A → Exec S B) → Exec S B
  unfolding pure raise lift gets
  ◌>>=◌ m f s = rest_of f (m s).0 (m s).1

  abbrev pub ◌>>◌ : Exec S A → Exec S B → Exec S B
  m >> n = m >>= λ _. n
