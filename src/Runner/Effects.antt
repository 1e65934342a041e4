-- ===== src/Runner/Effects.antt =====
-- `EffectState` and `_LEGAL_TRANSITIONS` of platform/app/runner_authority.py, with
-- `assert_transition_allowed`.
use study_assistance_agent.Prelude.{Bool, true, false, if◌then◌else◌}
use study_assistance_agent.Exec.{Result, ok, err, effect_transition_invalid}

pub data EffectState : Type 0 where
  proposed authorized pending applied failed compensated : EffectState

-- `target in _LEGAL_TRANSITIONS[current]`
unfoldable pub is_legal : EffectState → EffectState → Bool
is_legal proposed authorized = true
is_legal proposed failed = true
is_legal authorized pending = true
is_legal authorized failed = true
is_legal authorized compensated = true
is_legal pending applied = true
is_legal pending failed = true
is_legal applied compensated = true
is_legal _ _ = false

unfoldable pub assert_transition_allowed : EffectState → EffectState → Result (Unit {0})
unfolding is_legal
assert_transition_allowed current target =
    if is_legal current target then ok tt else err effect_transition_invalid

-- The tuple `terminal` of `unfinished_effects` and `purge_expired`.
unfoldable pub is_terminal : EffectState → Bool
is_terminal applied = true
is_terminal failed = true
is_terminal compensated = true
is_terminal _ = false

unfoldable pub is_pending : EffectState → Bool
is_pending pending = true
is_pending _ = false

unfoldable pub is_failed : EffectState → Bool
is_failed failed = true
is_failed _ = false

-- The domain write may have run: the row has been `pending`, or the effect has ended.
unfoldable pub has_started : EffectState → Bool
has_started proposed = false
has_started authorized = false
has_started _ = true
