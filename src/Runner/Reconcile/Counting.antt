-- ===== src/Runner/Reconcile/Counting.antt =====
-- The counters of a sweep, and what they count.
use study_assistance_agent.Prelude.{◌+◌, ◌≡◌, Bool, true, false, not, List, ◌∷◌, arith, count_if}
use study_assistance_agent.Runner.Reconcile.{Swept, ReconcileReport, count_swept}

-- Every examined effect is counted once more, for its outcome.
abbrev pub IsBalanced : ReconcileReport → Type 0
IsBalanced r = r.examined ≡ r.applied + r.failed + r.deferred + r.escalated

pub count_swept-IsBalanced :
    (s : Swept) (r : ReconcileReport) → IsBalanced r → IsBalanced (count_swept s r)
unfolding count_swept
count_swept-IsBalanced s r h = ground arith

abbrev pub was_skipped : Swept → Bool
was_skipped Swept.skipped = true
was_skipped _ = false

abbrev pub was_applied : Swept → Bool
was_applied Swept.applied = true
was_applied _ = false

abbrev pub was_failed : Swept → Bool
was_failed Swept.failed = true
was_failed _ = false

abbrev pub was_deferred : Swept → Bool
was_deferred Swept.deferred = true
was_deferred _ = false

abbrev pub was_escalated : Swept → Bool
was_escalated Swept.escalated = true
was_escalated _ = false

-- The report adds to an earlier one the number of the effects that were not skipped, and of those with
-- each outcome.
pub record Counts (outcomes : List Swept) (before after : ReconcileReport) : Type 0 where
  pub examined : after.examined ≡ before.examined + count_if (λ s. not (was_skipped s)) outcomes
  pub applied : after.applied ≡ before.applied + count_if was_applied outcomes
  pub failed : after.failed ≡ before.failed + count_if was_failed outcomes
  pub deferred : after.deferred ≡ before.deferred + count_if was_deferred outcomes
  pub escalated : after.escalated ≡ before.escalated + count_if was_escalated outcomes

pub count_swept-Counts :
    (s : Swept) (outcomes : List Swept) (before after : ReconcileReport)
    → Counts outcomes (count_swept s before) after
    → Counts (s ∷ outcomes) before after
unfolding count_swept
count_swept-Counts Swept.skipped outcomes before after c = record {
  examined = c.examined;
  applied = c.applied;
  failed = c.failed;
  deferred = c.deferred;
  escalated = c.escalated;
}
count_swept-Counts Swept.applied outcomes before after c = record {
  examined = omega (arith, c.examined);
  applied = omega (arith, c.applied);
  failed = c.failed;
  deferred = c.deferred;
  escalated = c.escalated;
}
count_swept-Counts Swept.failed outcomes before after c = record {
  examined = omega (arith, c.examined);
  applied = c.applied;
  failed = omega (arith, c.failed);
  deferred = c.deferred;
  escalated = c.escalated;
}
count_swept-Counts Swept.deferred outcomes before after c = record {
  examined = omega (arith, c.examined);
  applied = c.applied;
  failed = c.failed;
  deferred = omega (arith, c.deferred);
  escalated = c.escalated;
}
count_swept-Counts Swept.escalated outcomes before after c = record {
  examined = omega (arith, c.examined);
  applied = c.applied;
  failed = c.failed;
  deferred = c.deferred;
  escalated = omega (arith, c.escalated);
}
