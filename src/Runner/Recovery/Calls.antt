-- ===== src/Runner/Recovery/Calls.antt =====
-- `execute_effect` changes the ledger only by calls of the ledger's methods, and never purges.
use study_assistance_agent.Prelude.{inl, inr, Option, none, some, String, Option-cases}
use study_assistance_agent.Exec.{Exec, Result, ok, err, pure, lift, gets, ◌>>=◌, rest_of}
use study_assistance_agent.Runner.Ledger.{
  Ledger, authorize_effect, mark_pending, mark_applied, mark_failed, EffectRecord,
}
use study_assistance_agent.Runner.Ledger.Called.{
  IsCalled, IsCalled-refl, IsCalled-trans, IsCalled-begin, IsCalled-transition, IsCalled-checkpoint,
}
use study_assistance_agent.Runner.Authority.{AuthorizationRecord}
use study_assistance_agent.Runner.Outcome.{CrashPoint}
use study_assistance_agent.Runner.Recovery.{
  World, Setup, Call, on_ledger, boundary, checkpoint, after_apply, call_apply, count_apply,
  after_write, after_decision, after_lookup, prepare, new_effect, execute_effect,
}

-- However the action ends, the ledger is then reached by calls.
pub record Follows {D A : Type 0} (m : Exec (World D) A) : Type 0 where
  pub at : (w : World D) → IsCalled w.ledger (m w).1.ledger

module _ {D A : Type 0} where
  pub Follows-pure : (a : A) → Follows {D = D} (pure a)
  unfolding pure
  Follows-pure a = record { at = λ w. IsCalled-refl w.ledger }

  pub Follows-lift : (r : Result A) → Follows {D = D} (lift r)
  unfolding lift
  Follows-lift r = record { at = λ w. IsCalled-refl w.ledger }

  pub Follows-gets : (f : World D → A) → Follows (gets f)
  unfolding gets
  Follows-gets f = record { at = λ w. IsCalled-refl w.ledger }

  pub Follows-on_ledger :
      (m : Exec Ledger A) → ((db : Ledger) → IsCalled db (m db).1) → Follows {D = D} (on_ledger m)
  unfolding on_ledger
  Follows-on_ledger m h = record { at = λ w. h w.ledger }

module _ {D A B : Type 0} where
  Follows-rest_of :
      (f : A → Exec (World D) B) (r : Result A) → ((a : A) → Follows (f a)) → Follows (rest_of f r)
  Follows-rest_of f (ok a) h = h a
  Follows-rest_of f (err c) h = record { at = λ w. IsCalled-refl w.ledger }

  pub Follows-bind :
      (m : Exec (World D) A) (f : A → Exec (World D) B)
      → Follows m
      → ((a : A) → Follows (f a))
      → Follows (m >>= f)
  unfolding ◌>>=◌
  Follows-bind m f p q = record {
    at = λ w. IsCalled-trans (p.at w) ((Follows-rest_of f (m w).0 q).at (m w).1);
  }

pub ruleset follows_rules =
    (Follows-pure, Follows-lift, Follows-gets, Follows-on_ledger, Follows-bind)

module _ {Arguments D : Type 0} (setup : Setup Arguments) (call : Call Arguments D) where
  pub Follows-boundary : (p : CrashPoint) → Follows (boundary setup call p)
  unfolding boundary
  Follows-boundary p = record {
    at = λ w. elim (Option-cases (call.crash_hook p)) [
      | inl e ↦ rw (e, boundary) (IsCalled-refl w.ledger)
      | inr (c, e) ↦ rw (e, boundary) (IsCalled-refl w.ledger)
    ];
  }

  pub Follows-call_apply : Follows (call_apply setup call)
  unfolding call_apply
  Follows-call_apply = record { at = λ w. IsCalled-refl w.ledger }

  pub Follows-count_apply : Follows (count_apply setup call)
  unfolding count_apply
  Follows-count_apply = record { at = λ w. IsCalled-refl w.ledger }

  pub Follows-authorize : (id : String) → Follows {D = D} (on_ledger (authorize_effect id))
  unfolding authorize_effect
  Follows-authorize id = search (Follows-on_ledger, IsCalled-transition)

  pub Follows-pending : (id : String) → Follows {D = D} (on_ledger (mark_pending id))
  unfolding mark_pending
  Follows-pending id = search (Follows-on_ledger, IsCalled-transition)

  pub Follows-applied : (id d : String) → Follows {D = D} (on_ledger (mark_applied id d))
  unfolding mark_applied
  Follows-applied id d = search (Follows-on_ledger, IsCalled-transition)

  pub Follows-failed : (id : String) → Follows {D = D} (on_ledger (mark_failed id))
  unfolding mark_failed
  Follows-failed id = search (Follows-on_ledger, IsCalled-transition)

  pub Follows-checkpoint : (s i t : String) → Follows (checkpoint setup call s i t)
  unfolding checkpoint
  Follows-checkpoint s i t = search (follows_rules, IsCalled-checkpoint)

  pub ruleset effect_rules = (
    follows_rules, Follows-boundary, Follows-call_apply, Follows-count_apply, Follows-authorize,
    Follows-pending, Follows-applied, Follows-failed, Follows-checkpoint, IsCalled-begin,
  )

  pub Follows-after_apply : (i r : String) → Follows (after_apply setup call i r)
  unfolding after_apply
  Follows-after_apply i r = search effect_rules depth 12

  pub Follows-prepare : (i : String) → Follows (prepare setup call i)
  unfolding prepare
  Follows-prepare i = search effect_rules depth 14

  pub Follows-after_write : (i : String) (r : Option String) → Follows (after_write setup call i r)
  unfolding after_write
  Follows-after_write i none = search effect_rules
  Follows-after_write i (some r) = search (effect_rules, Follows-after_apply)

  pub Follows-after_decision :
      (i : String) (r : Result AuthorizationRecord) → Follows (after_decision setup call i r)
  unfolding after_decision
  Follows-after_decision i (err c) = search effect_rules
  Follows-after_decision i (ok a) = search (effect_rules, Follows-prepare, Follows-after_write)

  pub Follows-new_effect : (d k : String) → Follows (new_effect setup call d k)
  unfolding new_effect
  Follows-new_effect d k = search (effect_rules, Follows-after_decision)

  pub Follows-after_lookup :
      (k : String) (o : Option EffectRecord) → Follows (after_lookup setup call k o)
  unfolding after_lookup
  Follows-after_lookup k (some e) = search effect_rules
  Follows-after_lookup k none = search (effect_rules, Follows-new_effect)

  pub Follows-execute_effect : Follows (execute_effect setup call)
  unfolding execute_effect
  Follows-execute_effect = search (effect_rules, Follows-after_lookup)

-- Whatever the hook, the authority and the domain write do, and however the call ends, its ledger
-- comes from the ledger before it by calls of the ledger's own methods, none of them a purge.
pub execute_effect-IsCalled :
    {Arguments D : Type 0} (setup : Setup Arguments) (call : Call Arguments D) (w : World D)
    → IsCalled w.ledger (execute_effect setup call w).1.ledger
execute_effect-IsCalled setup call w = (Follows-execute_effect setup call).at w
