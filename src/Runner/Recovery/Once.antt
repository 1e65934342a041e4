-- ===== src/Runner/Recovery/Once.antt =====
-- A call of `execute_effect` under a new key: the domain write runs at most once, and if it may have
-- run, the key has a row.
use study_assistance_agent.Prelude.{
  suc, ◌≤◌, String, ◌≡◌, refl, ap, ◌∙◌, ◌⊎◌, inl, inr, Option, none, some, [], arith,
}
use study_assistance_agent.Exec.{Exec, Result, ok, err, ◌>>=◌, ◌>>◌, rest_of}
use study_assistance_agent.Runner.Ledger.{EffectRow, EffectRecord, find_key, begin_effect}
use study_assistance_agent.Runner.Ledger.Trail.{IsSound}
use study_assistance_agent.Runner.Ledger.Replays.{begin_effect-key}
use study_assistance_agent.Runner.Ledger.Soundness.{begin_effect-IsSound}
use study_assistance_agent.Runner.Ledger.Called.{IsCalled, IsCalled-key}
use study_assistance_agent.Runner.Authority.{AuthorizationRecord, authorize}
use study_assistance_agent.Runner.Outcome.{CrashPoint}
use study_assistance_agent.Runner.Recovery.{
  World, Setup, Call, on_ledger, boundary, after_apply, call_apply, count_apply, after_write,
  after_decision, new_effect,
}
use study_assistance_agent.Runner.Recovery.Calls.{Follows, effect_rules, Follows-after_decision}
use study_assistance_agent.Runner.Recovery.Still.{
  IsUntouched, Still, still_rules, Still-prepare, Still-checkpoint,
}

-- The domain is as it was, or as one run of the domain write leaves it, whether that returns or raises;
-- and it is counted at most once.
abbrev pub IsWrittenOnce : {Arguments D : Type 0} → Call Arguments D → World D → World D → Type 0
IsWrittenOnce call w w' =
    (w'.domain ≡ (call.apply w.domain).1) × (w'.applied_count ≤ suc w.applied_count)

-- The action runs the domain write at most once.
pub record WritesOnce {Arguments D A : Type 0} (call : Call Arguments D) (m : Exec (World D) A)
    : Type 0 where
  pub at : (w : World D) → IsUntouched w (m w).1 ⊎ IsWrittenOnce call w (m w).1

-- The action leaves the domain alone, and counts at most one write.
record CountsOnce {D A : Type 0} (m : Exec (World D) A) : Type 0 where
  domain : (w : World D) → (m w).1.domain ≡ w.domain
  count : (w : World D) → (m w).1.applied_count ≤ suc w.applied_count

module _ {D A : Type 0} where
  CountsOnce-Still : (m : Exec (World D) A) → Still m → CountsOnce m
  CountsOnce-Still m s = record { domain = s.domain; count = λ w. omega (arith, s.applied_count w) }

module _ {D A B : Type 0} where
  CountsOnce-after :
      (m : Exec (World D) A) (f : A → Exec (World D) B)
      → CountsOnce m
      → ((a : A) → Still (f a))
      → CountsOnce (m >>= f)
  unfolding ◌>>=◌
  CountsOnce-after m f s h = record {
    domain = λ w. (rest f (m w).0 (m w).1 h).0 ∙ s.domain w;
    count = λ w. omega (arith, s.count w, (rest f (m w).0 (m w).1 h).1);
  }
    where
      rest :
          (f : A → Exec (World D) B) (r : Result A) (w : World D)
          → ((a : A) → Still (f a))
          → IsUntouched w (rest_of f r w).1
      rest f (ok a) w h = ((h a).domain w, (h a).applied_count w)
      rest f (err c) w h = (refl, refl)

module _ {Arguments D A : Type 0} (call : Call Arguments D) where
  WritesOnce-Still : (m : Exec (World D) A) → Still m → WritesOnce call m
  WritesOnce-Still m s = record { at = λ w. inl (s.domain w, s.applied_count w) }

module _ {Arguments D A B : Type 0} (call : Call Arguments D) where
  WritesOnce-before :
      (m : Exec (World D) A) (f : A → Exec (World D) B)
      → Still m
      → ((a : A) → WritesOnce call (f a))
      → WritesOnce call (m >>= f)
  unfolding ◌>>=◌
  WritesOnce-before m f s h = record {
    at = λ w. rest f (m w).0 w (m w).1 (s.domain w) (s.applied_count w) h;
  }
    where
      rest :
          (f : A → Exec (World D) B) (r : Result A) (w w' : World D)
          → w'.domain ≡ w.domain
          → w'.applied_count ≡ w.applied_count
          → ((a : A) → WritesOnce call (f a))
          → IsUntouched w (rest_of f r w').1 ⊎ IsWrittenOnce call w (rest_of f r w').1
      rest f (err c) w w' d n h = inl (d, n)
      rest f (ok a) w w' d n h = elim ((h a).at w') [
        | inl (d', n') ↦ inl (d' ∙ d, n' ∙ n)
        | inr (d', n') ↦ inr (d' ∙ ap (λ x. (call.apply x).1) d, omega (arith, n', n))
      ]

-- The ledger has a row under the key.
pub record HasKey {D : Type 0} (key : String) (w : World D) : Type 0 where
  pub row : EffectRow
  pub known : find_key key w.ledger ≡ some row

pub HasKey-called :
    {D : Type 0} (key : String) (w w' : World D)
    → IsSound w.ledger
    → IsCalled w.ledger w'.ledger
    → HasKey key w
    → HasKey key w'
HasKey-called key w w' sound c k =
    let (row, known, later) = IsCalled-key c sound key k.row k.known in
    record { row = row; known = known }

module _ {Arguments D : Type 0} (setup : Setup Arguments) (call : Call Arguments D) where
  CountsOnce-count_apply : CountsOnce (count_apply setup call)
  unfolding count_apply
  CountsOnce-count_apply = record { domain = λ w. refl; count = λ w. omega arith }

  Still-after_apply : (i r : String) → Still (after_apply setup call i r)
  unfolding after_apply
  Still-after_apply i r = search (still_rules, Still-checkpoint) depth 12

  CountsOnce-after_write :
      (i : String) (r : Option String) → CountsOnce (after_write setup call i r)
  unfolding after_write
  CountsOnce-after_write i none = search (CountsOnce-Still, still_rules)
  CountsOnce-after_write i (some r) =
      search (CountsOnce-after, CountsOnce-count_apply, Still-after_apply)

  -- The domain write runs, and what follows does not run it.
  WritesOnce-call_apply :
      {A : Type 0} (f : Option String → Exec (World D) A)
      → ((r : Option String) → CountsOnce (f r))
      → WritesOnce call (call_apply setup call >>= f)
  unfolding call_apply ◌>>=◌
  WritesOnce-call_apply f h = record {
    at = λ w.
        let w' : World D = record w { domain = (call.apply w.domain).1 } in
        let rest = h (call.apply w.domain).0 in inr (rest.domain w', rest.count w');
  }

  ruleset once_rules = (
    WritesOnce-before, WritesOnce-Still, WritesOnce-call_apply, CountsOnce-after_write, still_rules,
    Still-prepare,
  )

  WritesOnce-after_decision :
      (i : String) (r : Result AuthorizationRecord)
      → WritesOnce call (after_decision setup call i r)
  unfolding after_decision
  WritesOnce-after_decision i (err c) = search once_rules
  WritesOnce-after_decision i (ok a) = search once_rules

  -- However the action ends, the domain is untouched, or the key has a row.
  pub record Keyed {A : Type 0} (key : String) (m : Exec (World D) A) : Type 0 where
    pub at : (w : World D) → IsSound w.ledger → IsUntouched w (m w).1 ⊎ HasKey key (m w).1

  keyed_rest :
      {A B : Type 0} (key : String) (f : A → Exec (World D) B) (r : Result A) (w w' : World D)
      → IsUntouched w w'
      → ((a : A) → r ≡ ok a → HasKey key w')
      → IsSound w'.ledger
      → ((a : A) → Follows (f a))
      → IsUntouched w (rest_of f r w').1 ⊎ HasKey key (rest_of f r w').1
  keyed_rest key f (ok a) w w' e k sound h =
      inr (HasKey-called key w' (f a w').1 sound ((h a).at w') (k a refl))
  keyed_rest key f (err c) w w' e k sound h = inl e

  begun :
      (key digest : String) (w : World D) (e : EffectRecord)
      → (begin_effect call.effect_id call.job_id call.tool_name digest key call.now w.ledger).0
        ≡ ok e
      → HasKey key
          (on_ledger
            (begin_effect call.effect_id call.job_id call.tool_name digest key call.now)
            w).1
  unfolding on_ledger
  begun key digest w e h =
      let (row, known, is, tool, args) =
        begin_effect-key call.effect_id call.job_id call.tool_name digest key call.now w.ledger e
          h in
      record { row = row; known = known }

  new_rest :
      (e : EffectRecord)
      → Follows (
          boundary setup call CrashPoint.after_propose
          >> after_decision setup call e.argument_digest
              (authorize setup.digests setup.registry call.tool_name call.job_id call.arguments
                call.permissions call.confirmation []).0)
  new_rest e = search (effect_rules, Follows-after_decision)

  pub Keyed-new_effect : (digest key : String) → Keyed key (new_effect setup call digest key)
  unfolding new_effect ◌>>=◌ on_ledger
  Keyed-new_effect digest key = record {
    at = λ w sound.
        keyed_rest key _
          (begin_effect call.effect_id call.job_id call.tool_name digest key call.now w.ledger).0 w
          (on_ledger (begin_effect call.effect_id call.job_id call.tool_name digest key call.now)
            w).1
          (refl, refl) (λ e h. begun key digest w e h)
          (begin_effect-IsSound call.effect_id call.job_id call.tool_name digest key call.now
            w.ledger sound)
          (λ e. new_rest e);
  }

  pub WritesOnce-new_effect : (d k : String) → WritesOnce call (new_effect setup call d k)
  unfolding new_effect
  WritesOnce-new_effect d k = search (once_rules, WritesOnce-after_decision)
