-- ===== src/Runner/Recovery/Windows.antt =====
-- The crash window of `execute_effect`: whatever ends the call, and wherever, the ledger tells
-- whether the domain write may have run.
use study_assistance_agent.Prelude.{
  ◌≡◌, refl, ◌⊎◌, inl, inr, Option, none, some, String, true, arith, ap, ◌∙◌,
}
use study_assistance_agent.Exec.{Exec, Result, ok, err, ◌>>=◌, ◌>>◌, rest_of}
use study_assistance_agent.Runner.Effects.{pending, has_started}
use study_assistance_agent.Runner.Ledger.{
  Ledger, EffectRow, EffectRecord, mark_pending, find_effect, move_to,
}
use study_assistance_agent.Runner.Ledger.Trail.{IsSound, transition-cases}
use study_assistance_agent.Runner.Ledger.Reads.{find_effect-moved}
use study_assistance_agent.Runner.Ledger.Called.{IsCalled, IsCalled-IsSound, IsCalled-effect}
use study_assistance_agent.Runner.Authority.{AuthorizationRecord}
use study_assistance_agent.Runner.Outcome.{CrashPoint}
use study_assistance_agent.Runner.Recovery.{
  World, Setup, Call, on_ledger, boundary, after_decision, after_lookup, prepare, new_effect,
  execute_effect,
}
use study_assistance_agent.Runner.Recovery.Still.{IsUntouched, Still, still_rules, Still-prepare}
use study_assistance_agent.Runner.Recovery.Calls.{
  Follows, effect_rules, Follows-after_write, Follows-prepare,
}

-- The effect's row is past `authorized`.
pub record IsStarted {D : Type 0} (id : String) (w : World D) : Type 0 where
  pub row : EffectRow
  pub known : find_effect id w.ledger ≡ some row
  pub started : has_started row.effect.state ≡ true

-- Where the action returns, the effect's row is past `authorized`.
record Starts {D A : Type 0} (id : String) (m : Exec (World D) A) : Type 0 where
  at : (w : World D) (a : A) → (m w).0 ≡ ok a → IsStarted id (m w).1

module _ {D A B : Type 0} (id : String) where
  Starts-rest_of :
      (f : A → Exec (World D) B) (r : Result A) (w : World D) (b : B)
      → ((a : A) → Starts id (f a))
      → (rest_of f r w).0 ≡ ok b
      → IsStarted id (rest_of f r w).1
  Starts-rest_of f (ok a) w b h e = (h a).at w b e
  Starts-rest_of f (err c) w b h e = cc

  -- It is enough that the end of a block does so.
  Starts-bind :
      (m : Exec (World D) A) (f : A → Exec (World D) B)
      → ((a : A) → Starts id (f a))
      → Starts id (m >>= f)
  unfolding ◌>>=◌
  Starts-bind m f h = record { at = λ w b e. Starts-rest_of f (m w).0 (m w).1 b h e }

module _ {Arguments D : Type 0} (setup : Setup Arguments) (call : Call Arguments D) where
  -- What `mark_pending` moves is started.
  mark_pending-starts :
      (w : World D) (e : EffectRecord)
      → (mark_pending call.effect_id w.ledger).0 ≡ ok e
      → IsStarted call.effect_id (on_ledger (mark_pending call.effect_id) w).1
  unfolding mark_pending on_ledger
  mark_pending-starts w e h = elim (transition-cases call.effect_id pending none w.ledger) [
    | inl (code, same) ↦ cc (ap (λ (r : Result EffectRecord × Ledger). r.0) same, h)
    | inr (row, known, legal, moved) ↦ record {
      row = move_to pending none row;
      known = rw moved (find_effect-moved call.effect_id row pending none w.ledger known);
      started = unfold move_to has_started in refl;
    }
  ]

  boundary-state : (p : CrashPoint) (w : World D) → (boundary setup call p w).1 ≡ w
  unfolding boundary
  boundary-state p w = ground arith

  rest_of-starts :
      (p : CrashPoint) (r : Result EffectRecord) (w : World D) (a : Unit {0})
      → ((e : EffectRecord) → r ≡ ok e → IsStarted call.effect_id w)
      → (rest_of (λ e. boundary setup call p) r w).0 ≡ ok a
      → IsStarted call.effect_id (rest_of (λ e. boundary setup call p) r w).1
  rest_of-starts p (ok e) w a k h = rw boundary-state (k e refl)
  rest_of-starts p (err c) w a k h = cc

  -- A block that returns after `mark_pending` and a boundary.
  Starts-mark_pending :
      (p : CrashPoint)
      → Starts call.effect_id (on_ledger (mark_pending call.effect_id) >> boundary setup call p)
  unfolding ◌>>=◌
  Starts-mark_pending p = record {
    at = λ w a h.
        rest_of-starts p (on_ledger (mark_pending call.effect_id) w).0
          (on_ledger (mark_pending call.effect_id) w).1 a
          (unfold on_ledger in mark_pending-starts w) h;
  }

  Starts-prepare : (i : String) → Starts call.effect_id (prepare setup call i)
  unfolding prepare
  Starts-prepare i = search (Starts-bind, Starts-mark_pending) depth 12

  -- However the action ends: the domain and the count are as they were, or the row is started.
  record Windowed {A : Type 0} (m : Exec (World D) A) : Type 0 where
    at : (w : World D) → IsSound w.ledger → IsUntouched w (m w).1 ⊎ IsStarted call.effect_id (m w).1

  Windowed-Still : {A : Type 0} (m : Exec (World D) A) → Still m → Windowed m
  Windowed-Still m s = record { at = λ w sound. inl (s.domain w, s.applied_count w) }

  Windowed-rest_of :
      {A B : Type 0} (f : A → Exec (World D) B) (r : Result A) (w : World D)
      → ((a : A) → Windowed (f a))
      → IsSound w.ledger
      → IsUntouched w (rest_of f r w).1 ⊎ IsStarted call.effect_id (rest_of f r w).1
  Windowed-rest_of f (ok a) w h sound = (h a).at w sound
  Windowed-rest_of f (err c) w h sound = inl (refl, refl)

  Windowed-bind :
      {A B : Type 0} (m : Exec (World D) A) (f : A → Exec (World D) B)
      → Still m
      → Follows m
      → ((a : A) → Windowed (f a))
      → Windowed (m >>= f)
  unfolding ◌>>=◌
  Windowed-bind m f s c h = record {
    at = λ w sound. elim (Windowed-rest_of f (m w).0 (m w).1 h (IsCalled-IsSound (c.at w) sound)) [
      | inl e ↦ inl (e.0 ∙ s.domain w, e.1 ∙ s.applied_count w)
      | inr k ↦ inr k
    ];
  }

  -- What is started stays so.
  IsStarted-called :
      (w w' : World D)
      → IsSound w.ledger
      → IsCalled w.ledger w'.ledger
      → IsStarted call.effect_id w
      → IsStarted call.effect_id w'
  IsStarted-called w w' sound c k =
      let (row, known, later) = IsCalled-effect c sound call.effect_id k.row k.known in
      record { row = row; known = known; started = later.started k.started }

  IsStarted-rest :
      {A B : Type 0} (f : A → Exec (World D) B) (r : Result A) (w w' : World D)
      → IsUntouched w w'
      → ((a : A) → r ≡ ok a → IsStarted call.effect_id w')
      → IsSound w'.ledger
      → ((a : A) → Follows (f a))
      → IsUntouched w (rest_of f r w').1 ⊎ IsStarted call.effect_id (rest_of f r w').1
  IsStarted-rest f (ok a) w w' e k sound h =
      inr (IsStarted-called w' (f a w').1 sound ((h a).at w') (k a refl))
  IsStarted-rest f (err c) w w' e k sound h = inl e

  Windowed-started :
      {A B : Type 0} (m : Exec (World D) A) (f : A → Exec (World D) B)
      → Still m
      → Follows m
      → Starts call.effect_id m
      → ((a : A) → Follows (f a))
      → Windowed (m >>= f)
  unfolding ◌>>=◌
  Windowed-started m f s c k h = record {
    at = λ w sound.
        IsStarted-rest f (m w).0 w (m w).1 (s.domain w, s.applied_count w) (k.at w)
          (IsCalled-IsSound (c.at w) sound) h;
  }

  Windowed-after_decision :
      (i : String) (r : Result AuthorizationRecord) → Windowed (after_decision setup call i r)
  unfolding after_decision
  Windowed-after_decision i (err c) = search (Windowed-Still, still_rules)
  Windowed-after_decision i (ok a) =
      Windowed-started (prepare setup call i) _ (Still-prepare setup call i)
        (Follows-prepare setup call i) (Starts-prepare i)
        (λ _. search (effect_rules, Follows-after_write))

  Windowed-new_effect : (d k : String) → Windowed (new_effect setup call d k)
  unfolding new_effect
  Windowed-new_effect d k =
      search (Windowed-bind, still_rules, effect_rules, Windowed-after_decision)

  Windowed-after_lookup :
      (k : String) (o : Option EffectRecord) → Windowed (after_lookup setup call k o)
  unfolding after_lookup
  Windowed-after_lookup k (some e) = search (Windowed-Still, still_rules)
  Windowed-after_lookup k none =
      search (Windowed-bind, still_rules, effect_rules, Windowed-new_effect)

  Windowed-execute_effect : Windowed (execute_effect setup call)
  unfolding execute_effect
  Windowed-execute_effect = search (Windowed-bind, still_rules, effect_rules, Windowed-after_lookup)

-- The crash window, on a sound ledger. However the call ends (a crash or a kill at any boundary, a
-- refusal, an error of the ledger, an exception of the domain write, or a return), one of two things
-- holds: the domain and the count of domain writes are as they were before the call; or the ledger
-- has a row of the call's effect whose state is neither `proposed` nor `authorized`.
pub execute_effect-window :
    {Arguments D : Type 0} (setup : Setup Arguments) (call : Call Arguments D) (w : World D)
    → IsSound w.ledger
    → let after = (execute_effect setup call w).1 in
      IsUntouched w after ⊎ IsStarted call.effect_id after
execute_effect-window setup call w sound = (Windowed-execute_effect setup call).at w sound
