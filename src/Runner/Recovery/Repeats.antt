-- ===== src/Runner/Recovery/Repeats.antt =====
-- One idempotency key, one domain write: repeated calls of `execute_effect`, after any crashes.
use mathlib.Core.List.{Memᴰ}
use mathlib.Core.List.Memᴰ.{head, tail}
use study_assistance_agent.Prelude.{
  String, ◌≡◌, refl, sym, ap, ◌∙◌, ◌⊎◌, inl, inr, false, none, some, List, [], ◌∷◌, All, arith,
  Option-cases,
}
use study_assistance_agent.Exec.{ok, ◌>>=◌}
use study_assistance_agent.Runner.Ledger.{EffectRow, find_key, find_by_idempotency_key}
use study_assistance_agent.Runner.Ledger.Trail.{IsSound}
use study_assistance_agent.Runner.Ledger.Operations.{Op, apply_op, apply_op-IsSound}
use study_assistance_agent.Runner.Ledger.Steps.{is_purge}
use study_assistance_agent.Runner.Ledger.Called.{IsCalled-IsSound, IsCalled-op}
use study_assistance_agent.Runner.Authority.{argument_digest, idempotency_key}
use study_assistance_agent.Runner.Outcome.{CrashPoint}
use study_assistance_agent.Runner.Recovery.{
  World, Setup, Call, boundary, after_lookup, new_effect, execute_effect,
}
use study_assistance_agent.Runner.Recovery.Calls.{execute_effect-IsCalled}
use study_assistance_agent.Runner.Recovery.Still.{IsUntouched}
use study_assistance_agent.Runner.Recovery.Once.{
  IsWrittenOnce, HasKey, HasKey-called, Keyed-new_effect, WritesOnce-new_effect,
}

-- `execute_effect` from its first boundary on, where the arguments have a digest and the call the key.
module _ {Arguments D : Type 0} (setup : Setup Arguments) (call : Call Arguments D)
    (digest key : String) (digest_of : argument_digest setup.digests call.arguments ≡ ok digest)
    (key_of : idempotency_key setup.digests call.job_id call.tool_name call.arguments call.scope_id
      ≡ ok key) where
  execute_effect-known :
      (w : World D) (x : EffectRow)
      → find_key key w.ledger ≡ some x
      → (execute_effect setup call w).1 ≡ w
  unfolding execute_effect ◌>>=◌ boundary after_lookup find_by_idempotency_key
  execute_effect-known w x e = elim (Option-cases (call.crash_hook CrashPoint.before_propose)) [
    | inr (c, h) ↦ rw (h, execute_effect, boundary)
    | inl h ↦ rw (h, execute_effect, boundary, key_of, e)
  ]

  execute_effect-new :
      (w : World D)
      → find_key key w.ledger ≡ none
      → ((execute_effect setup call w).1 ≡ w)
        ⊎ ((execute_effect setup call w).1 ≡ (new_effect setup call digest key w).1)
  unfolding execute_effect ◌>>=◌ boundary after_lookup find_by_idempotency_key
  execute_effect-new w e = elim (Option-cases (call.crash_hook CrashPoint.before_propose)) [
    | inr (c, h) ↦ inl (rw (h, execute_effect, boundary))
    | inl h ↦ inr (rw (h, execute_effect, boundary, key_of, e, digest_of))
  ]

-- A call of the executor, or of another method of the ledger, by whoever else uses it.
pub data Act (Arguments D : Type 0) : Type 0 where
  execute : Call Arguments D → Act Arguments D
  other : Op → Act Arguments D

module _ {Arguments D : Type 0} (setup : Setup Arguments) where
  pub run_act : Act Arguments D → World D → World D
  run_act (execute call) w = (execute_effect setup call w).1
  run_act (other op) w = record w { ledger = apply_op op w.ledger }

  pub run_acts : List (Act Arguments D) → World D → World D
  unfolding run_act
  run_acts [] w = w
  run_acts (act ∷ acts) w = run_acts acts (run_act act w)

  -- A call under the key, or a method that is no purge.
  abbrev pub IsUnder : String → Act Arguments D → Type 0
  IsUnder key (execute call) =
      idempotency_key setup.digests call.job_id call.tool_name call.arguments call.scope_id ≡ ok key
  IsUnder key (other op) = is_purge op ≡ false

  run_act-IsSound :
      (act : Act Arguments D) (w : World D) → IsSound w.ledger → IsSound (run_act act w).ledger
  unfolding run_act
  run_act-IsSound (execute call) w sound =
      IsCalled-IsSound (execute_effect-IsCalled setup call w) sound
  run_act-IsSound (other op) w sound = apply_op-IsSound op w.ledger sound

  digest-of_key :
      (call : Call Arguments D) (key : String)
      → IsUnder key (execute call)
      → (digest : String) × (argument_digest setup.digests call.arguments ≡ ok digest)
  unfolding idempotency_key argument_digest
  digest-of_key call key u = elim (Option-cases (setup.digests.dumps call.arguments)) [
    | inr (text, e) ↦ (setup.digests.sha256 text, rw (argument_digest, e) refl)
    | inl e ↦ cc (rw (idempotency_key, argument_digest, e) at u)
  ]

  -- Once the key has a row, nothing is written under it any more.
  run_act-known :
      (key : String) (act : Act Arguments D) (w : World D)
      → IsUnder key act
      → IsSound w.ledger
      → HasKey key w
      → IsUntouched w (run_act act w) × HasKey key (run_act act w)
  unfolding run_act
  run_act-known key (execute call) w u sound k =
      let (digest, digest_of) = digest-of_key call key u in
      let same = execute_effect-known setup call digest key digest_of u w k.row k.known in
      ((ap (λ (x : World D). x.domain) same, ap (λ (x : World D). x.applied_count) same), rw same k)
  run_act-known key (other op) w u sound k =
      ((refl, refl), HasKey-called key w _ sound (IsCalled-op op w.ledger u) k)

  -- A first call writes at most once, and not at all if it leaves no row under the key.
  run_act-new :
      (key : String) (act : Act Arguments D) (w : World D)
      → IsUnder key act
      → IsSound w.ledger
      → find_key key w.ledger ≡ none
      → IsUntouched w (run_act act w)
        ⊎ (((call : Call Arguments D) × (act ≡ execute call) × IsWrittenOnce call w (run_act act w))
            × HasKey key (run_act act w))
  unfolding run_act
  run_act-new key (other op) w u sound free = inl (refl, refl)
  run_act-new key (execute call) w u sound free =
      let (digest, digest_of) = digest-of_key call key u in
      elim (execute_effect-new setup call digest key digest_of u w free) [
        | inl same ↦
            inl (ap (λ (x : World D). x.domain) same, ap (λ (x : World D). x.applied_count) same)
        | inr new ↦ rw new (elim ((Keyed-new_effect setup call digest key).at w sound) [
          | inl still ↦ inl still
          | inr k ↦ elim ((WritesOnce-new_effect setup call digest key).at w) [
            | inl still ↦ inl still
            | inr once ↦ inr ((call, refl, once), k)
          ]
        ])
      ]

  run_acts-known :
      (key : String) (acts : List (Act Arguments D)) (w : World D)
      → All (IsUnder key) acts
      → IsSound w.ledger
      → HasKey key w
      → IsUntouched w (run_acts acts w)
  unfolding run_acts
  run_acts-known key [] w u sound k = (refl, refl)
  run_acts-known key (act ∷ acts) w u sound k =
      let (same, k') = run_act-known key act w u.0 sound k in
      let rest = run_acts-known key acts (run_act act w) u.1 (run_act-IsSound act w sound) k' in
      (rest.0 ∙ same.0, rest.1 ∙ same.1)

  -- At most one domain write under one key. On a sound ledger, let any calls of `execute_effect`
  -- whose idempotency key is the given one follow one another, each with any hook, effect id,
  -- permissions and confirmation, and each ending in any way, with any other calls of the ledger's
  -- methods but `purge_expired` among them. Then after all of them the domain and the count of writes
  -- are as before, or the key had no row before, and the domain is as one run of the write of one of
  -- the calls leaves it, whether that write returns or raises, and it is counted at most once.
  pub run_acts-at_most_once :
      (key : String) (acts : List (Act Arguments D)) (w : World D)
      → All (IsUnder key) acts
      → IsSound w.ledger
      → IsUntouched w (run_acts acts w)
        ⊎ ((find_key key w.ledger ≡ none)
            × ((call : Call Arguments D) × Memᴰ (execute call) acts
                × IsWrittenOnce call w (run_acts acts w)))
  unfolding run_acts
  run_acts-at_most_once key [] w u sound = inl (refl, refl)
  run_acts-at_most_once key (act ∷ acts) w u sound = elim (Option-cases (find_key key w.ledger)) [
    | inr (row, e) ↦
        inl (run_acts-known key (act ∷ acts) w u sound (record { row = row; known = e }))
    | inl free ↦ elim (run_act-new key act w u.0 sound free) [
      | inl (domain, count) ↦
          elim (run_acts-at_most_once key acts (run_act act w) u.1 (run_act-IsSound act w sound)) [
            | inl (domain', count') ↦ inl (domain' ∙ domain, count' ∙ count)
            | inr (free', (call, m, (domain', count'))) ↦ inr (
              free,
              (
                call,
                tail m,
                (domain' ∙ ap (λ x. (call.apply x).1) domain, omega (arith, count, count')),
              ),
            )
          ]
      | inr ((call, is, (domain, count)), k) ↦
          let still = run_acts-known key acts (run_act act w) u.1 (run_act-IsSound act w sound) k in
          inr (free, (call, head (sym is), (still.0 ∙ domain, omega (arith, still.1, count))))
    ]
  ]
