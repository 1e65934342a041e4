-- ===== src/Runner/Recovery/Still.antt =====
-- What the steps of `execute_effect` other than the domain write leave alone.
use study_assistance_agent.Prelude.{◌≡◌, refl, String, arith, ◌∙◌}
use study_assistance_agent.Exec.{Exec, Result, ok, err, pure, lift, gets, ◌>>=◌, rest_of}
use study_assistance_agent.Runner.Ledger.{Ledger}
use study_assistance_agent.Runner.Outcome.{CrashPoint}
use study_assistance_agent.Runner.Recovery.{
  World, Setup, Call, on_ledger, boundary, checkpoint, prepare,
}

-- Two worlds with the same domain and the same count of domain writes.
abbrev pub IsUntouched : {D : Type 0} → World D → World D → Type 0
IsUntouched w w' = (w'.domain ≡ w.domain) × (w'.applied_count ≡ w.applied_count)

-- The action leaves the domain and the count of domain writes alone, however it ends.
pub record Still {D A : Type 0} (m : Exec (World D) A) : Type 0 where
  pub domain : (w : World D) → (m w).1.domain ≡ w.domain
  pub applied_count : (w : World D) → (m w).1.applied_count ≡ w.applied_count

module _ {D A : Type 0} where
  pub Still-pure : (a : A) → Still {D = D} (pure a)
  unfolding pure
  Still-pure a = record { domain = λ w. refl; applied_count = λ w. refl }

  pub Still-lift : (r : Result A) → Still {D = D} (lift r)
  unfolding lift
  Still-lift r = record { domain = λ w. refl; applied_count = λ w. refl }

  pub Still-gets : (f : World D → A) → Still (gets f)
  unfolding gets
  Still-gets f = record { domain = λ w. refl; applied_count = λ w. refl }

  pub Still-on_ledger : (m : Exec Ledger A) → Still {D = D} (on_ledger m)
  unfolding on_ledger
  Still-on_ledger m = record { domain = λ w. refl; applied_count = λ w. refl }

module _ {D A B : Type 0} where
  Still-rest_of :
      (f : A → Exec (World D) B) (r : Result A) → ((a : A) → Still (f a)) → Still (rest_of f r)
  Still-rest_of f (ok a) h = h a
  Still-rest_of f (err c) h = record { domain = λ w. refl; applied_count = λ w. refl }

  pub Still-bind :
      (m : Exec (World D) A) (f : A → Exec (World D) B)
      → Still m
      → ((a : A) → Still (f a))
      → Still (m >>= f)
  unfolding ◌>>=◌
  Still-bind m f p q = record {
    domain = λ w. (Still-rest_of f (m w).0 q).domain (m w).1 ∙ p.domain w;
    applied_count = λ w. (Still-rest_of f (m w).0 q).applied_count (m w).1 ∙ p.applied_count w;
  }

module _ {Arguments D : Type 0} (setup : Setup Arguments) (call : Call Arguments D) where
  pub Still-boundary : (p : CrashPoint) → Still (boundary setup call p)
  unfolding boundary
  Still-boundary p = record { domain = λ w. ground arith; applied_count = λ w. ground arith }

  pub ruleset still_rules =
      (Still-pure, Still-lift, Still-gets, Still-on_ledger, Still-bind, Still-boundary)

  pub Still-checkpoint : (s i t : String) → Still (checkpoint setup call s i t)
  unfolding checkpoint
  Still-checkpoint s i t = search still_rules

  pub Still-prepare : (i : String) → Still (prepare setup call i)
  unfolding prepare
  Still-prepare i = search (still_rules, Still-checkpoint) depth 14
