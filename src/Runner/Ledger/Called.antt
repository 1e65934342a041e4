-- ===== src/Runner/Ledger/Called.antt =====
-- One ledger comes from another by calls of the ledger's methods, none of them a purge.
use study_assistance_agent.Prelude.{
  ℕ, String, ◌≡◌, refl, false, ◌||◌, Option, some, List, [], ◌∷◌, ◌++◌, arith, any,
}
use study_assistance_agent.Runner.Effects.{EffectState}
use study_assistance_agent.Runner.Ledger.{
  Ledger, Checkpoint, EffectRow, find_effect, find_key, begin_effect, transition,
  record_reconcile_attempt,
}
use study_assistance_agent.Runner.Ledger.Checkpoints.{record_checkpoint}
use study_assistance_agent.Runner.Ledger.Trail.{IsSound}
use study_assistance_agent.Runner.Ledger.Operations.{
  Op, begin, step, attempt, checkpoint, apply_op, run_ops, run_ops_from-IsSound,
}
use study_assistance_agent.Runner.Ledger.Steps.{is_purge}
use study_assistance_agent.Runner.Ledger.Replays.{IsLater, run_ops-keeps_effect, run_ops-keeps_key}

pub record IsCalled (a b : Ledger) : Type 0 where
  pub ops : List Op
  pub no_purge : any is_purge ops ≡ false
  pub reached : b ≡ run_ops ops a

pub IsCalled-refl : (a : Ledger) → IsCalled a a
IsCalled-refl a = record { ops = []; no_purge = refl; reached = unfold run_ops in refl }

any-append : (xs ys : List Op) → any is_purge (xs ++ ys) ≡ any is_purge xs || any is_purge ys
any-append [] ys = refl
any-append (x ∷ xs) ys = ground (arith, any-append xs ys)

run_ops-append :
    (xs ys : List Op) (db : Ledger) → run_ops (xs ++ ys) db ≡ run_ops ys (run_ops xs db)
unfolding run_ops
run_ops-append [] ys db = refl
run_ops-append (x ∷ xs) ys db = run_ops-append xs ys (apply_op x db)

pub IsCalled-trans : {a b c : Ledger} → IsCalled a b → IsCalled b c → IsCalled a c
IsCalled-trans {a} {b} {c} p q = record {
  ops = p.ops ++ q.ops;
  no_purge = ground (arith, any-append p.ops q.ops, p.no_purge, q.no_purge);
  reached = cc (run_ops-append p.ops q.ops a, p.reached, q.reached);
}

pub IsCalled-op : (op : Op) (a : Ledger) → is_purge op ≡ false → IsCalled a (apply_op op a)
IsCalled-op op a h = record { ops = op ∷ []; no_purge = rw h; reached = unfold run_ops in refl }

module _ (db : Ledger) where
  pub IsCalled-begin :
      (id job_id tool_name digest key : String) (now : ℕ)
      → IsCalled db (begin_effect id job_id tool_name digest key now db).1
  IsCalled-begin id job_id tool_name digest key now =
      unfold apply_op in IsCalled-op (begin id job_id tool_name digest key now) db refl

  pub IsCalled-transition :
      (id : String) (t : EffectState) (d : Option String) → IsCalled db (transition id t d db).1
  IsCalled-transition id t d = unfold apply_op in IsCalled-op (step id t d) db refl

  pub IsCalled-attempt :
      (id outcome : String) → IsCalled db (record_reconcile_attempt id outcome db).1
  IsCalled-attempt id outcome = unfold apply_op in IsCalled-op (attempt id outcome) db refl

  pub IsCalled-checkpoint : (c : Checkpoint) → IsCalled db (record_checkpoint c db).1
  IsCalled-checkpoint c = unfold apply_op in IsCalled-op (checkpoint c) db refl

-- What calls keep.
module _ {a b : Ledger} (c : IsCalled a b) (sound : IsSound a) where
  pub IsCalled-IsSound : IsSound b
  IsCalled-IsSound = rw c.reached (run_ops_from-IsSound c.ops a sound)

  pub IsCalled-effect :
      (id : String) (x : EffectRow)
      → find_effect id a ≡ some x
      → (y : EffectRow) × (find_effect id b ≡ some y) × IsLater x y
  IsCalled-effect id x e = rw c.reached (run_ops-keeps_effect c.ops a id x c.no_purge sound e)

  pub IsCalled-key :
      (key : String) (x : EffectRow)
      → find_key key a ≡ some x
      → (y : EffectRow) × (find_key key b ≡ some y) × IsLater x y
  IsCalled-key key x e = rw c.reached (run_ops-keeps_key c.ops a key x c.no_purge sound e)
