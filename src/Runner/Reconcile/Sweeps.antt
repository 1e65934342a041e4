-- ===== src/Runner/Reconcile/Sweeps.antt =====
-- A sweep settles every pending effect as its verdict says, and touches nothing else.
use study_assistance_agent.Prelude.{
  append_nil, ℕ, ◌+◌, String, str_eq, eq_iff, ◌≡◌, refl, ap, Bool, true, ◌⊎◌, inl, inr, Option,
  none, some, List, [], ◌∷◌, ◌++◌, arith, if◌then◌else◌, leb, or_else, Bool-cases, count_if, select,
  select-append,
}
use study_assistance_agent.Exec.{Result, ok, ◌>>=◌}
use study_assistance_agent.Runner.Effects.{EffectState, is_legal, is_pending}
use study_assistance_agent.Runner.Ledger.{
  Ledger, EffectRow, EffectRecord, Attempt, find_effect, move_to, transition, write_transition,
  append_event, mark_failed, mark_applied, record_reconcile_attempt, reconcile_attempts,
}
use study_assistance_agent.Runner.Ledger.Reads.{map-if_append}
use study_assistance_agent.Runner.Ledger.Moves.{transition-moves, transition-reads}
use study_assistance_agent.Runner.Ledger.Queues.{IsQueued}
use study_assistance_agent.Runner.Reconcile.{
  Verdict, present, absent, unknown, Swept, outcome_deferred, outcome_escalated, ends_escalated,
  is_escalated, deferrals, attempted, sweep_effect,
}

abbrev pub is_waiting : EffectRecord → Bool
is_waiting e = is_pending e.state

-- What a sweep makes of a pending effect with these attempts.
abbrev pub swept_as : ℕ → Verdict → List String → Swept
swept_as max_deferrals verdict attempts =
    if ends_escalated attempts then Swept.skipped else elim verdict [
      | present ↦ Swept.applied
      | absent ↦ Swept.failed
      | unknown ↦
          if leb max_deferrals (count_if (λ a. str_eq a outcome_deferred) attempts + 1)
          then Swept.escalated
          else Swept.deferred
    ]

-- The row after it, and the attempts that it adds.
abbrev pub row_after : Swept → EffectRow → EffectRow
row_after Swept.applied row =
    move_to EffectState.applied (some (or_else row.effect.result_digest "")) row
row_after Swept.failed row = move_to EffectState.failed none row
row_after _ row = row

abbrev pub attempts_of : Swept → List String
attempts_of Swept.skipped = []
attempts_of Swept.applied = "applied" ∷ []
attempts_of Swept.failed = "failed" ∷ []
attempts_of Swept.deferred = "deferred" ∷ []
attempts_of Swept.escalated = "escalated" ∷ []

-- The body of the loop has done what is said, and nothing to any other effect.
pub record IsSwept (e : EffectRecord) (row : EffectRow) (swept : Swept) (db : Ledger)
    (r : Result Swept × Ledger) : Type 0 where
  pub returned : r.0 ≡ ok swept
  pub reads :
      (k : String)
      → find_effect k r.1
        ≡ (if str_eq e.effect_id k then some (row_after swept row) else find_effect k db)
  pub attempts :
      (k : String)
      → reconcile_attempts k r.1 ≡ (
          if str_eq e.effect_id k
          then reconcile_attempts k db ++ attempts_of swept
          else reconcile_attempts k db)

reconcile_attempts-append :
    (k id outcome : String) (db : Ledger)
    → reconcile_attempts k
        (record db { attempts = db.attempts ++ record { effect_id = id; outcome = outcome } ∷ [] })
      ≡ (if str_eq id k then reconcile_attempts k db ++ outcome ∷ [] else reconcile_attempts k db)
unfolding reconcile_attempts select
reconcile_attempts-append k id outcome db =
    rw
      (select-append (λ (a : Attempt). str_eq a.effect_id k) db.attempts
        (record { effect_id = id; outcome = outcome } ∷ []))
      (map-if_append (λ (a : Attempt). a.outcome)
        (select (λ (a : Attempt). str_eq a.effect_id k) db.attempts)
        (record { effect_id = id; outcome = outcome }) (str_eq id k))

abbrev with_attempt : String → String → Ledger → Ledger
with_attempt id outcome db = record db {
  attempts = db.attempts ++ record { effect_id = id; outcome = outcome } ∷ [];
}

attempted-lem :
    (swept : Swept) (outcome id : String) (row : EffectRow) (db : Ledger)
    → find_effect id db ≡ some row
    → attempted swept outcome id db ≡ (ok swept, with_attempt id outcome db)
unfolding attempted ◌>>=◌ record_reconcile_attempt
attempted-lem swept outcome id row db known = rw (known, attempted)

find_effect-with_attempt :
    (k id outcome : String) (db : Ledger)
    → find_effect k (with_attempt id outcome db) ≡ find_effect k db
unfolding find_effect
find_effect-with_attempt k id outcome db = refl

reconcile_attempts-write_transition :
    (k : String) (row : EffectRow) (t : EffectState) (d : Option String) (db : Ledger)
    → reconcile_attempts k (write_transition row t d db) ≡ reconcile_attempts k db
unfolding reconcile_attempts write_transition append_event
reconcile_attempts-write_transition k row t d db = refl

Verdict-cases : (v : Verdict) → (v ≡ present) ⊎ ((v ≡ absent) ⊎ (v ≡ unknown))
Verdict-cases present = inl refl
Verdict-cases absent = inr (inl refl)
Verdict-cases unknown = inr (inr refl)

pending-legal :
    (s : EffectState)
    → is_pending s ≡ true
    → (is_legal s EffectState.applied ≡ true) × (is_legal s EffectState.failed ≡ true)
unfolding is_legal is_pending
pending-legal s h = ground arith

module _ (max_deferrals : ℕ) (probe : EffectRecord → Verdict) (e : EffectRecord) (db : Ledger)
    (q : IsQueued is_waiting db e) where
  abbrev swept_here : Swept
  swept_here = swept_as max_deferrals (probe e) (reconcile_attempts e.effect_id db)

  row_here : (k : String) → str_eq e.effect_id k ≡ true → find_effect k db ≡ some q.row
  row_here k h = rw (← (eq_iff e.effect_id k).0 h) q.known

  -- An attempt alone moves no row.
  attempted-IsSwept :
      (swept : Swept) (outcome : String)
      → row_after swept q.row ≡ q.row
      → attempts_of swept ≡ outcome ∷ []
      → IsSwept e q.row swept db (attempted swept outcome e.effect_id db)
  attempted-IsSwept swept outcome same added =
      rw (attempted-lem swept outcome e.effect_id q.row db q.known) (record {
        returned = refl;
        reads = λ k.
            ground (arith, find_effect-with_attempt k e.effect_id outcome db, same, row_here k);
        attempts = λ k. rw added (reconcile_attempts-append k e.effect_id outcome db);
      })

  -- A transition and then an attempt.
  moved-IsSwept :
      (t : EffectState) (d : Option String) (swept : Swept) (outcome : String)
      → is_legal e.state t ≡ true
      → row_after swept q.row ≡ move_to t d q.row
      → attempts_of swept ≡ outcome ∷ []
      → IsSwept e q.row swept db
          ((transition e.effect_id t d >>= λ x. attempted swept outcome e.effect_id) db)
  unfolding ◌>>=◌
  moved-IsSwept t d swept outcome legal same added =
      let next = write_transition q.row t d db in
      let there : find_effect e.effect_id next ≡ some (move_to t d q.row) =
        ground (arith, transition-reads e db q t d e.effect_id, eq_iff e.effect_id e.effect_id) in
      rw
        (
          transition-moves e db q t d legal,
          attempted-lem swept outcome e.effect_id (move_to t d q.row) next there,
        )
        (record {
          returned = refl;
          reads = λ k. ground (
            arith,
            find_effect-with_attempt k e.effect_id outcome next,
            same,
            transition-reads e db q t d k,
          );
          attempts = λ k. rw added (
              ground (
                arith,
                reconcile_attempts-append k e.effect_id outcome next,
                reconcile_attempts-write_transition k q.row t d db,
              ));
        })

  skipped-IsSwept : IsSwept e q.row Swept.skipped db (ok Swept.skipped, db)
  skipped-IsSwept = record {
    returned = refl;
    reads = λ k. ground (arith, row_here k);
    attempts = λ k. ground (arith, append_nil (reconcile_attempts k db));
  }

  pub sweep_effect-IsSwept : IsSwept e q.row swept_here db (sweep_effect max_deferrals probe e db)
  unfolding sweep_effect is_escalated deferrals mark_applied mark_failed
  sweep_effect-IsSwept =
      let (to_applied, to_failed) = pending-legal e.state q.holds in
      elim (Bool-cases (ends_escalated (reconcile_attempts e.effect_id db))) [
        | inl h ↦ rw h skipped-IsSwept
        | inr h ↦ elim (Verdict-cases (probe e)) [
          | inl v ↦
              rw (h, v)
                (moved-IsSwept EffectState.applied (some (or_else e.result_digest "")) Swept.applied
                  "applied" to_applied
                  (ap
                    (λ (x : EffectRecord).
                      move_to EffectState.applied (some (or_else x.result_digest "")) q.row)
                    q.same)
                  refl)
          | inr (inl v) ↦
              rw (h, v)
                (moved-IsSwept EffectState.failed none Swept.failed "failed" to_failed refl refl)
          | inr (inr v) ↦
              elim (Bool-cases (
                leb max_deferrals (
                  count_if (λ a. str_eq a outcome_deferred) (reconcile_attempts e.effect_id db)
                  + 1))) [
                    | inl b ↦
                        rw (h, v, b) (attempted-IsSwept Swept.escalated outcome_escalated refl refl)
                    | inr b ↦
                        rw (h, v, b) (attempted-IsSwept Swept.deferred outcome_deferred refl refl)
                  ]
        ]
      ]
