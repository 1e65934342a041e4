-- ===== src/Runner/Reconcile/Passes.antt =====
-- The loop of a sweep: what it makes of the effects of a list.
use mathlib.Core.List.{Memᴰ}
use mathlib.Core.List.Memᴰ.{head, tail}
use study_assistance_agent.Prelude.{
  ℕ, String, str_eq, eq_iff, ◌≡◌, refl, sym, ap, ◌∙◌, subst, false, none, some, List, [], ◌∷◌, ◌++◌,
  arith, All, find_row,
}
use study_assistance_agent.Prelude.Tables.Keys.{at_key, IsKeyed}
use study_assistance_agent.Exec.{Result, ok, pure, ◌>>=◌}
use study_assistance_agent.Runner.Ledger.{
  Ledger, EffectRow, EffectRecord, find_effect, reconcile_attempts,
}
use study_assistance_agent.Runner.Ledger.Queues.{IsQueued, record_id, mem-none}
use study_assistance_agent.Runner.Reconcile.{
  Verdict, Swept, ReconcileReport, sweep_effect, count_swept, sweep_effects,
}
use study_assistance_agent.Runner.Reconcile.Sweeps.{
  is_waiting, swept_as, row_after, attempts_of, sweep_effect-IsSwept,
}
use study_assistance_agent.Runner.Reconcile.Counting.{
  IsBalanced, count_swept-IsBalanced, Counts, count_swept-Counts,
}

module _ (max_deferrals : ℕ) (probe : EffectRecord → Verdict) where
  abbrev pub swept_of : Ledger → EffectRecord → Swept
  swept_of db e = swept_as max_deferrals (probe e) (reconcile_attempts e.effect_id db)

  -- The outcomes of the effects of a list.
  abbrev pub outcomes : Ledger → List EffectRecord → List Swept
  outcomes db [] = []
  outcomes db (e ∷ es) = swept_of db e ∷ outcomes db es

  -- The effect's row and attempts, after it.
  abbrev pub IsDone : Ledger → EffectRecord → EffectRow → Result ReconcileReport × Ledger → Type 0
  IsDone db e row r =
      (find_effect e.effect_id r.1 ≡ some (row_after (swept_of db e) row))
      × (reconcile_attempts e.effect_id r.1
          ≡ reconcile_attempts e.effect_id db ++ attempts_of (swept_of db e))

  -- The loop has settled the effects of the list, and no others.
  pub record IsPassed (es : List EffectRecord) (before : ReconcileReport) (db : Ledger)
      (r : Result ReconcileReport × Ledger) : Type 0 where
    pub report : ReconcileReport
    pub returned : r.0 ≡ ok report
    pub balanced : IsBalanced report
    pub counted : Counts (outcomes db es) before report
    pub other :
        (k : String)
        → find_row (at_key record_id k) es ≡ none
        → (find_effect k r.1 ≡ find_effect k db)
          × (reconcile_attempts k r.1 ≡ reconcile_attempts k db)
    pub swept :
        (e : EffectRecord) (row : EffectRow)
        → Memᴰ e es
        → find_effect e.effect_id db ≡ some row
        → IsDone db e row r

  module _ (e : EffectRecord) (db : Ledger) (q : IsQueued is_waiting db e) where
    requeued :
        (es : List EffectRecord)
        → find_row (at_key record_id e.effect_id) es ≡ none
        → All (IsQueued is_waiting db) es
        → All (IsQueued is_waiting (sweep_effect max_deferrals probe e db).1) es
    unfolding find_row
    requeued [] n a = tt
    requeued (x ∷ xs) n a =
        let b = sweep_effect-IsSwept max_deferrals probe e db q in
        (
          record {
            row = a.0.row;
            known = ground (
              arith,
              b.reads x.effect_id,
              a.0.known,
              eq_iff e.effect_id x.effect_id,
              eq_iff x.effect_id e.effect_id,
            );
            same = a.0.same;
            holds = a.0.holds;
          },
          requeued xs (ground arith) a.1,
        )

    sweep_effects-cons :
        (es : List EffectRecord) (report : ReconcileReport)
        → sweep_effects max_deferrals probe (e ∷ es) report db
          ≡ sweep_effects max_deferrals probe es
              (count_swept (swept_of db e) report)
              (sweep_effect max_deferrals probe e db).1
    unfolding sweep_effects ◌>>=◌
    sweep_effects-cons es report =
        rw (sweep_effect-IsSwept max_deferrals probe e db q).returned refl

    -- The other effects' outcomes are the same after it.
    outcomes_after :
        (es : List EffectRecord)
        → find_row (at_key record_id e.effect_id) es ≡ none
        → outcomes (sweep_effect max_deferrals probe e db).1 es ≡ outcomes db es
    unfolding find_row
    outcomes_after [] n = refl
    outcomes_after (x ∷ xs) n =
        let (apart, rest) : (str_eq x.effect_id e.effect_id ≡ false)
            × (find_row (at_key record_id e.effect_id) xs ≡ none) =
          ground arith in
        let b = sweep_effect-IsSwept max_deferrals probe e db q in
        let kept : reconcile_attempts x.effect_id (sweep_effect max_deferrals probe e db).1
            ≡ reconcile_attempts x.effect_id db =
          ground (
            arith,
            b.attempts x.effect_id,
            apart,
            eq_iff e.effect_id x.effect_id,
            eq_iff x.effect_id e.effect_id,
          ) in
        ap
          (λ attempts.
            swept_as max_deferrals (probe x) attempts
            ∷ outcomes (sweep_effect max_deferrals probe e db).1 xs)
          kept
        ∙ ap (λ later. swept_of db x ∷ later) (outcomes_after xs rest)

    module _ (es : List EffectRecord) (before : ReconcileReport)
        (r : Result ReconcileReport × Ledger)
        (n : find_row (at_key record_id e.effect_id) es ≡ none)
        (p : IsPassed es
          (count_swept (swept_of db e) before)
          (sweep_effect max_deferrals probe e db).1
          r) where
      cons_head : (row : EffectRow) → find_effect e.effect_id db ≡ some row → IsDone db e row r
      cons_head row f =
          let b = sweep_effect-IsSwept max_deferrals probe e db q in
          let (same, same') = p.other e.effect_id n in
          (
            ground (arith, same, b.reads e.effect_id, eq_iff e.effect_id e.effect_id, f, q.known),
            ground (arith, same', b.attempts e.effect_id, eq_iff e.effect_id e.effect_id),
          )

      cons_tail :
          (x : EffectRecord) (row : EffectRow)
          → Memᴰ x es
          → find_effect x.effect_id db ≡ some row
          → IsDone db x row r
      cons_tail x row m f =
          let b = sweep_effect-IsSwept max_deferrals probe e db q in
          let apart : str_eq x.effect_id e.effect_id ≡ false =
            mem-none (at_key record_id e.effect_id) x es m n in
          let apart' : str_eq e.effect_id x.effect_id ≡ false =
            ground (arith, apart, eq_iff e.effect_id x.effect_id, eq_iff x.effect_id e.effect_id) in
          let kept : reconcile_attempts x.effect_id (sweep_effect max_deferrals probe e db).1
              ≡ reconcile_attempts x.effect_id db =
            ground (arith, b.attempts x.effect_id, apart') in
          let done : IsDone (sweep_effect max_deferrals probe e db).1 x row r =
            p.swept x row m (ground (arith, b.reads x.effect_id, apart', f)) in
          subst
            (λ (before : List String).
              (find_effect x.effect_id r.1
                ≡ some (row_after (swept_as max_deferrals (probe x) before) row))
              × (reconcile_attempts x.effect_id r.1
                  ≡ before ++ attempts_of (swept_as max_deferrals (probe x) before)))
            kept done

      cons_other :
          (k : String)
          → find_row (at_key record_id k) (e ∷ es) ≡ none
          → (find_effect k r.1 ≡ find_effect k db)
            × (reconcile_attempts k r.1 ≡ reconcile_attempts k db)
      unfolding find_row
      cons_other k m =
          let b = sweep_effect-IsSwept max_deferrals probe e db q in
          let (apart, rest) : (str_eq e.effect_id k ≡ false)
              × (find_row (at_key record_id k) es ≡ none) =
            ground arith in
          let (same, same') = p.other k rest in
          (ground (arith, same, b.reads k, apart), ground (arith, same', b.attempts k, apart))

      cons_swept :
          (x : EffectRecord) (row : EffectRow)
          → Memᴰ x (e ∷ es)
          → find_effect x.effect_id db ≡ some row
          → IsDone db x row r
      cons_swept x row (head same) f =
          subst (λ (y : EffectRecord). find_effect y.effect_id db ≡ some row → IsDone db y row r)
            (sym same) (cons_head row) f
      cons_swept x row (tail m) f = cons_tail x row m f

      cons-IsPassed : IsPassed (e ∷ es) before db r
      cons-IsPassed = record {
        report = p.report;
        returned = p.returned;
        balanced = p.balanced;
        counted = count_swept-Counts (swept_of db e) (outcomes db es) before p.report (
            subst (λ os. Counts os (count_swept (swept_of db e) before) p.report)
              (outcomes_after es n) p.counted);
        other = cons_other;
        swept = cons_swept;
      }

  pub sweep_effects-IsPassed :
      (es : List EffectRecord) (report : ReconcileReport) (db : Ledger)
      → All (IsQueued is_waiting db) es
      → IsKeyed record_id es
      → IsBalanced report
      → IsPassed es report db (sweep_effects max_deferrals probe es report db)
  sweep_effects-IsPassed [] report db a k h = record {
    report = report;
    returned = unfold sweep_effects in unfold pure in refl;
    balanced = h;
    counted = record {
      examined = omega arith;
      applied = omega arith;
      failed = omega arith;
      deferred = omega arith;
      escalated = omega arith;
    };
    other = λ id n. unfold sweep_effects in unfold pure in (refl, refl);
    swept = λ e row m f. elim m [ ];
  }
  sweep_effects-IsPassed (e ∷ es) report db a k h = rw (sweep_effects-cons e db a.0 es report) (
      cons-IsPassed e db a.0 es report _ k.0 (
        sweep_effects-IsPassed es (count_swept (swept_of db e) report)
          (sweep_effect max_deferrals probe e db).1 (requeued e db a.0 es k.0 a.1) k.1
          (count_swept-IsBalanced (swept_of db e) report h)))
