-- ===== src/Job/Gate.antt =====
-- `ConcurrencyGate` of platform/app/job_envelope.py. Each method holds the gate's lock, so that the
-- methods of several threads are a sequence of calls.
use study_assistance_agent.Prelude.{
  ℕ, ◌+◌, ◌-◌, ◌≤◌, ◌≡◌, refl, ◌∙◌, List, [], ◌∷◌, arith, if◌then◌else◌, ltb,
}
use study_assistance_agent.Exec.{
  Code, Result, ok, err, job_budget_invalid, job_concurrency_exceeded,
}
use study_assistance_agent.Job.Budget.{Setting, whole}

pub record ConcurrencyGate : Type 0 where
  pub limit : ℕ
  pub active : ℕ

-- `__init__`
unfoldable pub make_gate : Setting → Result ConcurrencyGate
make_gate (whole n) =
    if ltb n 1 then err job_budget_invalid else ok (record { limit = n; active = 0 })
make_gate _ = err job_budget_invalid

unfoldable pub acquire : ℕ → ConcurrencyGate → Result (Unit {0}) × ConcurrencyGate
acquire requested gate =
    if ltb requested 1
    then (err job_budget_invalid, gate)
    else if ltb gate.limit (gate.active + requested)
    then (err job_concurrency_exceeded, gate)
    else (ok tt, record gate { active = gate.active + requested })

-- `max(0, active - requested)`, which is the subtraction of ℕ.
unfoldable pub release : ℕ → ConcurrencyGate → ConcurrencyGate
release requested gate = record gate { active = gate.active - requested }

-- What threads call.
pub data GateCall : Type 0 where
  acquired released : ℕ → GateCall

abbrev pub call_gate : GateCall → ConcurrencyGate → ConcurrencyGate
call_gate (GateCall.acquired n) gate = (acquire n gate).1
call_gate (GateCall.released n) gate = release n gate

unfoldable pub call_all : List GateCall → ConcurrencyGate → ConcurrencyGate
call_all [] gate = gate
call_all (x ∷ xs) gate = call_all xs (call_gate x gate)

call_gate-bounded :
    (x : GateCall) (gate : ConcurrencyGate)
    → gate.active ≤ gate.limit
    → ((call_gate x gate).active ≤ (call_gate x gate).limit)
      × ((call_gate x gate).limit ≡ gate.limit)
unfolding acquire release
call_gate-bounded (GateCall.acquired n) gate h = ground arith
call_gate-bounded (GateCall.released n) gate h = ground arith

-- Whatever calls the gate gets, in any order, the slots in use never exceed the limit, which stays the
-- same. The gate must be within its limit, as a new one is.
pub call_all-bounded :
    (xs : List GateCall) (gate : ConcurrencyGate)
    → gate.active ≤ gate.limit
    → ((call_all xs gate).active ≤ gate.limit) × ((call_all xs gate).limit ≡ gate.limit)
unfolding call_all
call_all-bounded [] gate h = (h, refl)
call_all-bounded (x ∷ xs) gate h =
    let (bounded, same) = call_gate-bounded x gate h in
    let (later, kept) = call_all-bounded xs (call_gate x gate) bounded in
    (omega (arith, later, same), kept ∙ same)

-- A slot that was acquired is given back.
pub release-acquire :
    (n : ℕ) (gate : ConcurrencyGate)
    → (acquire n gate).0 ≡ ok tt
    → release n (acquire n gate).1 ≡ gate
unfolding acquire release
release-acquire n gate h =
    let active : (release n (acquire n gate).1).active ≡ gate.active = ground arith in
    let limit : (release n (acquire n gate).1).limit ≡ gate.limit = ground arith in
    cc (active, limit)

-- A refused request leaves the gate as it is.
pub acquire-err :
    (n : ℕ) (gate : ConcurrencyGate) (c : Code)
    → (acquire n gate).0 ≡ err c
    → (acquire n gate).1 ≡ gate
unfolding acquire
acquire-err n gate c h =
    let active : (acquire n gate).1.active ≡ gate.active = ground arith in
    let limit : (acquire n gate).1.limit ≡ gate.limit = ground arith in cc (active, limit)
