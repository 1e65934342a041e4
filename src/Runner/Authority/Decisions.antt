-- ===== src/Runner/Authority/Decisions.antt =====
-- What `authorize` decides, and the one record that it leaves.
use study_assistance_agent.Prelude.{
  String, str_eq, ◌≡◌, refl, ◌⊎◌, inl, inr, Bool, true, false, not, ◌&&◌, Option, none, some, List,
  [], ◌∷◌, ◌++◌, is_some, Bool-cases, if◌then◌else◌,
}
use study_assistance_agent.Exec.{
  Code, Exec, Result, ok, err, raise, ◌>>=◌, write_tool_not_registered, write_confirmation_required,
  write_capability_missing, write_confirmation_mismatch, write_confirmation_argument_mismatch,
  write_authorization_revoked,
}
use study_assistance_agent.Runner.Authority.{
  Digests, Registry, Confirmation, AuthorizationRecord, contains, find_tool, is_revoked,
  argument_digest, record_decision, refuse, authorize_confirmed, authorize,
}

abbrev pub is_ok {ℓ} : {A : Type ℓ} → Result A → Bool
is_ok (ok a) = true
is_ok (err c) = false

-- The confirmation is for the job, the tool and the digest of the arguments.
abbrev pub is_confirmed : String → String → String → Option Confirmation → Bool
is_confirmed job_id name digest none = false
is_confirmed job_id name digest (some c) =
    str_eq c.job_id job_id && (str_eq c.tool_name name && str_eq c.argument_digest digest)

-- Everything that a write needs.
abbrev pub is_granted :
    Registry → String → String → String → List String → Option Confirmation → Bool
is_granted r name job_id digest permissions confirmation =
    is_some (find_tool name r)
    && (contains permissions "write"
        && (is_confirmed job_id name digest confirmation && not (is_revoked job_id name r.revoked)))

abbrev is_for_call : String → String → Option Confirmation → Bool
is_for_call job_id name none = false
is_for_call job_id name (some c) = str_eq c.job_id job_id && str_eq c.tool_name name

abbrev is_for_digest : String → Option Confirmation → Bool
is_for_digest digest none = false
is_for_digest digest (some c) = str_eq c.argument_digest digest

-- What a write with a registered tool needs, in the order in which it is refused for it, each with
-- the decision that is recorded and the error that is raised where it is not so.
abbrev pub needs :
    Registry
    → String
    → String
    → String
    → List String
    → Option Confirmation
    → List (Bool × String × Code)
needs r name job_id digest permissions confirmation =
    (contains permissions "write", "refused-no-capability", write_capability_missing)
    ∷ (is_some confirmation, "refused-no-confirmation", write_confirmation_required)
    ∷ (
      is_for_call job_id name confirmation,
      "refused-confirmation-mismatch",
      write_confirmation_mismatch,
    )
    ∷ (
      is_for_digest digest confirmation,
      "refused-argument-mismatch",
      write_confirmation_argument_mismatch,
    )
    ∷ (not (is_revoked job_id name r.revoked), "refused-revoked", write_authorization_revoked)
    ∷ []

abbrev pub first_refusal : List (Bool × String × Code) → Option (String × Code)
first_refusal [] = none
first_refusal ((holds, decision, code) ∷ rest) =
    if holds then first_refusal rest else some (decision, code)

module _ (name job_id digest : String) where
  abbrev decided : String → AuthorizationRecord
  decided decision = record {
    job_id = job_id;
    tool_name = name;
    argument_digest = digest;
    decision = decision;
  }

  -- The result, and the audit with one more record.
  abbrev pub recorded :
      Option (String × Code)
      → List AuthorizationRecord
      → Result AuthorizationRecord × List AuthorizationRecord
  recorded none audit = (ok (decided "authorized"), audit ++ decided "authorized" ∷ [])
  recorded (some (decision, code)) audit = (err code, audit ++ decided decision ∷ [])

module _ {Arguments : Type 0} (digests : Digests Arguments) (r : Registry) (name job_id : String)
    (arguments : Arguments) (digest : String)
    (digest_of : argument_digest digests arguments ≡ ok digest) where
  record_decision-lem :
      (decision : String) (audit : List AuthorizationRecord)
      → record_decision digests job_id name arguments decision audit ≡ (
        ok (decided name job_id digest decision),
        audit ++ decided name job_id digest decision ∷ [],
      )
  unfolding record_decision
  record_decision-lem decision audit = rw (digest_of, record_decision)

  refuse-lem :
      (decision : String) (code : Code) (audit : List AuthorizationRecord)
      → refuse digests job_id name arguments decision code audit
        ≡ (err code, audit ++ decided name job_id digest decision ∷ [])
  unfolding refuse ◌>>=◌
  refuse-lem decision code audit = rw (record_decision-lem decision audit, refuse)

  -- One record has been added, and the result is as it should be.
  abbrev IsDecision :
      Bool
      → Option (String × Code)
      → List AuthorizationRecord
      → Result AuthorizationRecord × List AuthorizationRecord
      → Type 0
  IsDecision granted refusal audit x =
      (is_ok x.0 ≡ granted) × (x ≡ recorded name job_id digest refusal audit)

  refuse-IsDecision :
      (decision : String) (code : Code) (audit : List AuthorizationRecord)
      → IsDecision false
          (some (decision, code))
          audit
          (refuse digests job_id name arguments decision code audit)
  refuse-IsDecision decision code audit = rw (refuse-lem decision code audit) (refl, refl)

  granted-IsDecision :
      (audit : List AuthorizationRecord)
      → IsDecision true none audit
          (record_decision digests job_id name arguments "authorized" audit)
  granted-IsDecision audit = rw (record_decision-lem "authorized" audit) (refl, refl)

  authorize_confirmed-IsDecision :
      (c : Confirmation) (audit : List AuthorizationRecord)
      → IsDecision
          (is_confirmed job_id name digest (some c) && not (is_revoked job_id name r.revoked))
          (first_refusal (needs r name job_id digest ("write" ∷ []) (some c)))
          audit
          (authorize_confirmed digests r name job_id arguments c audit)
  unfolding authorize_confirmed ◌>>=◌
  authorize_confirmed-IsDecision c audit = elim (Bool-cases (str_eq c.job_id job_id)) [
    | inr a ↦ rw (a, authorize_confirmed) (refuse-IsDecision _ _ audit)
    | inl a ↦ elim (Bool-cases (str_eq c.tool_name name)) [
      | inr b ↦ rw (a, b, authorize_confirmed) (refuse-IsDecision _ _ audit)
      | inl b ↦ elim (Bool-cases (str_eq c.argument_digest digest)) [
        | inr d ↦ rw (a, b, authorize_confirmed, digest_of, d) (refuse-IsDecision _ _ audit)
        | inl d ↦ elim (Bool-cases (is_revoked job_id name r.revoked)) [
          | inl e ↦ rw (a, b, authorize_confirmed, digest_of, d, e) (refuse-IsDecision _ _ audit)
          | inr e ↦ rw (a, b, authorize_confirmed, digest_of, d, e) (granted-IsDecision audit)
        ]
      ]
    ]
  ]

  decide_confirmed :
      (confirmation : Option Confirmation) (audit : List AuthorizationRecord)
      → let checked : Exec (List AuthorizationRecord) AuthorizationRecord = elim confirmation [
        | none ↦
            refuse digests job_id name arguments "refused-no-confirmation"
              write_confirmation_required
        | some c ↦ authorize_confirmed digests r name job_id arguments c
      ] in
        IsDecision
          (is_confirmed job_id name digest confirmation && not (is_revoked job_id name r.revoked))
          (first_refusal (needs r name job_id digest ("write" ∷ []) confirmation))
          audit
          (checked audit)
  decide_confirmed none audit = refuse-IsDecision _ _ audit
  decide_confirmed (some c) audit = authorize_confirmed-IsDecision c audit

  -- For arguments with a digest, `authorize` grants a write if and only if the tool is registered, the
  -- caller may write, the confirmation is for this job, this tool and these arguments, and the tool
  -- is not revoked for the job. For a registered tool the audit gets one record, with the job, the
  -- tool, the digest and the decision: "authorized" for a write that is granted, and for another the
  -- first refusal in the order of the tests, whose error is raised. For a tool that is not registered
  -- that is raised, and nothing is recorded.
  pub authorize-decides :
      (permissions : List String) (confirmation : Option Confirmation)
      (audit : List AuthorizationRecord)
      → let x = authorize digests r name job_id arguments permissions confirmation audit in
        (is_ok x.0 ≡ is_granted r name job_id digest permissions confirmation)
        × (((is_some (find_tool name r) ≡ false) × (x ≡ (err write_tool_not_registered, audit)))
            ⊎ ((is_some (find_tool name r) ≡ true)
                × (x
                    ≡ recorded name job_id digest
                        (first_refusal (needs r name job_id digest permissions confirmation))
                        audit)))
  unfolding authorize raise
  authorize-decides permissions confirmation audit =
      elim (Bool-cases (is_some (find_tool name r))) [
        | inr a ↦ rw (a, authorize) (refl, inl (refl, refl))
        | inl a ↦ elim (Bool-cases (contains permissions "write")) [
          | inr b ↦
              let d = refuse-IsDecision _ _ audit in rw (a, b, authorize) (d.0, inr (refl, d.1))
          | inl b ↦
              let d = decide_confirmed confirmation audit in
              rw (a, b, authorize) (d.0, inr (refl, d.1))
        ]
      ]
