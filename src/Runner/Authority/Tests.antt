-- ===== src/Runner/Authority/Tests.antt =====
-- Decisions of a small registry.
use study_assistance_agent.Prelude.{
  find_row, String, ◌≡◌, refl, true, false, is_some, ◌⊎◌, some, [], ◌∷◌,
}
use study_assistance_agent.Exec.{err, write_tool_not_registered}
use study_assistance_agent.Runner.Authority.{
  argument_digest, find_tool, is_revoked, Digests, Registry, Capability, Confirmation,
  runner_write_tool_allowlist, authorize,
}
use study_assistance_agent.Runner.Authority.Decisions.{
  is_ok, needs, first_refusal, recorded, authorize-decides,
}

abbrev digests : Digests String
digests = record { dumps = λ x. some x; sha256 = λ x. x }

abbrev registry : Registry
registry = record {
  allowlist = runner_write_tool_allowlist;
  tools = record { name = "log_review"; capability = Capability.write; idempotent = true } ∷ [];
  revoked = "k|log_review" ∷ [];
}

abbrev confirmation : Confirmation
confirmation = record { job_id = "j"; tool_name = "log_review"; argument_digest = "a" }

authorize-decides_example :
    let x = authorize digests registry "log_review" "j" "a" ("write" ∷ []) (some confirmation) [] in
    (is_ok x.0 ≡ true)
    × (((is_some (find_tool "log_review" registry) ≡ false)
          × (x ≡ (err write_tool_not_registered, [])))
        ⊎ ((is_some (find_tool "log_review" registry) ≡ true)
            × (x
                ≡ recorded "log_review" "j" "a"
                    (first_refusal
                      (needs registry "log_review" "j" "a" ("write" ∷ []) (some confirmation)))
                    [])))
unfolding argument_digest find_tool find_row is_revoked
authorize-decides_example =
    authorize-decides digests registry "log_review" "j" "a" "a" refl ("write" ∷ [])
      (some confirmation) []
