-- ===== src/Runner/Authority.antt =====
-- `RunnerWriteRegistry`, `RevocationRegistry`, `WriteScope`, `Confirmation` and the digests of
-- platform/app/runner_authority.py. The JSON text of the arguments and SHA-256 are the standard
-- library's, and parameters here; the time stamps of the records, which nothing reads, are left out.
pub mod Decisions
mod Tests
use study_assistance_agent.Prelude.{
  String, str_eq, ◌+++◌, Bool, true, false, not, ◌||◌, Option, none, some, List, [], ◌∷◌, ◌++◌, any,
  if◌then◌else◌, is_some, find_row,
}
use study_assistance_agent.Exec.{
  Code, Exec, Result, ok, err, raise, lift, ◌>>=◌, ◌>>◌, write_scope_invalid,
  write_arguments_invalid, write_confirmation_invalid, write_allowlist_overlap,
  write_tool_not_allowed, write_tool_not_write, write_tool_not_idempotent, write_tool_duplicate,
  write_tool_not_registered, write_capability_missing, write_confirmation_required,
  write_confirmation_mismatch, write_confirmation_argument_mismatch, write_authorization_revoked,
}

-- The tool arguments' type, `json.dumps` of it (`none` where it raises), and SHA-256 in hexadecimal.
pub record Digests (Arguments : Type 0) : Type 0 where
  pub dumps : Arguments → Option String
  pub sha256 : String → String

abbrev pub runner_write_tool_allowlist : List String
runner_write_tool_allowlist = "log_review" ∷ []

-- `PREVIEW_TOOL_ALLOWLIST` of platform/app/tool_registry.py
abbrev pub preview_tool_allowlist : List String
preview_tool_allowlist = "quiz_preview" ∷ "retrieve" ∷ "review_due" ∷ []

abbrev pub contains : List String → String → Bool
contains xs x = any (λ y. str_eq y x) xs

pub record WriteScope : Type 0 where
  pub learner_id : String
  pub source_scope : String
  pub course : Option String

-- `WriteScope.__post_init__`
unfoldable pub make_scope : String → String → Option String → Result WriteScope
make_scope learner_id source_scope course =
    if str_eq learner_id ""
    then err write_scope_invalid
    else if not (contains ("DEFAULT_ONLY" ∷ "DEFAULT_PLUS_EXTRAS" ∷ []) source_scope)
    then err write_scope_invalid
    else ok (record { learner_id = learner_id; source_scope = source_scope; course = course })

pub data Capability : Type 0 where
  read write : Capability

-- What the registry reads of a `ToolSpec`.
pub record ToolSpec : Type 0 where
  pub name : String
  pub capability : Capability
  pub idempotent : Bool

pub record Confirmation : Type 0 where
  pub job_id : String
  pub tool_name : String
  pub argument_digest : String

-- `Confirmation.__post_init__`
unfoldable pub make_confirmation : String → String → String → Result Confirmation
make_confirmation job_id tool_name argument_digest =
    if contains (job_id ∷ tool_name ∷ argument_digest ∷ []) ""
    then err write_confirmation_invalid
    else ok (record { job_id = job_id; tool_name = tool_name; argument_digest = argument_digest })

-- One decision, with the digest of the arguments.
pub record AuthorizationRecord : Type 0 where
  pub job_id : String
  pub tool_name : String
  pub argument_digest : String
  pub decision : String

-- The registry with the revocations that it was given.
pub record Registry : Type 0 where
  pub allowlist : List String
  pub tools : List ToolSpec
  pub revoked : List String

-- `RunnerWriteRegistry.__init__`
unfoldable pub make_registry : List String → List String → Result Registry
make_registry allowlist revoked =
    if any (contains preview_tool_allowlist) allowlist
    then err write_allowlist_overlap
    else ok (record { allowlist = allowlist; tools = []; revoked = revoked })

unfoldable pub find_tool : String → Registry → Option ToolSpec
find_tool name r = find_row (λ t. str_eq t.name name) r.tools

abbrev is_write : Capability → Bool
is_write write = true
is_write read = false

unfoldable pub register : ToolSpec → Exec Registry (Unit {0})
unfolding find_tool
register spec r =
    if not (contains r.allowlist spec.name)
    then (err write_tool_not_allowed, r)
    else if not (is_write spec.capability)
    then (err write_tool_not_write, r)
    else if not spec.idempotent
    then (err write_tool_not_idempotent, r)
    else if is_some (find_tool spec.name r)
    then (err write_tool_duplicate, r)
    else (ok tt, record r { tools = r.tools ++ spec ∷ [] })

-- `RevocationRegistry._key`
unfoldable pub revocation_key : String → String → String
revocation_key job_id tool_name = job_id +++ ("|" +++ tool_name)

unfoldable pub revoke : String → String → Registry → Registry
unfolding revocation_key
revoke job_id tool_name r = record r { revoked = revocation_key job_id tool_name ∷ r.revoked }

unfoldable pub is_revoked : String → String → List String → Bool
unfolding revocation_key
is_revoked job_id tool_name revoked = contains revoked (revocation_key job_id tool_name)

module _ {Arguments : Type 0} (digests : Digests Arguments) where
  unfoldable pub argument_digest : Arguments → Result String
  argument_digest arguments = elim (digests.dumps arguments) [
    | none ↦ err write_arguments_invalid
    | some text ↦ ok (digests.sha256 text)
  ]

  unfoldable pub key_of_digest : String → String → String → String → String
  key_of_digest job_id tool_name digest scope_id =
      digests.sha256
        (job_id +++ ("|" +++ (tool_name +++ ("|" +++ (digest +++ ("|" +++ scope_id))))))

  unfoldable pub idempotency_key : String → String → Arguments → String → Result String
  unfolding argument_digest key_of_digest
  idempotency_key job_id tool_name arguments scope_id = elim (argument_digest arguments) [
    | err c ↦ err c
    | ok digest ↦ ok (key_of_digest job_id tool_name digest scope_id)
  ]

  unfoldable pub issue_confirmation : String → String → Arguments → Result Confirmation
  unfolding argument_digest
  issue_confirmation job_id tool_name arguments = elim (argument_digest arguments) [
    | err c ↦ err c
    | ok digest ↦ make_confirmation job_id tool_name digest
  ]

  -- `_record`: the digest is computed first, and raises for arguments that are no JSON.
  unfoldable pub record_decision :
      String → String → Arguments → String → Exec (List AuthorizationRecord) AuthorizationRecord
  unfolding argument_digest
  record_decision job_id name arguments decision audit = elim (argument_digest arguments) [
    | err c ↦ (err c, audit)
    | ok digest ↦
        let entry : AuthorizationRecord = record {
          job_id = job_id;
          tool_name = name;
          argument_digest = digest;
          decision = decision;
        } in
        (ok entry, audit ++ entry ∷ [])
  ]

  -- A refusal is recorded and then raised.
  unfoldable pub refuse :
      String
      → String
      → Arguments
      → String
      → Code
      → Exec (List AuthorizationRecord) AuthorizationRecord
  unfolding record_decision ◌>>=◌
  refuse job_id name arguments decision code =
      record_decision job_id name arguments decision >> raise code

  -- The tests after the one for a confirmation.
  unfoldable pub authorize_confirmed :
      Registry
      → String
      → String
      → Arguments
      → Confirmation
      → Exec (List AuthorizationRecord) AuthorizationRecord
  unfolding refuse argument_digest ◌>>=◌
  authorize_confirmed r name job_id arguments confirmation =
      if not (str_eq confirmation.job_id job_id) || not (str_eq confirmation.tool_name name)
      then refuse job_id name arguments "refused-confirmation-mismatch" write_confirmation_mismatch
      else do
        digest ← lift (argument_digest arguments)
        if not (str_eq confirmation.argument_digest digest)
            then refuse job_id name arguments "refused-argument-mismatch"
                write_confirmation_argument_mismatch
            else if is_revoked job_id name r.revoked
            then refuse job_id name arguments "refused-revoked" write_authorization_revoked
            else record_decision job_id name arguments "authorized"

  unfoldable pub authorize :
      Registry
      → String
      → String
      → Arguments
      → List String
      → Option Confirmation
      → Exec (List AuthorizationRecord) AuthorizationRecord
  unfolding refuse authorize_confirmed find_tool is_revoked
  authorize r name job_id arguments permissions confirmation =
      if not (is_some (find_tool name r))
      then raise write_tool_not_registered
      else if not (contains permissions "write")
      then refuse job_id name arguments "refused-no-capability" write_capability_missing
      else elim confirmation [
        | none ↦ refuse job_id name arguments "refused-no-confirmation" write_confirmation_required
        | some c ↦ authorize_confirmed r name job_id arguments c
      ]
