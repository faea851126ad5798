-- ===== src/Audit/Chain.antt =====
-- src/audit/hash-chain.ts: the hash chain of the audit log. SHA-256, JSON and the text of a date are
-- not the repository's code: they are the parameter `Codec`.
use jin_core.Base.{ℕ, String, Option, some, List, [], ◌∷◌, str_eq, if◌then◌else◌}
use Prim.Native.String.{◌++◌}

-- the values that the rows hold: JSON null and text
abbrev pub JsonValue : Type 0
JsonValue = Option String

pub record Codec : Type 0 where
  pub sha256 : String → String  -- `createHash('sha256').update(s).digest('hex')`
  pub stringify : List (String × JsonValue) → String  -- `JSON.stringify` of an object literal
  pub iso : ℕ → String  -- `Date.toISOString`

pub data ActionType : Type 0 where
  tool_call approval rejection execution_failed timeout : ActionType

abbrev pub action_text : ActionType → String
action_text tool_call = "tool_call"
action_text approval = "approval"
action_text rejection = "rejection"
action_text execution_failed = "execution_failed"
action_text timeout = "timeout"

pub data ApprovalStatus : Type 0 where
  auto notified pending approved rejected failed timed_out abandoned : ApprovalStatus

abbrev pub status_text : ApprovalStatus → String
status_text auto = "auto"
status_text notified = "notified"
status_text pending = "pending"
status_text approved = "approved"
status_text rejected = "rejected"
status_text failed = "failed"
status_text timed_out = "timeout"
status_text abandoned = "abandoned"

-- `AppendableRow`: what a caller hands over, without the time
pub record Entry : Type 0 where
  pub request_id : String
  pub actor : String
  pub action_type : ActionType
  pub tool_name : Option String
  pub inputs_hash : String
  pub plan_summary : Option String
  pub approval_status : ApprovalStatus
  pub approver : Option String
  pub external_inputs_summary : Option String

-- `HashableRow`
pub record HashableRow : Type 0 where
  pub entry : Entry
  pub timestamp : ℕ

-- `AuditLogRow`
pub record AuditRow : Type 0 where
  pub id : ℕ
  pub content : HashableRow
  pub prev_hash : String
  pub current_hash : String

-- `GENESIS_HASH`: '0' sixty-four times
abbrev pub genesis_hash : String
genesis_hash = "0000000000000000000000000000000000000000000000000000000000000000"

pub data ChainVerificationResult : Type 0 where
  valid : ChainVerificationResult
  broken_at : ℕ → ChainVerificationResult

module _ (c : Codec) where
  unfoldable pub canonicalize_row : HashableRow → String
  canonicalize_row row =
      let e = row.entry in
      c.stringify (
        ("requestId", some e.request_id)
        ∷ ("timestamp", some (c.iso row.timestamp))
        ∷ ("actor", some e.actor)
        ∷ ("actionType", some (action_text e.action_type))
        ∷ ("toolName", e.tool_name)
        ∷ ("inputsHash", some e.inputs_hash)
        ∷ ("planSummary", e.plan_summary)
        ∷ ("approvalStatus", some (status_text e.approval_status))
        ∷ ("approver", e.approver)
        ∷ ("externalInputsSummary", e.external_inputs_summary)
        ∷ [])

  -- two `update` calls feed the digest one after the other
  unfoldable pub compute_hash : String → String → String
  compute_hash prev_hash row_data = c.sha256 (prev_hash ++ row_data)

  unfoldable pub compute_row_hash : String → HashableRow → String
  compute_row_hash prev_hash row = compute_hash prev_hash (canonicalize_row row)

  -- the loop of `verifyChain`
  unfoldable pub verify_from : String → List AuditRow → ChainVerificationResult
  verify_from expected [] = valid
  verify_from expected (row ∷ rows) =
      let rest = verify_from row.current_hash rows in
      if str_eq row.prev_hash expected
      then (if str_eq (compute_row_hash row.prev_hash row.content) row.current_hash
          then rest
          else broken_at row.id)
      else broken_at row.id

  unfoldable pub verify_chain : List AuditRow → ChainVerificationResult
  unfolding verify_from
  verify_chain rows = verify_from genesis_hash rows
