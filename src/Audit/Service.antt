-- ===== src/Audit/Service.antt =====
-- src/audit/audit.service.ts and src/audit/chain-verification.service.ts: rows are appended unless the
-- chain is locked, and the daily verification locks it.
use jin_core.Base.{String, true, false, Option, none, some, if◌then◌else◌}
use jin_core.Audit.Chain.{
  Codec, Entry, AuditRow, ApprovalStatus, tool_call, approval, rejection, execution_failed, timeout,
  approved, rejected, failed, ChainVerificationResult, valid, broken_at, verify_chain,
}
use jin_core.Runtime.Program.{
  Prog, ret, throw, query, ◌>>=◌, ◌>>◌, audit_chain_locked, audit_locked, audit_append, audit_all,
  chain_lock_write,
}

-- the chain may be locked between the test and the transaction, as in the source
unfoldable pub append_row : Entry → Prog AuditRow
append_row e = do
  is_locked ← query audit_locked
  if is_locked then throw audit_chain_locked else query (audit_append e)

-- the three statuses that `recordToolCall` takes
unfoldable pub record_tool_call :
    String
    → String
    → String
    → String
    → Option String
    → ApprovalStatus
    → Option String
    → Prog AuditRow
unfolding append_row
record_tool_call rid actor tool inputs_hash plan status external = append_row (record {
  request_id = rid;
  actor = actor;
  action_type = tool_call;
  tool_name = some tool;
  inputs_hash = inputs_hash;
  plan_summary = plan;
  approval_status = status;
  approver = none;
  external_inputs_summary = external;
})

unfoldable pub record_approval : String → String → String → String → Prog AuditRow
unfolding append_row
record_approval rid approver tool inputs_hash = append_row (record {
  request_id = rid;
  actor = "user";
  action_type = approval;
  tool_name = some tool;
  inputs_hash = inputs_hash;
  plan_summary = none;
  approval_status = approved;
  approver = some approver;
  external_inputs_summary = none;
})

unfoldable pub record_rejection : String → String → String → String → Prog AuditRow
unfolding append_row
record_rejection rid approver tool inputs_hash = append_row (record {
  request_id = rid;
  actor = "user";
  action_type = rejection;
  tool_name = some tool;
  inputs_hash = inputs_hash;
  plan_summary = none;
  approval_status = rejected;
  approver = some approver;
  external_inputs_summary = none;
})

unfoldable pub record_execution_failure : String → String → String → Prog AuditRow
unfolding append_row
record_execution_failure rid tool inputs_hash = append_row (record {
  request_id = rid;
  actor = "system";
  action_type = execution_failed;
  tool_name = some tool;
  inputs_hash = inputs_hash;
  plan_summary = none;
  approval_status = failed;
  approver = none;
  external_inputs_summary = none;
})

-- `timed_out` or `abandoned`
unfoldable pub record_timeout : String → String → String → ApprovalStatus → Prog AuditRow
unfolding append_row
record_timeout rid tool inputs_hash status = append_row (record {
  request_id = rid;
  actor = "system";
  action_type = timeout;
  tool_name = some tool;
  inputs_hash = inputs_hash;
  plan_summary = none;
  approval_status = status;
  approver = none;
  external_inputs_summary = none;
})

-- `ChainVerificationService.unlock`
unfoldable pub unlock : Prog (Unit {0})
unlock = query (chain_lock_write false)

unfoldable pub lock_if_broken : ChainVerificationResult → Prog ChainVerificationResult
lock_if_broken valid = ret valid
lock_if_broken (broken_at id) = do query (chain_lock_write true); ret (broken_at id)

unfoldable pub verify_daily : Codec → Prog ChainVerificationResult
unfolding lock_if_broken
verify_daily c = do rows ← query audit_all; lock_if_broken (verify_chain c rows)
