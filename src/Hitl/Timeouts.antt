-- ===== src/Hitl/Timeouts.antt =====
-- src/hitl/timeout.service.ts: the hourly sweep over the pending approvals. It never approves.
use jin_core.Base.{
  Option, ℕ, ◌-◌, String, Bool, true, false, none, some, List, [], ◌∷◌, ltb, is_some, or_else,
}
use jin_core.Hitl.Pending.{Row, stuck_claim_after_ms}
use jin_core.Hitl.Timing.{
  TimeoutBehavior, discard_silently, TimeoutOutcome, keep, discard, escalate_warning, abandon,
  decide_timeout_outcome,
}
use jin_core.Hitl.DualConfirm.{claim_for_execution, release_claim}
use jin_core.Audit.Chain.{ApprovalStatus, timed_out, abandoned}
use jin_core.Audit.Service
use jin_core.Tools.Registry.{get_tool_definition}
use jin_core.Runtime.Program.{
  Prog, ret, throw, catch, query, when, ◌>>=◌, ◌>>◌, clock, emit, pending_all, pending_remove,
  pending_escalate, approval_escalated, approval_abandoned, approval_stuck,
}

-- `tool?.timeoutBehavior ?? 'discard'`
unfoldable pub behavior_of : String → TimeoutBehavior
unfolding get_tool_definition
behavior_of tool = elim (get_tool_definition tool) [
  | none ↦ discard_silently
  | some t ↦ or_else t.timeout_behavior discard_silently
]

-- the audit of a won claim, which gives the claim back when it fails
unfoldable pub audit_timeout_guarded : Row → ApprovalStatus → Prog (Unit {0})
unfolding release_claim Service.record_timeout
audit_timeout_guarded pending status =
    catch
      (Service.record_timeout pending.request_id pending.tool_name pending.inputs_hash status
        >> ret tt)
      (λ e. release_claim pending.request_id none >> throw e)

unfoldable pub audit_timeout : Row → ApprovalStatus → Prog Bool
unfolding audit_timeout_guarded
audit_timeout pending status = audit_timeout_guarded pending status >> ret true

-- `false`: another request is executing the row now
unfoldable pub claim_and_audit_timeout : Row → ApprovalStatus → Prog Bool
unfolding claim_for_execution audit_timeout
claim_and_audit_timeout pending status = do
  claimed ← claim_for_execution pending.request_id
  elim claimed [ none ↦ ret false | some _ ↦ audit_timeout pending status ]

-- the `switch` on the outcome
unfoldable pub apply_outcome : TimeoutOutcome → Row → ℕ → Prog (Unit {0})
unfolding claim_and_audit_timeout
apply_outcome keep pending now = ret tt
apply_outcome discard pending now = do
  won ← claim_and_audit_timeout pending timed_out
  when won (query (pending_remove pending.request_id))
apply_outcome escalate_warning pending now = do
  query (pending_escalate pending.request_id now)
  query (emit (approval_escalated pending.request_id pending.tool_name))
apply_outcome abandon pending now = do
  won ← claim_and_audit_timeout pending abandoned
  when won (
      query (pending_remove pending.request_id)
      >> query (emit (approval_abandoned pending.request_id pending.tool_name)))

-- by `executingAt`: a claimed row is only reported
unfoldable pub process_row : Option ℕ → Row → ℕ → Prog (Unit {0})
unfolding apply_outcome behavior_of
process_row (some since) pending now =
    when (ltb stuck_claim_after_ms (now - since))
      (query (emit (approval_stuck pending.request_id pending.tool_name)))
process_row none pending now =
    apply_outcome
      (decide_timeout_outcome (record {
        created_at = pending.created_at;
        timeout_behavior = behavior_of pending.tool_name;
        already_escalated = is_some pending.escalated_at;
        now = now;
      }))
      pending now

unfoldable pub process_pending : Row → ℕ → Prog (Unit {0})
unfolding process_row
process_pending pending now = process_row pending.executing_at pending now

-- an exception ends the loop
unfoldable pub process_all : List Row → ℕ → Prog (Unit {0})
unfolding process_pending
process_all [] now = ret tt
process_all (row ∷ rows) now = process_pending row now >> process_all rows now

unfoldable pub sweep : Prog (Unit {0})
unfolding process_all
sweep = do now ← query clock; rows ← query pending_all; process_all rows now
