-- ===== src/Hitl/DualConfirm.antt =====
-- src/hitl/dual-confirm.service.ts: the approvals that wait for a human.
use jin_core.Base.{ℕ, zero, suc, ◌-◌, String, Bool, Option, none, some, or_else, if◌then◌else◌}
use jin_core.Hitl.Levels.{PendingLevel, parse_level, confirm_once, confirm_twice, level_text}
use jin_core.Hitl.Payload.{Payload}
use jin_core.Hitl.Pending.{Row, stuck_claim_after_ms}
use jin_core.Hitl.Timing.{compute_available_at, can_accept_second_approval}
use jin_core.Audit.Chain
use jin_core.Audit.Service.{record_tool_call}
use jin_core.Runtime.Program.{
  Prog, ret, throw, query, ◌>>=◌, ◌>>◌, pending_approval_not_found, second_approval_too_early,
  zod_error, out_of_fuel, pending_approval_created, clock, emit, pending_insert, pending_select,
  pending_first_approval, pending_claim, pending_release, pending_remove, pending_remove_idle,
}

pub record CreatePendingApprovalInput : Type 0 where
  pub request_id : String
  pub tool_name : String
  pub level : PendingLevel
  pub inputs_hash : String
  pub plan_summary : Option String
  pub payload : Option Payload
  pub actor : Option String
  pub external_inputs_summary : Option String

pub data ApprovalOutcome : Type 0 where
  resolved awaiting_second : ApprovalOutcome

-- the database fills `created_at`
abbrev pub new_row : CreatePendingApprovalInput → Row
new_row i = record {
  request_id = i.request_id;
  tool_name = i.tool_name;
  level = level_text i.level;
  inputs_hash = i.inputs_hash;
  plan_summary = i.plan_summary;
  actor = i.actor;
  external_inputs_summary = i.external_inputs_summary;
  payload = i.payload;
  created_at = 0;
  first_approved_at = none;
  first_approver = none;
  available_at = none;
  escalated_at = none;
  executing_at = none;
  execution_error = none;
}

unfoldable pub create_pending_approval : CreatePendingApprovalInput → Prog (Unit {0})
create_pending_approval i = do
  query (pending_insert (new_row i))
  record_tool_call i.request_id (or_else i.actor "agent") i.tool_name i.inputs_hash i.plan_summary
      Chain.ApprovalStatus.pending i.external_inputs_summary
  query (emit (pending_approval_created i.request_id i.tool_name i.level))

unfoldable pub get_pending : String → Prog (Option Row)
get_pending rid = query (pending_select rid)

-- The part of `recordApproval` behind the test on 'confirm', by `firstApprovedAt`; `again` is its call
-- of itself.
unfoldable pub approve_twice :
    Prog ApprovalOutcome → String → String → ℕ → Option ℕ → Option ℕ → Prog ApprovalOutcome
approve_twice again rid approver now available_at none = do
  won ← query (pending_first_approval rid approver now (compute_available_at now))
  if won then ret awaiting_second else again
approve_twice again rid approver now available_at (some first) =
    let available = or_else available_at (compute_available_at first) in
    if can_accept_second_approval available now
    then ret resolved
    else throw (second_approval_too_early rid available)

-- the part behind the lookup, by the parsed level
unfoldable pub approve_level :
    Prog ApprovalOutcome → String → String → ℕ → Row → Option PendingLevel → Prog ApprovalOutcome
unfolding approve_twice
approve_level again rid approver now row none = throw zod_error
approve_level again rid approver now row (some confirm_once) = ret resolved
approve_level again rid approver now row (some confirm_twice) =
    approve_twice again rid approver now row.available_at row.first_approved_at

-- Two lookups are enough: after a lost race `first_approved_at` is set.
unfoldable pub record_approval : ℕ → String → String → ℕ → Prog ApprovalOutcome
unfolding approve_level get_pending parse_level
record_approval zero rid approver now = throw out_of_fuel
record_approval (suc fuel) rid approver now = do
  pending ← get_pending rid
  elim pending [
    | none ↦ throw (pending_approval_not_found rid)
    | some row ↦
        approve_level (record_approval fuel rid approver now) rid approver now row
          (parse_level row.level)
  ]

abbrev pub approval_fuel : ℕ
approval_fuel = 2

unfoldable pub claim_for_execution : String → Prog (Option Row)
claim_for_execution rid = do now ← query clock; query (pending_claim rid now)

unfoldable pub release_claim : String → Option String → Prog (Unit {0})
release_claim rid error = query (pending_release rid error)

unfoldable pub remove_pending : String → Prog (Unit {0})
remove_pending rid = query (pending_remove rid)

unfoldable pub remove_if_not_executing : String → Prog Bool
remove_if_not_executing rid = do
  now ← query clock
  query (pending_remove_idle rid (now - stuck_claim_after_ms))
