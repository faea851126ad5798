-- ===== src/Hitl/Execution.antt =====
-- src/hitl/approval-execution.service.ts: approve and execute, or reject, with the claim on the row as
-- the point of no return.
use jin_core.Base.{true, false, ℕ, ◌-◌, String, Bool, false, Option, none, some, ltb, is_none}
use Prim.Native.String.{◌++◌}
use jin_core.Hitl.Pending.{Row, stuck_claim_after_ms}
use jin_core.Hitl.DualConfirm.{
  ApprovalOutcome, resolved, awaiting_second, get_pending, record_approval, approval_fuel,
  claim_for_execution, release_claim, remove_pending, remove_if_not_executing,
}
use jin_core.Hitl.Executors.{Registry, execute}
use jin_core.Audit.Service
use jin_core.Runtime.Program.{
  Error, Prog, ret, throw, catch, query, when, ◌>>=◌, ◌>>◌, clock, pending_approval_not_found,
  approval_already_resolved,
}
use jin_core.Runtime.World.{Host}

pub data ResolveResult : Type 0 where
  awaits : ResolveResult
  executed : String → String → ResolveResult  -- the tool and its result

-- whether a claim is older than the limit; an absent one is not
abbrev pub is_stuck : Option ℕ → ℕ → Bool
is_stuck none now = false
is_stuck (some since) now = ltb stuck_claim_after_ms (now - since)

module _ (h : Host) where
  -- the audit of the intention, which gives the claim back when it fails
  unfoldable pub audit_intention : String → String → Row → Prog (Unit {0})
  unfolding release_claim Service.record_approval
  audit_intention rid approver row =
      catch (Service.record_approval rid approver row.tool_name row.inputs_hash >> ret tt) (λ e.
        release_claim rid (some ("audit falló antes de ejecutar: " ++ h.message_of e)) >> throw e)

  -- the failure is made visible and is not retried
  unfoldable pub report_failure : String → Row → Error → Prog String
  unfolding release_claim Service.record_execution_failure
  report_failure rid row e = do
    release_claim rid (some (h.message_of e))
    catch (Service.record_execution_failure rid row.tool_name row.inputs_hash >> ret tt)
        (λ _. ret tt)
    throw e

module _ (h : Host) (executors : Registry) where
  unfoldable pub call_executor : String → Row → Prog String
  unfolding execute report_failure
  call_executor rid row =
      catch (execute executors row.tool_name row.payload rid) (report_failure h rid row)

  -- the execution and the removal of the row; a failed removal leaves the row claimed
  unfoldable pub execute_audited : String → Row → Prog ResolveResult
  unfolding call_executor remove_pending
  execute_audited rid row = do
    result ← call_executor rid row
    catch (remove_pending rid) (λ _. ret tt)
    ret (executed row.tool_name result)

  -- all that follows a won claim
  unfoldable pub run_claimed : String → String → Row → Prog ResolveResult
  unfolding audit_intention execute_audited
  run_claimed rid approver row = do audit_intention h rid approver row; execute_audited rid row

  unfoldable pub claim_and_run : String → String → Prog ResolveResult
  unfolding claim_for_execution run_claimed
  claim_and_run rid approver = do
    claimed ← claim_for_execution rid
    elim claimed [
      | none ↦ throw (approval_already_resolved rid)
      | some row ↦ run_claimed rid approver row
    ]

  -- by the outcome of `recordApproval`
  unfoldable pub after_approval : String → String → ApprovalOutcome → Prog ResolveResult
  unfolding claim_and_run
  after_approval rid approver awaiting_second = ret awaits
  after_approval rid approver resolved = claim_and_run rid approver

  unfoldable pub resolve_and_execute : String → String → Prog ResolveResult
  unfolding get_pending record_approval after_approval
  resolve_and_execute rid approver = do
    pending ← get_pending rid
    when (is_none pending) (throw (pending_approval_not_found rid))
    now ← query clock
    outcome ← record_approval approval_fuel rid approver now
    after_approval rid approver outcome

-- the rejection of a row that another call has claimed, by whether that claim is stuck
unfoldable pub clear_stuck : String → String → Row → Bool → Prog (Unit {0})
unfolding Service.record_rejection remove_if_not_executing
clear_stuck rid approver pending true =
    Service.record_rejection rid approver pending.tool_name pending.inputs_hash
    >> remove_if_not_executing rid
    >> ret tt
clear_stuck rid approver pending false = throw (approval_already_resolved rid)

unfoldable pub reject_stuck : String → String → Row → Prog (Unit {0})
unfolding clear_stuck
reject_stuck rid approver pending = do
  now ← query clock
  clear_stuck rid approver pending (is_stuck pending.executing_at now)

-- the audit of a rejection, which gives the claim back when it fails
unfoldable pub audit_rejection : String → String → Row → Prog (Unit {0})
unfolding Service.record_rejection release_claim
audit_rejection rid approver claimed =
    catch (Service.record_rejection rid approver claimed.tool_name claimed.inputs_hash >> ret tt)
      (λ e. release_claim rid none >> throw e)

unfoldable pub reject_claimed : String → String → Row → Prog (Unit {0})
unfolding audit_rejection remove_pending
reject_claimed rid approver claimed = do audit_rejection rid approver claimed; remove_pending rid

unfoldable pub resolve_rejection : String → String → Prog (Unit {0})
unfolding get_pending claim_for_execution reject_stuck reject_claimed
resolve_rejection rid approver = do
  found ← get_pending rid
  elim found [
    | none ↦ throw (pending_approval_not_found rid)
    | some pending ↦ do
      claimed ← claim_for_execution rid
      elim claimed [
        | none ↦ reject_stuck rid approver pending
        | some row ↦ reject_claimed rid approver row
      ]
  ]
