-- ===== src/Approval/Executes.antt =====
-- The approval that completes a request: the tool runs once, on the record, and the row is gone.
use jin_core.Approval.Order.{clears}
use jin_core.Runtime.Steps.{run_ret, run-ask}
use jin_core.Approval.Outcomes.{to_claim, returning_open}
use jin_core.Hitl.DualConfirm.{remove_pending}
use jin_core.Runtime.Program.{
  pending_remove, invoke, ◌>>◌, ret, ◌>>=◌, catch, audit_append, clock, ok, pending_claim,
  audit_locked,
}
use jin_core.Hitl.Execution.{
  report_failure, resolve_and_execute, executed, run_claimed, claim_and_run, execute_audited,
}
use jin_core.Hitl.Executors.{execute_with, integration, lookup_executor, Registry}
use jin_core.Audit.Chain.{approved, approval, Entry}
use jin_core.Runtime.World.{run, next_audit_row, perform, World, Host}
use jin_core.Hitl.Pending.{has_id, delete_where, claim_row, is_open, update_where, select, Row}
use jin_core.Base.{suc, ◌≡◌, refl, ap, ◌∙◌, String, true, false, none, some, [], ◌∷◌, ◌++◌}

-- the audit's entry for the approval of a row
abbrev pub approval_entry : String → String → Row → Entry
approval_entry rid approver row = record {
  request_id = rid;
  actor = "user";
  action_type = approval;
  tool_name = some row.tool_name;
  inputs_hash = row.inputs_hash;
  plan_summary = none;
  approval_status = approved;
  approver = some approver;
  external_inputs_summary = none;
}

module _ (h : Host) (reg : Registry) (rid approver : String) (w : World) (row : Row)
    (found : select rid w.pending ≡ some row) where
  -- the world with the row claimed
  abbrev claimed_world : World
  claimed_world = record w { pending = update_where (is_open rid) (claim_row w.now) w.pending }

  -- and with the approval on record
  abbrev audited_world : World
  audited_world = record claimed_world {
    audit = w.audit ++ next_audit_row h (approval_entry rid approver row) w ∷ [];
    audit_ids = suc w.audit_ids;
  }

  won_claim :
      row.executing_at ≡ none
      → perform h (pending_claim rid w.now) w ≡ (ok (some (claim_row w.now row)), claimed_world)
  unfolding perform
  won_claim free = rw (returning_open rid (claim_row w.now) w.pending row found free)

  unlocked :
      w.chain_locked ≡ false → perform h audit_locked claimed_world ≡ (ok false, claimed_world)
  unfolding perform
  unlocked open_chain = rw open_chain

  to_execution :
      row.executing_at ≡ none
      → w.chain_locked ≡ false
      → run h [] (claim_and_run h reg rid approver) w
        ≡ run h [] (execute_audited h reg rid (claim_row w.now row)) audited_world
  unfolding claim_and_run run_claimed perform
  to_execution free open_chain =
      run-ask h clock _ w refl
      ∙ run-ask h (pending_claim rid w.now) _ w (won_claim free)
      ∙ run-ask h audit_locked _ claimed_world (unlocked open_chain)
      ∙ run-ask h (audit_append (approval_entry rid approver row)) _ claimed_world refl

  abbrev invoked_world : World
  invoked_world = record audited_world {
    invoked = (record { tool = row.tool_name; payload = row.payload; request = rid }) ∷ w.invoked;
  }

  abbrev final_world : World
  final_world = record invoked_world {
    pending = delete_where (has_id rid) (update_where (is_open rid) (claim_row w.now) w.pending);
  }

  to_removal :
      lookup_executor row.tool_name reg ≡ some (integration row.tool_name)
      → run h [] (execute_audited h reg rid (claim_row w.now row)) audited_world
        ≡ (ok (executed row.tool_name (h.tool_result row.tool_name row.payload)), final_world)
  unfolding execute_audited execute_with perform
  to_removal known =
      ap
        (λ e.
          run h []
            (catch (execute_with e row.tool_name row.payload rid)
                (report_failure h rid (claim_row w.now row))
              >>= λ result.
                  catch (remove_pending rid) (λ _. ret tt) >> ret (executed row.tool_name result))
            audited_world)
        known
      ∙ run-ask h (invoke row.tool_name row.payload rid) _ audited_world refl
      ∙ run-ask h (pending_remove rid) _ invoked_world refl
      ∙ run_ret h _ final_world

  -- The approval that clears an unclaimed row, with the chain unlocked and the tool registered, runs the
  -- tool with the row's own payload, puts the approval on record before it, deletes the row, and leaves
  -- all else alone.
  pub last_approval_executes :
      clears (some row) (some w.now) ≡ true
      → row.executing_at ≡ none
      → w.chain_locked ≡ false
      → lookup_executor row.tool_name reg ≡ some (integration row.tool_name)
      → run h [] (resolve_and_execute h reg rid approver) w ≡ (
        ok (executed row.tool_name (h.tool_result row.tool_name row.payload)),
        record w {
          pending =
              delete_where (has_id rid) (update_where (is_open rid) (claim_row w.now) w.pending);
          audit = w.audit ++ next_audit_row h (approval_entry rid approver row) w ∷ [];
          audit_ids = suc w.audit_ids;
          invoked =
              (record { tool = row.tool_name; payload = row.payload; request = rid }) ∷ w.invoked;
        },
      )
  last_approval_executes clear free open_chain known =
      to_claim h reg rid approver w row found clear
      ∙ to_execution free open_chain
      ∙ to_removal known
