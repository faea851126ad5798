-- ===== src/Approval/NeverRuns.antt =====
-- A rejection and the sweep never execute and never approve, whatever happens to their questions.
use jin_core.Hitl.Timing.{abandon, escalate_warning, discard, keep, TimeoutOutcome}
use jin_core.Runtime.World.{next_audit_row, respond_keeps, perform, run, Outcome, Host, World}
use jin_core.Hitl.Timeouts.{
  audit_timeout_guarded, process_pending, claim_and_audit_timeout, apply_outcome, process_row,
  process_all, sweep,
}
use jin_core.Hitl.Pending.{stuck_claim_after_ms, Row}
use jin_core.Runtime.Always.{run_Asks, Asks-catch, Asks-query, Asks-bind, Asks}
use jin_core.Hitl.Execution.{
  audit_rejection, is_stuck, reject_stuck, reject_claimed, clear_stuck, resolve_rejection,
}
use jin_core.Hitl.DualConfirm.{
  get_pending, remove_if_not_executing, release_claim, claim_for_execution,
}
use jin_core.Audit.Service.{record_rejection, append_row}
use jin_core.Runtime.Program.{
  pending_insert, Prog, approval_abandoned, approval_escalated, pending_escalate, approval_stuck,
  emit, when, pending_all, err, ok, throw, pending_claim, pending_remove, pending_remove_idle,
  pending_select, audit_locked, ret, clock, pending_first_approval, query, catch, ◌>>◌,
  audit_append, invoke, Op,
}
use jin_core.Audit.Chain.{abandoned, timed_out, approved, Entry, ApprovalStatus, AuditRow}
use jin_core.Base.{
  count-append, arith, ltb, count, ◌-◌, some, none, Option, ℕ, ◌≡◌, refl, String, Bool, true, false,
  List, [], ◌∷◌,
}

-- an entry of the audit log that says a human approved
abbrev pub is_approval : ApprovalStatus → Bool
is_approval approved = true
is_approval _ = false

abbrev pub is_approval_row : AuditRow → Bool
is_approval_row row = is_approval row.content.entry.approval_status

-- what a call that does not execute may ask
abbrev pub Harmless : Op → Type 0
Harmless (invoke _ _ _) = ⊥
Harmless (audit_append e) = is_approval e.approval_status ≡ false
Harmless (pending_first_approval _ _ _ _) = ⊥
Harmless _ = Unit

append_row-Asks : (e : Entry) → is_approval e.approval_status ≡ false → Asks Harmless (append_row e)
unfolding append_row
append_row-Asks e h =
    Asks-bind Harmless (query audit_locked) _ (Asks-query Harmless audit_locked tt)
      (elim [ true ↦ tt | false ↦ Asks-query Harmless (audit_append e) h ])

-- an audited part with a handler that gives the claim back
guarded-Asks :
    (e : Entry) (rid : String) (error : Option String)
    → is_approval e.approval_status ≡ false
    → Asks Harmless (catch (append_row e >> ret tt) (λ x. release_claim rid error >> throw x))
unfolding release_claim
guarded-Asks e rid error h =
    Asks-catch Harmless (append_row e >> ret tt) _
      (Asks-bind Harmless (append_row e) _ (append_row-Asks e h) (λ _. tt))
      (λ x. (tt, elim [ ok _ ↦ tt | err _ ↦ tt ]))

claim_for_execution-Asks : (rid : String) → Asks Harmless (claim_for_execution rid)
unfolding claim_for_execution
claim_for_execution-Asks rid =
    Asks-bind Harmless (query clock) _ (Asks-query Harmless clock tt)
      (λ now. Asks-query Harmless (pending_claim rid now) tt)

reject_claimed-Asks :
    (rid approver : String) (row : Row) → Asks Harmless (reject_claimed rid approver row)
unfolding reject_claimed
reject_claimed-Asks rid approver row =
    Asks-bind Harmless (audit_rejection rid approver row) _ (guarded-Asks _ rid none refl)
      (λ _. Asks-query Harmless (pending_remove rid) tt)

clear_stuck-Asks :
    (rid approver : String) (row : Row) (b : Bool) → Asks Harmless (clear_stuck rid approver row b)
unfolding clear_stuck record_rejection remove_if_not_executing
clear_stuck-Asks rid approver row true =
    Asks-bind Harmless
      (record_rejection rid approver row.tool_name row.inputs_hash >> remove_if_not_executing rid) _
      (Asks-bind Harmless (record_rejection rid approver row.tool_name row.inputs_hash) _
        (append_row-Asks _ refl)
        λ _.
          Asks-bind Harmless (query clock) _ (Asks-query Harmless clock tt)
            (λ now. Asks-query Harmless (pending_remove_idle rid (now - stuck_claim_after_ms)) tt))
      (λ _. tt)
clear_stuck-Asks rid approver row false = tt

resolve_rejection-Asks : (rid approver : String) → Asks Harmless (resolve_rejection rid approver)
unfolding resolve_rejection reject_stuck
resolve_rejection-Asks rid approver =
    Asks-bind Harmless (get_pending rid) _ (Asks-query Harmless (pending_select rid) tt) (elim [
      | none ↦ tt
      | some pending ↦
          Asks-bind Harmless (claim_for_execution rid) _ (claim_for_execution-Asks rid) (elim [
            | none ↦
                Asks-bind Harmless (query clock) _ (Asks-query Harmless clock tt)
                  (λ now. clear_stuck-Asks rid approver pending (is_stuck pending.executing_at now))
            | some row ↦ reject_claimed-Asks rid approver row
          ])
    ])

claim_and_audit_timeout-Asks :
    (row : Row) (status : ApprovalStatus)
    → is_approval status ≡ false
    → Asks Harmless (claim_and_audit_timeout row status)
unfolding claim_and_audit_timeout
claim_and_audit_timeout-Asks row status h =
    Asks-bind Harmless (claim_for_execution row.request_id) _
      (claim_for_execution-Asks row.request_id)
      (elim [
        | none ↦ tt
        | some _ ↦
            Asks-bind Harmless (audit_timeout_guarded row status) _
              (guarded-Asks _ row.request_id none h) (λ _. tt)
      ])

apply_outcome-Asks :
    (o : TimeoutOutcome) (row : Row) (now : ℕ) → Asks Harmless (apply_outcome o row now)
unfolding apply_outcome
apply_outcome-Asks keep row now = tt
apply_outcome-Asks discard row now =
    Asks-bind Harmless (claim_and_audit_timeout row timed_out) _
      (claim_and_audit_timeout-Asks row timed_out refl)
      (elim [ true ↦ Asks-query Harmless (pending_remove row.request_id) tt | false ↦ tt ])
apply_outcome-Asks escalate_warning row now =
    Asks-bind Harmless (query (pending_escalate row.request_id now)) _
      (Asks-query Harmless (pending_escalate row.request_id now) tt)
      (λ _. Asks-query Harmless (emit (approval_escalated row.request_id row.tool_name)) tt)
apply_outcome-Asks abandon row now =
    Asks-bind Harmless (claim_and_audit_timeout row abandoned) _
      (claim_and_audit_timeout-Asks row abandoned refl)
      (elim [
        | true ↦
            Asks-bind Harmless (query (pending_remove row.request_id)) _
              (Asks-query Harmless (pending_remove row.request_id) tt)
              (λ _. Asks-query Harmless (emit (approval_abandoned row.request_id row.tool_name)) tt)
        | false ↦ tt
      ])

process_row-Asks :
    (since : Option ℕ) (row : Row) (now : ℕ) → Asks Harmless (process_row since row now)
unfolding process_row
process_row-Asks none row now = apply_outcome-Asks _ row now
process_row-Asks (some since) row now = reported (ltb stuck_claim_after_ms (now - since))
  where
    reported :
        (b : Bool)
        → Asks Harmless (when b (query (emit (approval_stuck row.request_id row.tool_name))))
    reported true = Asks-query Harmless (emit (approval_stuck row.request_id row.tool_name)) tt
    reported false = tt

process_all-Asks : (rows : List Row) (now : ℕ) → Asks Harmless (process_all rows now)
unfolding process_all
process_all-Asks [] now = tt
process_all-Asks (row ∷ rows) now =
    Asks-bind Harmless (process_pending row now) _ (process_row-Asks row.executing_at row now)
      (λ _. process_all-Asks rows now)

sweep-Asks : Asks Harmless sweep
unfolding sweep
sweep-Asks = Asks-bind Harmless (query clock) _ (Asks-query Harmless clock tt) λ now.
    Asks-bind Harmless (query pending_all) _ (Asks-query Harmless pending_all tt)
      (λ rows. process_all-Asks rows now)

-- The tools that ran and the approvals on record.
abbrev pub Unmoved : World → World → Type 0
Unmoved w w' =
    (w'.invoked ≡ w.invoked) × (count is_approval_row w'.audit ≡ count is_approval_row w.audit)

perform-Unmoved :
    (h : Host) (v : World) (o : Op) (w : World)
    → Harmless o
    → Unmoved v w
    → Unmoved v (perform h o w).1
unfolding perform
perform-Unmoved h v (invoke _ _ _) w may u = absurd may
perform-Unmoved h v (pending_first_approval _ _ _ _) w may u = absurd may
perform-Unmoved h v (audit_append e) w may u =
    (u.0, ground (arith, count-append is_approval_row w.audit (next_audit_row h e w ∷ []), u.1))
perform-Unmoved h v (pending_insert row) w may u = ground arith
perform-Unmoved h v o w may u = u

run-Unmoved :
    {A : Type 0} (h : Host) (script : List Outcome) (p : Prog A) (w : World)
    → Asks Harmless p
    → Unmoved w (run h script p w).1
run-Unmoved h script p w d =
    run_Asks Harmless h (Unmoved w)
      (λ x o v may u. respond_keeps h (Unmoved w) x o v u (perform-Unmoved h w o v may u)) script p
      w d (refl, refl)

-- A rejection, under any failures, makes no tool run and writes no approval into the audit log.
pub resolve_rejection_never_executes :
    (h : Host) (script : List Outcome) (rid approver : String) (w : World)
    → Unmoved w (run h script (resolve_rejection rid approver) w).1
resolve_rejection_never_executes h script rid approver w =
    run-Unmoved h script (resolve_rejection rid approver) w (resolve_rejection-Asks rid approver)

-- The sweep over every pending approval, under any failures, makes no tool run and writes no approval
-- into the audit log: a timeout never approves.
pub sweep_never_approves :
    (h : Host) (script : List Outcome) (w : World) → Unmoved w (run h script sweep w).1
sweep_never_approves h script w = run-Unmoved h script sweep w sweep-Asks
