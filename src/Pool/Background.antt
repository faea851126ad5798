-- ===== src/Pool/Background.antt =====
-- The sweep, the daily verification and the creation of another request are disciplined too.
use jin_core.Runtime.Monitor.{Obeys-bind, Post, Any}
use jin_core.Hitl.DualConfirm.{CreatePendingApprovalInput, create_pending_approval}
use jin_core.Audit.Service.{record_tool_call, lock_if_broken, verify_daily}
use jin_core.Pool.Services.{claimed-Holds}
use jin_core.Pool.Discipline.{tokens, claimed, Holds, Disciplined}
use jin_core.Runtime.Program.{
  approval_abandoned, approval_stuck, emit, pending_remove, query, when, ◌>>=◌, ◌>>◌, ok, err,
  Error, Prog,
}
use jin_core.Audit.Chain.{
  valid, abandoned, verify_chain, broken_at, timed_out, ChainVerificationResult, Codec,
  ApprovalStatus,
}
use jin_core.Hitl.Timing.{
  abandon, escalate_warning, discard, keep, decide_timeout_outcome, TimeoutOutcome,
}
use jin_core.Hitl.Pending.{stuck_claim_after_ms, Row}
use jin_core.Hitl.Timeouts.{
  process_pending, process_row, process_all, sweep, audit_timeout, claim_and_audit_timeout,
  apply_outcome,
}
use jin_core.Base.{
  ◌-◌, ltb, Option, ℕ, String, Bool, true, false, none, some, List, [], ◌∷◌, ◌≡◌, str_eq,
}

module _ (r : String) where
  claim_and_audit_timeout-Disciplined :
      {B : Type 0} (row : Row) (status : ApprovalStatus) (f : Bool → Prog B) (Q : Post (tokens r) B)
      (n : ℕ)
      → ((k : ℕ) (b : Bool) → Disciplined r k (f b) Q)
      → ((k : ℕ) (e : Error) → Q k (err e))
      → Disciplined r n (claim_and_audit_timeout row status >>= f) Q
  unfolding claim_and_audit_timeout
  claim_and_audit_timeout-Disciplined row status f Q n rest bad = (
    tt,
    elim [
      | ok now ↦ (
        tt,
        elim [
          | ok none ↦ rest n false
          | ok (some _) ↦ audited (claimed r row.request_id n) (claimed-Holds r row.request_id n)
          | err e ↦ bad n e
        ],
      )
      | err e ↦ bad n e
    ],
  )
    where
      audited :
          (k : ℕ) → Holds r row.request_id k → Disciplined r k (audit_timeout row status >>= f) Q
      audited k holds = (
        tt,
        elim [
          | ok true ↦ (holds, elim [ ok _ ↦ bad _ _ | err e ↦ bad _ e ])
          | ok false ↦ (
            tt,
            elim [
              | ok _ ↦ rest k true
              | err _ ↦ (holds, elim [ ok _ ↦ bad _ _ | err e ↦ bad _ e ])
            ],
          )
          | err _ ↦ (holds, elim [ ok _ ↦ bad _ _ | err e ↦ bad _ e ])
        ],
      )

  apply_outcome-Disciplined :
      (o : TimeoutOutcome) (row : Row) (now : ℕ) (Q : Post (tokens r) (Unit {0})) (n : ℕ)
      → ((k : ℕ) → Q k (ok tt))
      → ((k : ℕ) (e : Error) → Q k (err e))
      → Disciplined r n (apply_outcome o row now) Q
  unfolding apply_outcome
  apply_outcome-Disciplined keep row now Q n rest bad = rest n
  apply_outcome-Disciplined discard row now Q n rest bad =
      claim_and_audit_timeout-Disciplined row timed_out _ Q n removed bad
    where
      removed :
          (k : ℕ) (b : Bool) → Disciplined r k (when b (query (pending_remove row.request_id))) Q
      removed k true = (tt, elim [ ok _ ↦ rest k | err e ↦ bad k e ])
      removed k false = rest k
  apply_outcome-Disciplined escalate_warning row now Q n rest bad =
      (tt, elim [ ok _ ↦ (tt, elim [ ok _ ↦ rest n | err e ↦ bad n e ]) | err e ↦ bad n e ])
  apply_outcome-Disciplined abandon row now Q n rest bad =
      claim_and_audit_timeout-Disciplined row abandoned _ Q n removed bad
    where
      removed :
          (k : ℕ) (b : Bool)
          → Disciplined r k
              (when b (
                query (pending_remove row.request_id)
                >> query (emit (approval_abandoned row.request_id row.tool_name))))
              Q
      removed k true =
          (tt, elim [ ok _ ↦ (tt, elim [ ok _ ↦ rest k | err e ↦ bad k e ]) | err e ↦ bad k e ])
      removed k false = rest k

  process_row-Disciplined :
      (since : Option ℕ) (row : Row) (now : ℕ) (Q : Post (tokens r) (Unit {0})) (n : ℕ)
      → ((k : ℕ) → Q k (ok tt))
      → ((k : ℕ) (e : Error) → Q k (err e))
      → Disciplined r n (process_row since row now) Q
  unfolding process_row
  process_row-Disciplined none row now Q n rest bad =
      apply_outcome-Disciplined (decide_timeout_outcome _) row now Q n rest bad
  process_row-Disciplined (some since) row now Q n rest bad =
      reported (ltb stuck_claim_after_ms (now - since))
    where
      reported :
          (b : Bool)
          → Disciplined r n (when b (query (emit (approval_stuck row.request_id row.tool_name)))) Q
      reported true = (tt, elim [ ok _ ↦ rest n | err e ↦ bad n e ])
      reported false = rest n

  process_all-Disciplined :
      (rows : List Row) (now n : ℕ) → Disciplined r n (process_all rows now) Any
  unfolding process_all
  process_all-Disciplined [] now n = tt
  process_all-Disciplined (row ∷ rows) now n =
      Obeys-bind (tokens r) (process_pending row now) _ Any n (
        process_row-Disciplined row.executing_at row now _ n
          (λ k. process_all-Disciplined rows now k) (λ k e. tt))

  pub sweep-Disciplined : (n : ℕ) → Disciplined r n sweep Any
  unfolding sweep
  sweep-Disciplined n = (
    tt,
    elim [
      | ok now ↦ (tt, elim [ ok rows ↦ process_all-Disciplined rows now n | err _ ↦ tt ])
      | err _ ↦ tt
    ],
  )

  pub verify_daily-Disciplined : (c : Codec) (n : ℕ) → Disciplined r n (verify_daily c) Any
  unfolding verify_daily
  verify_daily-Disciplined c n = (tt, elim [ ok rows ↦ locked (verify_chain c rows) | err _ ↦ tt ])
    where
      locked : (v : ChainVerificationResult) → Disciplined r n (lock_if_broken v) Any
      locked valid = tt
      locked (broken_at _) = (tt, elim [ ok _ ↦ tt | err _ ↦ tt ])

  pub create_pending_approval-Disciplined :
      (i : CreatePendingApprovalInput) (n : ℕ)
      → str_eq i.request_id r ≡ false
      → Disciplined r n (create_pending_approval i) Any
  unfolding create_pending_approval record_tool_call
  create_pending_approval-Disciplined i n fresh = (
    fresh,
    elim [
      | ok _ ↦ (
        tt,
        elim [
          | ok true ↦ tt
          | ok false ↦ (tt, elim [ ok _ ↦ (tt, elim [ ok _ ↦ tt | err _ ↦ tt ]) | err _ ↦ tt ])
          | err _ ↦ tt
        ],
      )
      | err _ ↦ tt
    ],
  )
