-- ===== src/Pool/Calls.antt =====
-- The calls from outside: an approval, a rejection, the sweep, the daily verification and the creation
-- of another request. Each is disciplined from no token at all.
use jin_core.Runtime.Monitor.{Obeys-bind, Any, Post}
use jin_core.Base.{
  or_else, ℕ, zero, suc, String, Bool, true, false, Option, none, some, if◌then◌else◌,
}
use jin_core.Hitl.Levels.{PendingLevel, confirm_once, confirm_twice, parse_level}
use jin_core.Hitl.Pending.{Row}
use jin_core.Hitl.Timing.{compute_available_at, can_accept_second_approval}
use jin_core.Hitl.DualConfirm.{
  ApprovalOutcome, resolved, awaiting_second, approve_twice, approve_level, record_approval,
  approval_fuel,
}
use jin_core.Hitl.Executors.{Registry}
use jin_core.Hitl.Execution.{
  is_stuck, clear_stuck, reject_stuck, reject_claimed, resolve_rejection, claim_and_run,
  resolve_and_execute,
}
use jin_core.Runtime.Program.{Prog, ret, Answer, ok, err, throw, second_approval_too_early}
use jin_core.Runtime.World.{Host}
use jin_core.Pool.Discipline.{tokens, Holds, claimed, Disciplined}
use jin_core.Pool.Services.{audit_guarded, IsDisciplined, claimed-Holds, run_claimed-Disciplined}

module _ (r : String) where
  claim_and_run-Disciplined :
      (h : Host) (reg : Registry) (rid approver : String) (n : ℕ)
      → IsDisciplined r reg
      → Disciplined r n (claim_and_run h reg rid approver) Any
  unfolding claim_and_run
  claim_and_run-Disciplined h reg rid approver n d = (
    tt,
    elim [
      | ok now ↦ (
        tt,
        elim [
          | ok none ↦ tt
          | ok (some row) ↦
              run_claimed-Disciplined r h reg rid approver row (claimed r rid n) d
                (claimed-Holds r rid n)
          | err _ ↦ tt
        ],
      )
      | err _ ↦ tt
    ],
  )

  approve_twice-Disciplined :
      (again : Prog ApprovalOutcome) (rid approver : String) (now : ℕ) (available first : Option ℕ)
      (Q : Post (tokens r) ApprovalOutcome) (n : ℕ)
      → Disciplined r n again Q
      → ((a : Answer ApprovalOutcome) → Q n a)
      → Disciplined r n (approve_twice again rid approver now available first) Q
  unfolding approve_twice
  approve_twice-Disciplined again rid approver now available none Q n d q =
      (tt, elim [ ok true ↦ q (ok awaiting_second) | ok false ↦ d | err e ↦ q (err e) ])
  approve_twice-Disciplined again rid approver now available (some first) Q n d q =
      decided (can_accept_second_approval (or_else available (compute_available_at first)) now)
    where
      decided :
          (b : Bool)
          → Disciplined r n
              (if b
                then ret resolved
                else throw (
                    second_approval_too_early rid (or_else available (compute_available_at first))))
              Q
      decided true = q (ok resolved)
      decided false = q (err _)

  approve_level-Disciplined :
      (again : Prog ApprovalOutcome) (rid approver : String) (now : ℕ) (row : Row)
      (level : Option PendingLevel) (Q : Post (tokens r) ApprovalOutcome) (n : ℕ)
      → Disciplined r n again Q
      → ((a : Answer ApprovalOutcome) → Q n a)
      → Disciplined r n (approve_level again rid approver now row level) Q
  unfolding approve_level
  approve_level-Disciplined again rid approver now row none Q n d q = q (err _)
  approve_level-Disciplined again rid approver now row (some confirm_once) Q n d q = q (ok resolved)
  approve_level-Disciplined again rid approver now row (some confirm_twice) Q n d q =
      approve_twice-Disciplined again rid approver now row.available_at row.first_approved_at Q n d
        q

  record_approval-Disciplined :
      (fuel : ℕ) (rid approver : String) (now : ℕ) (Q : Post (tokens r) ApprovalOutcome) (n : ℕ)
      → ((a : Answer ApprovalOutcome) → Q n a)
      → Disciplined r n (record_approval fuel rid approver now) Q
  unfolding record_approval
  record_approval-Disciplined zero rid approver now Q n q = q (err _)
  record_approval-Disciplined (suc fuel) rid approver now Q n q =
      let again = record_approval-Disciplined fuel rid approver now Q n q in
      (
        tt,
        elim [
          | ok none ↦ q (err _)
          | ok (some row) ↦
              approve_level-Disciplined (record_approval fuel rid approver now) rid approver now row
                (parse_level row.level) Q n again q
          | err e ↦ q (err e)
        ],
      )

  pub resolve_and_execute-Disciplined :
      (h : Host) (reg : Registry) (rid approver : String) (n : ℕ)
      → IsDisciplined r reg
      → Disciplined r n (resolve_and_execute h reg rid approver) Any
  unfolding resolve_and_execute
  resolve_and_execute-Disciplined h reg rid approver n d = (
    tt,
    elim [
      | ok none ↦ tt
      | ok (some _) ↦ (
        tt,
        elim [
          | ok now ↦
              Obeys-bind (tokens r) (record_approval approval_fuel rid approver now) _ Any n (
                record_approval-Disciplined approval_fuel rid approver now _ n (elim [
                  | ok awaiting_second ↦ tt
                  | ok resolved ↦ claim_and_run-Disciplined h reg rid approver n d
                  | err _ ↦ tt
                ]))
          | err _ ↦ tt
        ],
      )
      | err _ ↦ tt
    ],
  )

  reject_stuck-Disciplined :
      (rid approver : String) (pending : Row) (n : ℕ)
      → Disciplined r n (reject_stuck rid approver pending) Any
  unfolding reject_stuck
  reject_stuck-Disciplined rid approver pending n =
      (tt, elim [ ok now ↦ decided (is_stuck pending.executing_at now) | err _ ↦ tt ])
    where
      decided : (b : Bool) → Disciplined r n (clear_stuck rid approver pending b) Any
      decided true = (
        tt,
        elim [
          | ok true ↦ tt
          | ok false ↦ (
            tt,
            elim [
              | ok _ ↦ (tt, elim [ ok _ ↦ (tt, elim [ ok _ ↦ tt | err _ ↦ tt ]) | err _ ↦ tt ])
              | err _ ↦ tt
            ],
          )
          | err _ ↦ tt
        ],
      )
      decided false = tt

  reject_claimed-Disciplined :
      (rid approver : String) (row : Row) (n : ℕ)
      → Holds r rid n
      → Disciplined r n (reject_claimed rid approver row) Any
  unfolding reject_claimed
  reject_claimed-Disciplined rid approver row n holds =
      audit_guarded r _ _ _ Any n (tt, elim [ ok _ ↦ tt | err _ ↦ tt ])
        (λ _. (holds, elim [ ok _ ↦ tt | err _ ↦ tt ]))

  pub resolve_rejection-Disciplined :
      (rid approver : String) (n : ℕ) → Disciplined r n (resolve_rejection rid approver) Any
  unfolding resolve_rejection
  resolve_rejection-Disciplined rid approver n = (
    tt,
    elim [
      | ok none ↦ tt
      | ok (some pending) ↦ (
        tt,
        elim [
          | ok now ↦ (
            tt,
            elim [
              | ok none ↦ reject_stuck-Disciplined rid approver pending n
              | ok (some row) ↦
                  reject_claimed-Disciplined rid approver row (claimed r rid n)
                    (claimed-Holds r rid n)
              | err _ ↦ tt
            ],
          )
          | err _ ↦ tt
        ],
      )
      | err _ ↦ tt
    ],
  )
