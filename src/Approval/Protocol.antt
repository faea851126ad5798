-- ===== src/Approval/Protocol.antt =====
-- `resolveAndExecute` keeps the order of Approval.Order.
use jin_core.Approval.Order.{on_record, seen, nothing_seen, Seen, protocol, clears}
use jin_core.Hitl.Execution.{
  execute_audited, after_approval, run_claimed, claim_and_run, resolve_and_execute,
}
use jin_core.Hitl.Executors.{Registry}
use jin_core.Runtime.World.{Host}
use jin_core.Hitl.Timing.{compute_available_at, can_accept_second_approval}
use jin_core.Hitl.DualConfirm.{
  awaiting_second, approval_fuel, record_approval, resolved, ApprovalOutcome, approve_twice,
  approve_level,
}
use jin_core.Runtime.Monitor.{Obeys-weaken, Obeys-bind, Then, Any, Obeys}
use jin_core.Runtime.Program.{second_approval_too_early, throw, ret, err, ok, Prog, Answer}
use jin_core.Hitl.Levels.{confirm_twice, confirm_once, parse_level, PendingLevel}
use jin_core.Hitl.Pending.{Row}
use mathlib.Core.Path.{subst⁻¹}
use jin_core.Base.{
  if◌then◌else◌, or_else, ℕ, zero, suc, ◌≡◌, refl, String, Bool, true, false, Option, none, some,
}

-- How a recorded approval ends: it resolves only a row that clears.
abbrev Resolves : ℕ → Seen → Answer ApprovalOutcome → Type 0
Resolves now s (ok resolved) = (r : Option Row) × (s ≡ seen r now) × (clears r (some now) ≡ true)
Resolves now s _ = Unit

approve_twice-Obeys :
    (again : Prog ApprovalOutcome) (rid approver : String) (now : ℕ) (row : Row)
    → parse_level row.level ≡ some confirm_twice
    → Obeys protocol (seen (some row) now) again (Resolves now)
    → (first : Option ℕ) → row.first_approved_at ≡ first
    → Obeys protocol
        (seen (some row) now)
        (approve_twice again rid approver now row.available_at first)
        (Resolves now)
unfolding approve_twice can_accept_second_approval compute_available_at
approve_twice-Obeys again rid approver now row twice d none e =
    (tt, elim [ ok true ↦ tt | ok false ↦ d | err _ ↦ tt ])
approve_twice-Obeys again rid approver now row twice d (some first) e =
    decided (can_accept_second_approval (or_else row.available_at (compute_available_at first)) now)
      refl
  where
    decided :
        (b : Bool)
        → can_accept_second_approval (or_else row.available_at (compute_available_at first)) now ≡ b
        → Obeys protocol
            (seen (some row) now)
            (if b
              then ret resolved
              else throw (
                  second_approval_too_early rid
                    (or_else row.available_at (compute_available_at first))))
            (Resolves now)
    decided true accepted = (some row, refl, rw (twice, e) accepted)
    decided false refused = tt

approve_level-Obeys :
    (again : Prog ApprovalOutcome) (rid approver : String) (now : ℕ) (row : Row)
    → Obeys protocol (seen (some row) now) again (Resolves now)
    → (level : Option PendingLevel) → parse_level row.level ≡ level
    → Obeys protocol
        (seen (some row) now)
        (approve_level again rid approver now row level)
        (Resolves now)
unfolding approve_level
approve_level-Obeys again rid approver now row d none e = tt
approve_level-Obeys again rid approver now row d (some confirm_once) e = (some row, refl, rw e refl)
approve_level-Obeys again rid approver now row d (some confirm_twice) e =
    approve_twice-Obeys again rid approver now row e d row.first_approved_at refl

record_approval-Obeys :
    (fuel : ℕ) (rid approver : String) (now : ℕ) (r : Option Row)
    → Obeys protocol (seen r now) (record_approval fuel rid approver now) (Resolves now)
unfolding record_approval
record_approval-Obeys zero rid approver now r = tt
record_approval-Obeys (suc fuel) rid approver now r = (
  tt,
  elim [
    | ok none ↦ tt
    | ok (some row) ↦
        approve_level-Obeys (record_approval fuel rid approver now) rid approver now row
          (record_approval-Obeys fuel rid approver now (some row)) (parse_level row.level) refl
    | err _ ↦ tt
  ],
)

module _ (h : Host) (reg : Registry) (rid approver : String) where
  run_claimed-Obeys :
      (row : Row) (r : Option Row) (now : ℕ)
      → Obeys protocol (record (seen r now) { won = true }) (run_claimed h reg rid approver row) Any
  unfolding run_claimed
  run_claimed-Obeys row r now = (
    tt,
    elim [
      | ok true ↦ (tt, elim [ ok _ ↦ tt | err _ ↦ tt ])
      | ok false ↦ (
        λ _. refl,
        elim [
          | ok _ ↦
              on_record (execute_audited h reg rid row)
                (record (seen r now) { won = true; audited = true }) refl
          | err _ ↦ (tt, elim [ ok _ ↦ tt | err _ ↦ tt ])
        ],
      )
      | err _ ↦ (tt, elim [ ok _ ↦ tt | err _ ↦ tt ])
    ],
  )

  claim_and_run-Obeys :
      (r : Option Row) (now : ℕ)
      → clears r (some now) ≡ true
      → Obeys protocol (seen r now) (claim_and_run h reg rid approver) Any
  unfolding claim_and_run
  claim_and_run-Obeys r now clear = (
    tt,
    elim [
      | ok later ↦
          (clear, elim [ ok none ↦ tt | ok (some row) ↦ run_claimed-Obeys row r now | err _ ↦ tt ])
      | err _ ↦ tt
    ],
  )

  -- Whatever the database, the clock and the tools answer, a call of `resolveAndExecute` claims the row
  -- only if the row that it read last was a `confirm`, or a `dual-confirm` whose first approval was at
  -- least 30 seconds old (or whose `availableAt` had come) when the call began to record its approval;
  -- it writes the approval into the audit log only with the claim won; and a tool runs only when that
  -- entry has been acknowledged.
  pub resolve_and_execute-protocol :
      Obeys protocol nothing_seen (resolve_and_execute h reg rid approver) Any
  unfolding resolve_and_execute
  resolve_and_execute-protocol = (
    tt,
    elim [
      | ok none ↦ tt
      | ok (some row) ↦ (
        tt,
        elim [
          | ok now ↦
              Obeys-bind protocol (record_approval approval_fuel rid approver now) _ Any
                (seen (some row) now)
                (Obeys-weaken protocol (record_approval approval_fuel rid approver now)
                  (Resolves now) _ (seen (some row) now) (ended now)
                  (record_approval-Obeys approval_fuel rid approver now (some row)))
          | err _ ↦ tt
        ],
      )
      | err _ ↦ tt
    ],
  )
    where
      ended :
          (now : ℕ) (s : Seen) (a : Answer ApprovalOutcome)
          → Resolves now s a
          → Then protocol (after_approval h reg rid approver) Any s a
      ended now s (ok awaiting_second) _ = tt
      ended now s (ok resolved) (r, same, clear) =
          subst⁻¹ (λ s. Obeys protocol s (claim_and_run h reg rid approver) Any) same
            (claim_and_run-Obeys r now clear)
      ended now s (err _) _ = tt
