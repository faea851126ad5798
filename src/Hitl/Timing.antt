-- ===== src/Hitl/Timing.antt =====
-- src/hitl/dual-confirm.logic.ts and src/hitl/timeout.logic.ts: the delay of the second approval and
-- the fate of an approval that nobody answers. An instant (`Date.getTime()`) is a number of
-- milliseconds. `-` stops at 0; every difference is compared with a positive bound, where a negative
-- one would give the same answer.
use jin_core.Base.{
  ℕ, ◌+◌, ◌-◌, ◌*◌, ◌≤◌, ◌<◌, ◌≡◌, ◌↔◌, Bool, true, false, not, ◌&&◌, leb, if◌then◌else◌, arith,
}

abbrev pub dual_confirm_delay_ms : ℕ
dual_confirm_delay_ms = 30000

unfoldable pub compute_available_at : ℕ → ℕ
compute_available_at first_approved_at = first_approved_at + dual_confirm_delay_ms

unfoldable pub can_accept_second_approval : ℕ → ℕ → Bool
can_accept_second_approval available_at now = leb available_at now

abbrev pub approval_ttl_ms : ℕ
approval_ttl_ms = 24 * 60 * 60 * 1000

abbrev pub escalation_warning_ms : ℕ
escalation_warning_ms = 12 * 60 * 60 * 1000

pub data TimeoutBehavior : Type 0 where
  discard_silently escalate : TimeoutBehavior

pub data TimeoutOutcome : Type 0 where
  keep discard escalate_warning abandon : TimeoutOutcome

pub record TimeoutDecisionInput : Type 0 where
  pub created_at : ℕ
  pub timeout_behavior : TimeoutBehavior
  pub already_escalated : Bool
  pub now : ℕ

outcome_for : TimeoutBehavior → ℕ → Bool → TimeoutOutcome
outcome_for discard_silently elapsed_ms _ = if leb approval_ttl_ms elapsed_ms then discard else keep
outcome_for escalate elapsed_ms already_escalated =
    if leb approval_ttl_ms elapsed_ms
    then abandon
    else if leb escalation_warning_ms elapsed_ms && not already_escalated
    then escalate_warning
    else keep

unfoldable pub decide_timeout_outcome : TimeoutDecisionInput → TimeoutOutcome
unfolding outcome_for
decide_timeout_outcome i = outcome_for i.timeout_behavior (i.now - i.created_at) i.already_escalated

-- whether an outcome takes the approval off the table
abbrev pub is_terminal : TimeoutOutcome → Bool
is_terminal discard = true
is_terminal abandon = true
is_terminal _ = false

-- An unanswered approval is dropped exactly when a full day has passed since it was created, for
-- either behaviour of the tool, whether or not the warning was sent.
pub decide_timeout_outcome-terminal :
    (i : TimeoutDecisionInput)
    → (is_terminal (decide_timeout_outcome i) ≡ true) ↔ (i.created_at + approval_ttl_ms ≤ i.now)
unfolding decide_timeout_outcome
decide_timeout_outcome-terminal i = ground arith

-- The warning is sent exactly when the tool has a deadline, no warning was sent before, and the time
-- lies in the second half of the day since the creation.
pub decide_timeout_outcome-warning :
    (i : TimeoutDecisionInput)
    → (decide_timeout_outcome i ≡ escalate_warning) ↔ (
        (i.timeout_behavior ≡ escalate)
        × (i.already_escalated ≡ false)
        × (i.created_at + escalation_warning_ms ≤ i.now)
        × (i.now < i.created_at + approval_ttl_ms))
unfolding decide_timeout_outcome
decide_timeout_outcome-warning i = ground arith
