-- ===== src/Runtime/Program.antt =====
-- An `async` method is a program: between two `await`s of something outside the process it computes,
-- and each such await is one question with an answer, a value or a rejection. The same program is run
-- alone (Runtime.World) and interleaved with others (Pool.Interleaving).
use jin_core.Base.{ℕ, String, Option, List, Bool, Ratio, if◌then◌else◌}
use jin_core.Hitl.Levels.{HitlLevel, PendingLevel}
use jin_core.Hitl.Payload.{Payload}
use jin_core.Hitl.Pending.{Row}
use jin_core.Audit.Chain.{Entry, AuditRow}
use jin_core.Autonomy.Mode.{AutonomyMode, ModeRow}
use jin_core.ModelProvider.Types.{Delta, ModelCompletionRequest, ModelCompletionResponse}
use jin_core.Budget.Tables.{UsageOp, UsageReply}
use jin_core.Agent.Types.{AgentProgress}

-- what `throw` throws
pub data Error : Type 0 where
  pending_approval_not_found : String → Error
  second_approval_too_early : String → ℕ → Error
  approval_already_resolved : String → Error
  audit_chain_locked : Error
  unknown_tool : String → Error
  executor_already_registered : String → Error
  no_executor_registered : String → Error
  zod_error : Error
  database_error : Error
  tool_error : String → Error
  kill_switch_active : Error
  session_budget_exceeded : String → Error
  daily_budget_exceeded : Error
  no_price_configured : String → Error
  unknown_task_profile : String → Error
  unknown_model_vendor : String → Error
  -- the task, the model, and the fallback
  all_providers_failed : String → String → String → Error
  stream_already_partially_emitted : String → String → Error
  provider_error : String → Error
  invalid_session_nonce : String → Error
  terminal_upstream_error : Error
  plan_step_out_of_bounds : ℕ → ℕ → Error
  -- the model's own: a loop ran out of fuel
  out_of_fuel : Error

pub data Answer (A : Type 0) : Type 0 where
  ok : A → Answer A
  err : Error → Answer A

pub data ChangeReason : Type 0 where
  approved downgrade expired circuit_breaker : ChangeReason

pub data Event : Type 0 where
  pending_approval_created : String → String → PendingLevel → Event
  approval_escalated : String → String → Event
  approval_abandoned : String → String → Event
  approval_stuck : String → String → Event
  -- mode, previous mode, reason, expiry, who
  mode_changed : AutonomyMode → AutonomyMode → ChangeReason → Option ℕ → String → Event
  -- the request, the tool, the actor and the mode that relaxed it
  action_notified : String → String → String → Option String → Event
  -- the ratio and the threshold
  budget_threshold_crossed : Ratio → Ratio → Event
  kill_switch_activated : Option String → Option ℕ → Event
  -- to the caller's listener
  agent_progress : AgentProgress → Event
  terminal_notice : String → Event  -- for the app at the terminal

pub record OverrideRow : Type 0 where
  pub tool_name : String
  pub level : HitlLevel
  pub approver : String
  pub approved_at : ℕ

-- what a streaming call gives: the texts on the way, and how it ended
pub record Stream : Type 0 where
  pub deltas : List Delta
  pub final : Answer ModelCompletionResponse

pub data Op : Type 0 where
  clock : Op  -- `new Date()`
  sleep : ℕ → Op
  random_uuid : Op
  random_nonce : Op
  emit : Event → Op
  invoke : String → Option Payload → String → Op  -- an integration's side effect, for a request
  pending_insert : Row → Op
  pending_all : Op
  pending_select : String → Op
  pending_first_approval : String → String → ℕ → ℕ → Op  -- id, approver, now, availableAt
  pending_claim : String → ℕ → Op
  pending_release : String → Option String → Op
  pending_escalate : String → ℕ → Op
  pending_remove : String → Op
  pending_remove_idle : String → ℕ → Op
  audit_locked : Op
  audit_append : Entry → Op
  audit_all : Op  -- oldest first
  chain_lock_write : Bool → Op
  mode_select : Op
  mode_update : ModeRow → Op
  mode_bump : Op
  override_select : String → Op
  override_upsert : OverrideRow → Op
  usage : UsageOp → Op
  model_complete : String → ModelCompletionRequest → Op
  model_stream : String → ModelCompletionRequest → Op
  pty_input : String → String → List ℕ → Op  -- bytes for a terminal of a workspace

abbrev pub Reply : Op → Type 0
Reply clock = ℕ
Reply (sleep _) = Unit
Reply random_uuid = String
Reply random_nonce = String
Reply (emit _) = Unit
Reply (invoke _ _ _) = String
Reply (pending_insert _) = Unit
Reply pending_all = List Row
Reply (pending_select _) = Option Row
Reply (pending_first_approval _ _ _ _) = Bool
Reply (pending_claim _ _) = Option Row
Reply (pending_release _ _) = Unit
Reply (pending_escalate _ _) = Unit
Reply (pending_remove _) = Unit
Reply (pending_remove_idle _ _) = Bool
Reply audit_locked = Bool
Reply (audit_append _) = AuditRow
Reply audit_all = List AuditRow
Reply (chain_lock_write _) = Unit
Reply mode_select = Option ModeRow
Reply (mode_update _) = Unit
Reply mode_bump = Option ℕ
Reply (override_select _) = Option OverrideRow
Reply (override_upsert _) = Unit
Reply (usage o) = UsageReply o
Reply (model_complete _ _) = ModelCompletionResponse
Reply (model_stream _ _) = Stream
Reply (pty_input _ _ _) = Unit

pub data Prog (A : Type 0) : Type 0 where
  ret : A → Prog A
  throw : Error → Prog A
  ask : (o : Op) → (Answer (Reply o) → Prog A) → Prog A

infixl 5 ◌>>=◌ ◌>>◌
abbrev pub ◌>>=◌ : {A B : Type 0} → Prog A → (A → Prog B) → Prog B
ret a >>= f = f a
throw e >>= f = throw e
ask o k >>= f = ask o (λ a. k a >>= f)

abbrev pub ◌>>◌ : {A B : Type 0} → Prog A → Prog B → Prog B
m >> k = m >>= λ _. k

-- `try { m } catch (e) { h(e) }`
abbrev pub catch : {A : Type 0} → Prog A → (Error → Prog A) → Prog A
catch (ret a) h = ret a
catch (throw e) h = h e
catch (ask o k) h = ask o (λ a. catch (k a) h)

abbrev pub settle : {A : Type 0} → Answer A → Prog A
settle (ok a) = ret a
settle (err e) = throw e

-- `await` of one question
abbrev pub query : (o : Op) → Prog (Reply o)
query o = ask o settle

abbrev pub when : Bool → Prog (Unit {0}) → Prog (Unit {0})
when b p = if b then p else ret tt

-- a rejection as a value
abbrev pub settled : {A : Type 0} → Prog A → Prog (Answer A)
settled p = catch (p >>= λ a. ret (ok a)) (λ e. ret (err e))
