-- ===== src/Agent/Types.antt =====
-- src/agent/agent.types.ts and agent-progress.types.ts: the plan of a turn and what its caller is shown.
use jin_core.Base.{ℕ, String, Option, List}
use jin_core.ModelProvider.Types.{Delta}

pub data AgentStepStatus : Type 0 where
  pending in_progress done failed : AgentStepStatus

pub record AgentStep : Type 0 where
  pub description : String
  pub status : AgentStepStatus
  pub note : Option String

pub record AgentPlan : Type 0 where
  pub steps : List AgentStep

pub record AgentPendingApproval : Type 0 where
  pub request_id : String
  pub tool_name : String

pub data CallOutcome : Type 0 where
  success error deferred : CallOutcome

pub data AgentProgress : Type 0 where
  plan : AgentPlan → AgentProgress
  -- id, tool and input
  tool_call_started : String → String → String → AgentProgress
  -- id, tool, outcome and summary
  tool_call_finished : String → String → CallOutcome → Option String → AgentProgress
  -- the iteration and the text
  text_delta : ℕ → Delta → AgentProgress

-- an index that the model gave
pub data StepIndex : Type 0 where
  nonneg : ℕ → StepIndex
  negative : ℕ → StepIndex  -- by its absolute value

-- `UpdatePlanStepInputSchema`
pub record StepUpdate : Type 0 where
  pub step_index : StepIndex
  pub status : AgentStepStatus
  pub note : Option String
