-- ===== src/Agent/Plan.antt =====
-- src/agent/agent.logic.ts, and the two tools of the plan in agent.service.ts.
use jin_core.Base.{
  ℕ, zero, suc, String, true, false, Option, none, some, List, [], ◌∷◌, ltb, length, map, decimal,
  if◌then◌else◌,
}
use Prim.Native.String.{◌++◌}
use jin_core.Agent.Types.{
  AgentStep, AgentPlan, AgentStepStatus, StepIndex, nonneg, negative, StepUpdate,
}
use jin_core.ModelProvider.Types.{ModelToolCall, ModelMessageContentBlock, tool_result}
use jin_core.Runtime.Program.{Answer, ok, err, plan_step_out_of_bounds}
use jin_core.Runtime.World.{Host}

abbrev pub fresh_step : String → AgentStep
fresh_step description = record {
  description = description;
  status = AgentStepStatus.pending;
  note = none;
}

unfoldable pub declare_plan : List String → AgentPlan
declare_plan steps = record { steps = map fresh_step steps }

-- `{ ...step, status, ...(note !== undefined ? { note } : {}) }`
abbrev pub noted : Option String → Option String → Option String
noted none before = before
noted (some text) _ = some text

abbrev pub updated_step : AgentStepStatus → Option String → AgentStep → AgentStep
updated_step status remark step = record step { status = status; note = noted remark step.note }

unfoldable pub update_at : ℕ → AgentStepStatus → Option String → List AgentStep → List AgentStep
update_at i status remark [] = []
update_at zero status remark (s ∷ ss) = updated_step status remark s ∷ ss
update_at (suc i) status remark (s ∷ ss) = s ∷ update_at i status remark ss

unfoldable pub update_plan_step :
    AgentPlan → StepIndex → AgentStepStatus → Option String → Answer AgentPlan
unfolding update_at
update_plan_step plan (negative n) status remark =
    err (plan_step_out_of_bounds n (length plan.steps))
update_plan_step plan (nonneg i) status remark =
    if ltb i (length plan.steps)
    then ok (record { steps = update_at i status remark plan.steps })
    else err (plan_step_out_of_bounds i (length plan.steps))

abbrev pub result_block : ModelToolCall → String → ModelMessageContentBlock
result_block call output = tool_result call.id output false

abbrev pub error_block : ModelToolCall → String → ModelMessageContentBlock
error_block call output = tool_result call.id output true

abbrev pub index_text : StepIndex → String
index_text (nonneg n) = decimal n
index_text (negative n) = "-" ++ decimal n

module _ (h : Host) where
  -- the plan and the result of the call
  abbrev pub declared : ModelToolCall → Option (List String) → AgentPlan × ModelMessageContentBlock
  declared call none = (
    record { steps = [] },
    error_block call ("Input inválido para declarePlan: " ++ h.issue_of call.input),
  )
  declared call (some steps) = (
    declare_plan steps,
    result_block call
        ("Plan declarado con " ++ decimal (length (declare_plan steps).steps) ++ " paso(s)."),
  )

  unfoldable pub handle_declare_plan : ModelToolCall → AgentPlan × ModelMessageContentBlock
  unfolding declare_plan
  handle_declare_plan call = declared call (h.steps_of call.input)

  abbrev pub stepped :
      ModelToolCall
      → AgentPlan
      → StepIndex
      → Answer AgentPlan
      → AgentPlan × ModelMessageContentBlock
  stepped call plan i (ok updated) =
      (updated, result_block call ("Paso " ++ index_text i ++ " actualizado."))
  stepped call plan i (err e) = (plan, error_block call (h.message_of e))

  abbrev pub read_update :
      ModelToolCall → AgentPlan → Option StepUpdate → AgentPlan × ModelMessageContentBlock
  read_update call plan none =
      (plan, error_block call ("Input inválido para updatePlanStep: " ++ h.issue_of call.input))
  read_update call plan (some u) =
      stepped call plan u.step_index (update_plan_step plan u.step_index u.status u.note)

  unfoldable pub handle_update_plan_step :
      ModelToolCall → AgentPlan → AgentPlan × ModelMessageContentBlock
  unfolding update_plan_step
  handle_update_plan_step call plan = read_update call plan (h.step_update_of call.input)
