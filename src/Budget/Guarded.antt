-- ===== src/Budget/Guarded.antt =====
-- src/budget/budget-guarded-router.service.ts: every call of a model passes the kill switch and the budget
-- before, and is paid for behind.
use jin_core.Base.{
  ℕ, String, Bool, Option, none, some, List, [], ◌∷◌, ◌+◌, Ratio, or_else, if◌then◌else◌,
}
use jin_core.ModelProvider.Types.{
  TaskProfile, ModelPrices, SelectModelHints, ModelMessage, Content, plain, blocks,
  ModelToolDeclaration, ModelCompletionRequest, ModelCompletionResponse,
}
use jin_core.ModelProvider.Router
use jin_core.ModelProvider.Router.{Router, Listener}
use jin_core.Budget.Limits.{BudgetConfig}
use jin_core.Budget.Cost.{estimate_tokens}
use jin_core.Budget.Service.{
  RecordUsageInput, CheckBeforeCallInput, check_before_call, record_usage,
}
use jin_core.Budget.KillSwitch.{is_active}
use jin_core.Runtime.Program.{Prog, ret, throw, query, ◌>>=◌, random_uuid, kill_switch_active}
use jin_core.Runtime.World.{Host}

pub record Guard : Type 0 where
  pub router : Router
  pub budget : BudgetConfig
  pub prices : ModelPrices

-- what the caller asks for
pub record Call : Type 0 where
  pub task_profile : TaskProfile
  pub request : ModelCompletionRequest
  pub hints : SelectModelHints
  pub session_id : Option String

module _ (h : Host) where
  abbrev pub message_content_to_text : Content → String
  message_content_to_text (plain s) = s
  message_content_to_text (blocks bs) = h.json_of_blocks bs

  unfoldable pub messages_tokens : List ModelMessage → ℕ
  unfolding estimate_tokens
  messages_tokens [] = 0
  messages_tokens (m ∷ ms) =
      estimate_tokens (message_content_to_text m.content) + messages_tokens ms

  abbrev pub prompt_tokens : Option String → ℕ
  prompt_tokens none = 0
  prompt_tokens (some s) = estimate_tokens s

  abbrev pub tools_tokens : Option (List ModelToolDeclaration) → ℕ
  tools_tokens none = 0
  tools_tokens (some ts) = estimate_tokens (h.json_of_tools ts)

  unfoldable pub estimate_request_tokens : ModelCompletionRequest → ℕ
  unfolding messages_tokens
  estimate_request_tokens r =
      prompt_tokens r.system_prompt + messages_tokens r.messages + tools_tokens r.tools

  -- `sessionId ?? randomUUID()`
  abbrev pub effective_session : Option String → Prog String
  effective_session none = query random_uuid
  effective_session (some sid) = ret sid

  abbrev pub estimate_of : Call → ℕ
  estimate_of c = or_else c.hints.estimated_input_tokens (estimate_request_tokens c.request)

  -- the hints of the call itself
  abbrev pub effective_hints : Call → Ratio → SelectModelHints
  effective_hints c remaining = record c.hints {
    estimated_input_tokens = some (estimate_of c);
    budget_remaining = some remaining;
  }

  abbrev pub usage_of : String → ModelCompletionResponse → RecordUsageInput
  usage_of sid response = record {
    session_id = sid;
    model_id = response.model_id;
    input_tokens = response.input_tokens;
    output_tokens = response.output_tokens;
  }

  unfoldable pub paid : Guard → String → ModelCompletionResponse → Prog ModelCompletionResponse
  unfolding record_usage
  paid g sid response =
      record_usage h g.budget g.prices (usage_of sid response) >>= λ _. ret response

  abbrev pub check_input : Call → String → CheckBeforeCallInput
  check_input c sid = record {
    session_id = sid;
    estimated_input_tokens = estimate_of c;
    max_output_tokens = c.request.max_output_tokens;
  }

  -- the shape of both methods, by the router's call
  unfoldable pub within_budget :
      Guard
      → Call
      → (SelectModelHints → Prog ModelCompletionResponse)
      → Prog ModelCompletionResponse
  unfolding check_before_call estimate_request_tokens paid
  within_budget g c call = do
    sid ← effective_session c.session_id
    remaining ← check_before_call h g.budget (check_input c sid)
    response ← call (effective_hints c remaining)
    paid g sid response

  unfoldable pub unless_paused :
      Guard
      → Call
      → (SelectModelHints → Prog ModelCompletionResponse)
      → Bool
      → Prog ModelCompletionResponse
  unfolding within_budget
  unless_paused g c call paused =
      if paused then throw kill_switch_active else within_budget g c call

  abbrev pub guarded :
      Guard
      → Call
      → (SelectModelHints → Prog ModelCompletionResponse)
      → Prog ModelCompletionResponse
  guarded g c call = is_active >>= unless_paused g c call

  unfoldable pub complete : Guard → Call → Prog ModelCompletionResponse
  unfolding is_active unless_paused Router.complete
  complete g c = guarded g c (Router.complete g.router c.task_profile c.request)

  unfoldable pub complete_stream : Guard → Call → Listener → Prog ModelCompletionResponse
  unfolding is_active unless_paused Router.complete_stream
  complete_stream g c on_delta =
      guarded g c (Router.complete_stream g.router c.task_profile c.request on_delta)
