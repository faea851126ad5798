-- ===== src/Agent/Calls.antt =====
-- `handleRealToolCall` of src/agent/agent.service.ts: one call of a tool, decided, deferred or executed.
use jin_core.Base.{
  ℕ, String, Bool, Option, none, some, List, [], ◌∷◌, ◌+◌, ◌-◌, leb, str_eq, decimal, if◌then◌else◌,
}
use Prim.Native.Char.{code}
use Prim.Native.String.{◌++◌}
use jin_core.Hitl.Levels.{
  HitlLevel, HitlDecision, PendingLevel, auto, notify, confirm, dual_confirm, confirm_once,
  confirm_twice, is_level,
}
use jin_core.Hitl.Payload.{arguments}
use jin_core.Hitl.DualConfirm.{CreatePendingApprovalInput, create_pending_approval}
use jin_core.Hitl.Executors.{Registry, execute}
use jin_core.Audit.Chain.{AuditRow, ApprovalStatus}
use jin_core.Audit.Service.{record_tool_call}
use jin_core.Autonomy.Logic.{AutonomyConfig}
use jin_core.Flags.Service.{FeatureFlagsConfig, is_integration_enabled}
use jin_core.Policy.Decision.{decide}
use jin_core.Tools.Definition.{ToolDefinition, IntegrationName, canvas, google, mcp, telegram}
use jin_core.Tools.Registry.{get_tool_definition}
use jin_core.Budget.Cost.{text_length}
use jin_core.Security.Sanitizer.{wrap_untrusted_content, summarize_untrusted_sources}
use jin_core.ModelProvider.Types.{ModelMessage, ModelToolCall, ModelMessageContentBlock}
use jin_core.Agent.Types.{
  AgentPendingApproval, AgentProgress, tool_call_started, tool_call_finished, CallOutcome, success,
  error, deferred,
}
use jin_core.Agent.Plan.{result_block, error_block}
use jin_core.Runtime.Program.{
  Error, Prog, ret, query, ◌>>=◌, ◌>>◌, catch, settle, when, emit, agent_progress, action_notified,
}
use jin_core.Runtime.World.{Host}

-- the keys of the calls that failed, with how often in a row
abbrev pub Failures : Type 0
Failures = List (String × ℕ)

unfoldable pub failures_of : String → Failures → ℕ
failures_of key [] = 0
failures_of key ((name, n) ∷ m) = if str_eq name key then n else failures_of key m

unfoldable pub set_failures : String → ℕ → Failures → Failures
set_failures key n [] = (key, n) ∷ []
set_failures key n ((name, k) ∷ m) =
    if str_eq name key then (name, n) ∷ m else (name, k) ∷ set_failures key n m

unfoldable pub delete_failures : String → Failures → Failures
delete_failures key [] = []
delete_failures key ((name, k) ∷ m) =
    let rest = delete_failures key m in if str_eq name key then rest else (name, k) ∷ rest

-- what a call adds to the turn
pub record CallResult : Type 0 where
  pub failures : Failures
  pub deferred : Option AgentPendingApproval
  pub block : ModelMessageContentBlock

unfoldable pub build_tool_call_key : ModelToolCall → String
build_tool_call_key call = call.name ++ ":" ++ call.input

abbrev pub progress_input_max_chars : ℕ
progress_input_max_chars = 4000

-- `slice(0, n)`; a character of two units that it would split is dropped
unfoldable pub first_units : ℕ → String → String
first_units n String.[] = String.[]
first_units n (String.◌∷◌ c s) =
    let units = if leb 65536 (code c) then 2 else 1 in
    let rest = first_units (n - units) s in if leb units n then String.◌∷◌ c rest else String.[]

unfoldable pub truncate_for_progress : String → String
unfolding first_units text_length
truncate_for_progress input =
    if leb (text_length input) progress_input_max_chars
    then input
    else first_units progress_input_max_chars input ++ "…[truncado]"

abbrev pub integration_text : IntegrationName → String
integration_text canvas = "canvas"
integration_text google = "google"
integration_text mcp = "mcp"
integration_text telegram = "telegram"

-- the levels that wait for a human
abbrev pub pending_level_of : HitlLevel → Option PendingLevel
pending_level_of auto = none
pending_level_of notify = none
pending_level_of confirm = some confirm_once
pending_level_of dual_confirm = some confirm_twice

-- the integration of a tool, if it is switched off
abbrev pub switched_off : FeatureFlagsConfig → Option ToolDefinition → Option IntegrationName
switched_off flags none = none
switched_off flags (some t) =
    if is_integration_enabled flags t.integration then none else t.integration

-- what the calls of one turn share
pub record Turn : Type 0 where
  pub registry : Registry
  pub autonomy : AutonomyConfig
  pub flags : FeatureFlagsConfig
  pub max_consecutive_tool_failures : ℕ
  pub session_id : String
  pub nonce : String
  pub actor : String
  pub live : Bool  -- whether there is an `onProgress`

module _ (h : Host) (t : Turn) where
  unfoldable pub progress : AgentProgress → Prog (Unit {0})
  progress p = when t.live (query (emit (agent_progress p)))

  unfoldable pub finish : ModelToolCall → CallOutcome → Option String → Prog (Unit {0})
  unfolding progress
  finish call outcome summary = progress (tool_call_finished call.id call.name outcome summary)

  abbrev pub pending_input :
      ModelToolCall → List ModelMessage → HitlDecision → PendingLevel → CreatePendingApprovalInput
  pending_input call messages d level = record {
    request_id = d.request_id;
    tool_name = call.name;
    level = level;
    inputs_hash = h.codec.sha256 call.input;
    plan_summary = some (
        "Tool \"" ++ call.name ++ "\" invocada por " ++ t.actor ++ " (sesión " ++ t.session_id
        ++ ")");
    payload = some (arguments call.input);
    actor = some t.actor;
    external_inputs_summary = summarize_untrusted_sources messages;
  }

  abbrev pub deferred_text : HitlDecision → String
  deferred_text d =
      "Acción diferida — requiere aprobación humana (requestId: " ++ d.request_id
      ++ "). No se ejecutó todavía."

  -- `confirm` and `dual-confirm`: a pending approval, and nothing runs
  unfoldable pub defer :
      ModelToolCall → List ModelMessage → Failures → HitlDecision → PendingLevel → Prog CallResult
  unfolding create_pending_approval finish summarize_untrusted_sources build_tool_call_key
      delete_failures
  defer call messages failures d level = do
    create_pending_approval (pending_input call messages d level)
    finish call deferred (some (deferred_text d))
    ret (record {
      failures = delete_failures (build_tool_call_key call) failures;
      deferred = some (record { request_id = d.request_id; tool_name = call.name });
      block = result_block call (deferred_text d);
    })

  abbrev pub executed_status : HitlDecision → ApprovalStatus
  executed_status d = if is_level d.level auto then ApprovalStatus.auto else ApprovalStatus.notified

  abbrev pub relaxed_summary : ModelToolCall → Option String → Option String
  relaxed_summary call none = none
  relaxed_summary call (some by) =
      some ("Autoejecutada sin aprobación (" ++ by ++ "): \"" ++ call.name ++ "\" era confirm")

  unfoldable pub write_down : ModelToolCall → HitlDecision → Prog AuditRow
  unfolding record_tool_call
  write_down call d =
      record_tool_call d.request_id t.actor call.name (h.codec.sha256 call.input)
        (relaxed_summary call d.relaxed_by) (executed_status d) none

  unfoldable pub tell_owner : ModelToolCall → HitlDecision → Prog (Unit {0})
  tell_owner call d =
      when (is_level d.level notify)
        (query (emit (action_notified d.request_id call.name t.actor d.relaxed_by)))

  unfoldable pub hand_over : ModelToolCall → Failures → String → Prog CallResult
  unfolding wrap_untrusted_content finish build_tool_call_key delete_failures
  hand_over call failures result = do
    sanitized ← settle (wrap_untrusted_content result call.name t.nonce)
    finish call success none
    ret (record {
      failures = delete_failures (build_tool_call_key call) failures;
      deferred = none;
      block = result_block call sanitized;
    })

  -- `auto` and `notify`: the tool runs, and then it is written down and told
  unfoldable pub run_now : ModelToolCall → Failures → HitlDecision → Prog CallResult
  unfolding execute write_down tell_owner hand_over
  run_now call failures d = do
    result ← execute t.registry call.name (some (arguments call.input)) d.request_id
    write_down call d
    tell_owner call d
    hand_over call failures result

  unfoldable pub act :
      ModelToolCall
      → List ModelMessage
      → Failures
      → HitlDecision
      → Option PendingLevel
      → Prog CallResult
  unfolding defer run_now
  act call messages failures d (some level) = defer call messages failures d level
  act call messages failures d none = run_now call failures d

  -- the body of the `try`
  unfoldable pub attempt : ModelToolCall → List ModelMessage → Failures → Prog CallResult
  unfolding decide act
  attempt call messages failures = do
    d ← decide h t.autonomy t.flags call.name
    act call messages failures d (pending_level_of d.level)

  abbrev pub failure_text : ModelToolCall → Error → String
  failure_text call e = "Error ejecutando " ++ call.name ++ ": " ++ h.message_of e

  -- the `catch`
  unfoldable pub failed_call : ModelToolCall → Failures → Error → Prog CallResult
  unfolding finish build_tool_call_key set_failures failures_of
  failed_call call failures e = do
    finish call error (some (failure_text call e))
    let key = build_tool_call_key call
    ret (record {
      failures = set_failures key (failures_of key failures + 1) failures;
      deferred = none;
      block = error_block call (failure_text call e);
    })

  -- an early return with an error for the model
  unfoldable pub refuse : ModelToolCall → Failures → String → Prog CallResult
  unfolding finish
  refuse call failures summary = do
    finish call error (some summary)
    ret (record { failures = failures; deferred = none; block = error_block call summary })

  abbrev pub exhausted_text : ModelToolCall → ℕ → String
  exhausted_text call prior =
      "Este intento exacto de \""
      ++ call.name
      ++ "\" ya falló "
      ++ decimal prior
      ++ " veces seguidas — no se reintenta más. Probá un enfoque distinto o reportá el fallo."

  unfoldable pub unless_exhausted :
      ModelToolCall → List ModelMessage → Failures → ℕ → Prog CallResult
  unfolding refuse attempt failed_call
  unless_exhausted call messages failures prior =
      if leb t.max_consecutive_tool_failures prior
      then refuse call failures (exhausted_text call prior)
      else catch (attempt call messages failures) (failed_call call failures)

  abbrev pub off_text : ModelToolCall → IntegrationName → String
  off_text call name =
      "La integración \""
      ++ integration_text name
      ++ "\" está desactivada (feature flag). No se ejecutó \""
      ++ call.name
      ++ "\"."

  unfoldable pub unless_off :
      ModelToolCall → List ModelMessage → Failures → Option IntegrationName → Prog CallResult
  unfolding refuse unless_exhausted failures_of build_tool_call_key
  unless_off call messages failures (some name) = refuse call failures (off_text call name)
  unless_off call messages failures none =
      unless_exhausted call messages failures (failures_of (build_tool_call_key call) failures)

  unfoldable pub handle_real_tool_call :
      ModelToolCall → List ModelMessage → Failures → Prog CallResult
  unfolding progress unless_off truncate_for_progress get_tool_definition is_integration_enabled
  handle_real_tool_call call messages failures = do
    progress (tool_call_started call.id call.name (truncate_for_progress call.input))
    unless_off call messages failures (switched_off t.flags (get_tool_definition call.name))
