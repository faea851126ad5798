-- ===== src/Agent/Turn.antt =====
-- `runTurn` of src/agent/agent.service.ts, and the compression of its history
-- (history-compaction.service.ts).
use jin_core.Security.Sanitizer.{
  build_session_untrusted_content_instruction, build_generic_untrusted_content_instruction,
}
use jin_core.Base.{
  ◌==◌, ℕ, zero, suc, String, Bool, true, false, Option, none, some, List, [], ◌∷◌, ◌++◌, ◌&&◌, map,
  filter, any, str_eq, or_else, if◌then◌else◌,
}
use Prim.Native.Char.{code}
use Prim.Native.String
use jin_core.Hitl.Executors.{Registry}
use jin_core.Autonomy.Logic.{AutonomyConfig}
use jin_core.Flags.Service.{FeatureFlagsConfig}
use jin_core.Tools.Definition.{ToolDefinition}
use jin_core.Tools.Registry.{list_registered_tools}
use jin_core.ModelProvider.Types.{
  ModelMessage, ModelToolCall, ModelToolDeclaration, ModelMessageContentBlock, tool_use, blocks,
  plain, user, assistant, ModelCompletionResponse, ModelStopReason, stop_for_tools, max_tokens,
  refusal, SelectModelHints,
}
use jin_core.Budget.Guarded
use jin_core.Budget.Guarded.{Guard, Call}
use jin_core.Agent.Types.{AgentPlan, AgentPendingApproval, plan, text_delta}
use jin_core.Agent.Plan.{handle_declare_plan, handle_update_plan_step}
use jin_core.Agent.Calls.{Turn, Failures, CallResult, progress, handle_real_tool_call}
use jin_core.Agent.Compaction.{
  HistoryCompactionPlan, plan_history_compaction, render_messages_as_transcript,
}
use jin_core.Runtime.Program.{
  Answer, ok, err, Prog, ret, query, ◌>>=◌, ◌>>◌, clock, random_nonce, agent_progress, settled,
}
use jin_core.Runtime.World.{Host}

pub record AgentConfig : Type 0 where
  pub max_iterations_per_turn : ℕ
  pub max_consecutive_tool_failures : ℕ
  pub max_history_tokens : ℕ
  pub preserve_last_turns : ℕ
  pub max_output_tokens : ℕ

pub record AgentTurnInput : Type 0 where
  pub session_id : String
  pub objective : String
  pub history : List ModelMessage
  pub allowed_tools : Option (List String)
  pub actor_label : Option String
  pub live : Bool

pub record AgentTurnResult : Type 0 where
  pub final_response : String
  pub plan : AgentPlan
  pub pending_approvals : List AgentPendingApproval
  pub iterations_used : ℕ
  pub models_used : List String
  pub compacted_history : Option (List ModelMessage)

-- the services that a turn uses; `consolidate` is the memory's
pub record Agent : Type 0 where
  pub guard : Guard
  pub registry : Registry
  pub autonomy : AutonomyConfig
  pub flags : FeatureFlagsConfig
  pub config : AgentConfig
  pub consolidate : String → String → Prog (Unit {0})

-- the variables of the loop
pub record TurnState : Type 0 where
  pub messages : List ModelMessage
  pub plan : AgentPlan
  pub pending_approvals : List AgentPendingApproval
  pub failures : Failures
  pub models_used : List String

abbrev pub declare_plan_tool : String
declare_plan_tool = "declarePlan"

abbrev pub update_plan_step_tool : String
update_plan_step_tool = "updatePlanStep"

abbrev pub is_allowed : Option (List String) → ToolDefinition → Bool
is_allowed none t = true
is_allowed (some names) t = any (λ name. str_eq name t.name) names

abbrev pub declaration_of : ToolDefinition → ModelToolDeclaration
declaration_of t = record { name = t.name }

unfoldable pub build_tool_declarations : Option (List String) → List ModelToolDeclaration
build_tool_declarations allowed =
    (record { name = declare_plan_tool })
    ∷ (record { name = update_plan_step_tool })
    ∷ map declaration_of (filter (is_allowed allowed) list_registered_tools)

-- the white space of `trim`
abbrev pub spaces : List ℕ
spaces =
    9 ∷ 10 ∷ 11 ∷ 12 ∷ 13 ∷ 32 ∷ 160 ∷ 5760 ∷ 8192 ∷ 8193 ∷ 8194 ∷ 8195 ∷ 8196 ∷ 8197 ∷ 8198 ∷ 8199
    ∷ 8200 ∷ 8201 ∷ 8202 ∷ 8232 ∷ 8233 ∷ 8239 ∷ 8287 ∷ 12288 ∷ 65279 ∷ []

-- `content.trim().length === 0`
unfoldable pub is_blank : String → Bool
is_blank String.[] = true
is_blank (String.◌∷◌ c s) = any (λ n. n == code c) spaces && is_blank s

abbrev pub no_room_text : String
no_room_text =
    "El modelo se quedó sin espacio de salida antes de terminar (gastó el tope pensando). No es un filtro de seguridad. Probá bajar el esfuerzo en Más → Ajustes → Modelo del chat, o pedime un paso más chico."

abbrev pub no_answer_text : String
no_answer_text =
    "No pude generar una respuesta para este pedido: el modelo cortó la respuesta sin devolver contenido (probablemente su propio filtro de seguridad, no un error de Jin). Probá reformular el objetivo o dividirlo en pasos más chicos."

abbrev pub iterations_text : String
iterations_text = "Se alcanzó el límite de iteraciones del turno sin llegar a una respuesta final."

abbrev pub text_for : ModelStopReason → Bool → String → String
text_for max_tokens true content = no_room_text
text_for refusal _ content = no_answer_text
text_for _ true content = no_answer_text
text_for _ false content = content

unfoldable pub resolve_final_response_text : ModelCompletionResponse → String
unfolding is_blank
resolve_final_response_text r = text_for r.stop_reason (is_blank r.content) r.content

abbrev pub is_stop_for_tools : ModelStopReason → Bool
is_stop_for_tools stop_for_tools = true
is_stop_for_tools _ = false

-- `stopReason !== 'tool_use' || !toolCalls?.length`
abbrev pub calls_to_make : ModelCompletionResponse → List ModelToolCall
calls_to_make r = if is_stop_for_tools r.stop_reason then r.tool_calls else []

abbrev pub contains : String → List String → Bool
contains s names = any (λ name. str_eq name s) names

abbrev pub with_model : String → List String → List String
with_model model names = if contains model names then names else names ++ model ∷ []

abbrev pub no_hints : SelectModelHints
no_hints = record {
  estimated_input_tokens = none;
  latency_requirement = none;
  budget_remaining = none;
}

abbrev pub with_deferred :
    Option AgentPendingApproval → List AgentPendingApproval → List AgentPendingApproval
with_deferred none pending = pending
with_deferred (some p) pending = pending ++ p ∷ []

abbrev pub summary_system_prompt : String
summary_system_prompt =
    "Sos el módulo de compresión de historial de chat de Jin. Se te da un tramo de conversación entre el owner y el agente que ya no entra completo en el contexto del turno actual. Resumilo en un párrafo breve y denso: qué pidió el owner, qué hizo el agente, qué se decidió o quedó pendiente. No inventes nada que no esté en el tramo. Respondé solo con el resumen en prosa, sin encabezados ni markdown.\n\n"

-- within an answer of the model: the variables and the results so far
pub record Batch : Type 0 where
  pub state : TurnState
  pub results : List ModelMessageContentBlock

-- the prose of `buildSystemPrompt`, before the time and behind it
abbrev pub prompt_head : String
prompt_head =
    "Sos Jin, un agente autónomo orientado a objetivos. Para tareas no triviales, declará primero un plan con la tool declarePlan, y actualizalo con updatePlanStep a medida que avanzás — incluido tras un fallo, ajustando el enfoque (autocorrección). Si un intento se agota sin éxito, decilo explícitamente en tu respuesta final: nunca inventes que algo se logró cuando no fue así.\n\nFecha y hora actuales: "

abbrev pub prompt_tail : String
prompt_tail =
    ". Usalas para responder la hora o la fecha y para razonar plazos (\"mañana\", \"esta semana\"); para otra ciudad, convertí desde esta.\n\n"

module _ (h : Host) (a : Agent) where
  -- src/agent/agent.logic.ts
  unfoldable pub describe_current_date_time : ℕ → String
  describe_current_date_time now = String.◌++◌ (h.local_time now) (
      String.◌++◌ " (zona horaria "
        (String.◌++◌ h.time_zone (String.◌++◌ "; UTC " (String.◌++◌ (h.codec.iso now) ")"))))

  unfoldable pub build_system_prompt : String → ℕ → String
  unfolding describe_current_date_time build_session_untrusted_content_instruction
  build_system_prompt nonce now = String.◌++◌ prompt_head (
      String.◌++◌ (describe_current_date_time now)
        (String.◌++◌ prompt_tail (build_session_untrusted_content_instruction nonce)))

  unfoldable pub compaction_call : String → String → Call
  unfolding build_generic_untrusted_content_instruction
  compaction_call sid transcript = record {
    task_profile = "history_compaction";
    request = record {
      system_prompt =
          some (String.◌++◌ summary_system_prompt build_generic_untrusted_content_instruction);
      messages = (record { role = user; content = plain transcript }) ∷ [];
      max_output_tokens = 1000;
      temperature_percent = 20;
      tools = none;
      effort = none;
    };
    hints = no_hints;
    session_id = some sid;
  }

  abbrev pub summary_message : ModelCompletionResponse → ModelMessage
  summary_message response = record {
    role = user;
    content = plain (String.◌++◌ "[Resumen automático de turnos previos]\n" response.content);
  }

  unfoldable pub after_summary :
      String → String → Answer ModelCompletionResponse → Prog (Option ModelMessage)
  after_summary sid transcript (err _) = ret none
  after_summary sid transcript (ok response) =
      settled (a.consolidate sid transcript) >>= λ _. ret (some (summary_message response))

  -- `compact`, which never rejects
  unfoldable pub compact : String → HistoryCompactionPlan → Prog (Option ModelMessage)
  unfolding render_messages_as_transcript compaction_call Guarded.complete after_summary
  compact sid p =
      let transcript = render_messages_as_transcript p.to_compact in
      settled (Guarded.complete h a.guard (compaction_call sid transcript))
      >>= after_summary sid transcript

  abbrev pub with_history :
      AgentTurnResult → HistoryCompactionPlan → Option ModelMessage → AgentTurnResult
  with_history base p none = base
  with_history base p (some summary) = record base {
    compacted_history = some (summary ∷ p.to_preserve);
  }

  unfoldable pub compacted :
      String → AgentTurnResult → Option HistoryCompactionPlan → Prog AgentTurnResult
  unfolding compact
  compacted sid base none = ret base
  compacted sid base (some p) = compact sid p >>= λ summary. ret (with_history base p summary)

  unfoldable pub finalize_turn : String → String → ℕ → TurnState → Prog AgentTurnResult
  unfolding compacted plan_history_compaction
  finalize_turn sid final used s =
      compacted sid
        (record {
          final_response = final;
          plan = s.plan;
          pending_approvals = s.pending_approvals;
          iterations_used = used;
          models_used = s.models_used;
          compacted_history = none;
        })
        (plan_history_compaction h s.messages (record {
          max_history_tokens = a.config.max_history_tokens;
          preserve_last_turns = a.config.preserve_last_turns;
        }))

  module _ (t : Turn) where
    abbrev pub with_plan : Batch → AgentPlan × ModelMessageContentBlock → Prog Batch
    with_plan b (p, block) = do
      progress h t (plan p)
      ret (record { state = record b.state { plan = p }; results = b.results ++ block ∷ [] })

    abbrev pub with_result : Batch → CallResult → Batch
    with_result b r = record {
      state = record b.state {
        failures = r.failures;
        pending_approvals = with_deferred r.deferred b.state.pending_approvals;
      };
      results = b.results ++ r.block ∷ [];
    }

    -- the two tools of the plan by their names, and the others
    unfoldable pub handle_call : ModelToolCall → Batch → Prog Batch
    unfolding handle_declare_plan handle_update_plan_step handle_real_tool_call progress
    handle_call call b =
        if str_eq call.name declare_plan_tool
        then with_plan b (handle_declare_plan h call)
        else if str_eq call.name update_plan_step_tool
        then with_plan b (handle_update_plan_step h call b.state.plan)
        else (handle_real_tool_call h t call b.state.messages b.state.failures >>= λ r.
            ret (with_result b r))

    unfoldable pub handle_calls : List ModelToolCall → Batch → Prog Batch
    unfolding handle_call
    handle_calls [] b = ret b
    handle_calls (call ∷ calls) b = handle_call call b >>= λ c. handle_calls calls c

    abbrev pub asked : List ModelToolCall → TurnState → TurnState
    asked calls s = record s {
      messages =
          s.messages ++ (record { role = assistant; content = blocks (map tool_use calls) }) ∷ [];
    }

    abbrev pub answered : Batch → TurnState
    answered b = record b.state {
      messages = b.state.messages ++ (record { role = user; content = blocks b.results }) ∷ [];
    }

    unfoldable pub call_of : String → List ModelToolDeclaration → TurnState → Call
    call_of system_prompt tools s = record {
      task_profile = "chat_conversational";
      request = record {
        system_prompt = some system_prompt;
        messages = s.messages;
        max_output_tokens = a.config.max_output_tokens;
        temperature_percent = 70;
        tools = some tools;
        effort = none;
      };
      hints = no_hints;
      session_id = some t.session_id;
    }

    -- streaming only with a listener
    unfoldable pub ask_model : ℕ → Call → Prog ModelCompletionResponse
    unfolding Guarded.complete Guarded.complete_stream
    ask_model iteration c =
        if t.live
        then Guarded.complete_stream h a.guard c (λ d. agent_progress (text_delta iteration d))
        else Guarded.complete h a.guard c

    -- behind an answer: the calls that it wants, or the end; `again` is the rest of the loop
    unfoldable pub after_answer :
        (TurnState → Prog AgentTurnResult)
        → ℕ
        → ModelCompletionResponse
        → TurnState
        → List ModelToolCall
        → Prog AgentTurnResult
    unfolding finalize_turn resolve_final_response_text handle_calls
    after_answer again used r s [] =
        finalize_turn t.session_id (resolve_final_response_text r) used s
    after_answer again used r s (call ∷ calls) =
        handle_calls (call ∷ calls) (record { state = asked (call ∷ calls) s; results = [] })
        >>= λ b. again (answered b)

    -- `while (iterationsUsed < max)`, by the iterations that are left
    unfoldable pub turn_loop :
        String → List ModelToolDeclaration → ℕ → ℕ → TurnState → Prog AgentTurnResult
    unfolding ask_model call_of after_answer
    turn_loop system_prompt tools zero used s = finalize_turn t.session_id iterations_text used s
    turn_loop system_prompt tools (suc left) used s = do
      r ← ask_model (suc used) (call_of system_prompt tools s)
      after_answer (λ s'. turn_loop system_prompt tools left (suc used) s') (suc used) r
          (record s { models_used = with_model r.model_id s.models_used }) (calls_to_make r)

  abbrev pub turn_of : AgentTurnInput → String → Turn
  turn_of i nonce = record {
    registry = a.registry;
    autonomy = a.autonomy;
    flags = a.flags;
    max_consecutive_tool_failures = a.config.max_consecutive_tool_failures;
    session_id = i.session_id;
    nonce = nonce;
    actor = or_else i.actor_label "agent";
    live = i.live;
  }

  abbrev pub first_state : AgentTurnInput → TurnState
  first_state i = record {
    messages = i.history ++ (record { role = user; content = plain i.objective }) ∷ [];
    plan = record { steps = [] };
    pending_approvals = [];
    failures = [];
    models_used = [];
  }

  unfoldable pub run_turn : AgentTurnInput → Prog AgentTurnResult
  unfolding build_system_prompt build_tool_declarations turn_loop
  run_turn i = do
    nonce ← query random_nonce
    now ← query clock
    turn_loop (turn_of i nonce) (build_system_prompt nonce now)
        (build_tool_declarations i.allowed_tools) a.config.max_iterations_per_turn 0 (first_state i)
