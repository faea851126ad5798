-- ===== src/Agent/Bounds.antt =====
-- How often a whole turn of the agent asks a model.
use jin_core.Agent.Plan.{handle_update_plan_step, handle_declare_plan}
use jin_core.Agent.Reports.{progress-Neutral}
use Prim.Native.Nat.{zero}
use jin_core.Budget.Counted.{complete_stream_thrice, complete_thrice}
use jin_core.ModelProvider.Router.{Listener}
use mathlib.Core.Path.{subst}
use jin_core.Budget.Guarded.{Call}
use jin_core.Runtime.Always.{Asks-imply, Asks-bind, Asks}
use jin_core.Agent.Types.{plan, text_delta, AgentPlan}
use jin_core.ModelProvider.Types.{
  ModelMessageContentBlock, ModelMessage, ModelToolDeclaration, ModelCompletionResponse,
  ModelToolCall,
}
use jin_core.Agent.Compaction.{render_messages_as_transcript, HistoryCompactionPlan}
use jin_core.Agent.Calls.{progress, handle_real_tool_call, Failures, Turn}
use jin_core.Runtime.Within.{
  Within-bind-Free, run-Within, Within-settled, Within-mono, Within-bind, Within-of_Free, Within,
  Free,
}
use jin_core.Agent.Turn.{
  first_state, build_tool_declarations, build_system_prompt, calls_to_make, turn_of, with_model,
  AgentTurnInput, summary_message, call_of, run_turn, update_plan_step_tool, answered, asked,
  with_history, declare_plan_tool, resolve_final_response_text, with_plan, iterations_text,
  compaction_call, Batch, handle_call, handle_calls, ask_model, after_answer, turn_loop,
  AgentTurnResult, TurnState, after_summary, compact, compacted, finalize_turn, Agent,
}
use jin_core.Agent.Unattended.{handle_real_tool_call-Unattended, ActsAsNamed, Unattended}
use jin_core.Agent.Gate.{Neutral}
use jin_core.Runtime.World.{run, World, Outcome, Host}
use jin_core.Flags.Service.{FeatureFlagsConfig}
use jin_core.Runtime.Program.{
  err, settled, agent_progress, ret, ok, Prog, Answer, model_stream, model_complete, Op,
}
use jin_core.Budget.Guarded
use jin_core.Base.{
  length, false, true, sym, inr, if◌then◌else◌, none, inl, Bool, [], suc, arith, some, str_eq,
  Bool-cases, ◌∷◌, ◌≤◌, List, Option, ◌≡◌, String, ◌+◌, ◌*◌, ℕ, refl,
}

Neutral-Free : (o : Op) → Neutral o → Free o
Neutral-Free (model_complete _ _) d = d
Neutral-Free (model_stream _ _) d = d
Neutral-Free o d = tt

Unattended-Free : (flags : FeatureFlagsConfig) (o : Op) → Unattended flags o → Free o
Unattended-Free flags (model_complete _ _) d = d
Unattended-Free flags (model_stream _ _) d = d
Unattended-Free flags o d = tt

-- three calls for each iteration, and for the history three and the memory's
abbrev pub most_calls : ℕ → ℕ → ℕ
most_calls iterations memory = 3 * iterations + (3 + memory)

module _ (h : Host) (a : Agent) (limit memory : ℕ) (acts : ActsAsNamed a.registry)
    (remembers : (sid transcript : String)
      → Within limit memory (a.consolidate sid transcript)) where
  summary-Within :
      (sid transcript : String) (r : Answer ModelCompletionResponse)
      → Within limit memory (after_summary h a sid transcript r)
  unfolding after_summary
  summary-Within sid transcript (ok r) =
      subst (λ k. Within limit k (after_summary h a sid transcript (ok r))) (omega arith)
        (Within-bind limit memory 0 (settled (a.consolidate sid transcript)) _
          (Within-settled limit memory (a.consolidate sid transcript) (remembers sid transcript))
          (λ _. Within-of_Free limit 0 (ret (some (summary_message h a r))) tt))
  summary-Within sid transcript (err _) =
      Within-of_Free limit {A = Option ModelMessage} memory (ret none) tt

  compact-Within :
      (sid : String) (p : HistoryCompactionPlan) → Within limit (3 + memory) (compact h a sid p)
  unfolding compact
  compact-Within sid p =
      let c = compaction_call h a sid (render_messages_as_transcript p.to_compact) in
      Within-bind limit 3 memory (settled (Guarded.complete h a.guard c)) _
        (Within-settled limit 3 (Guarded.complete h a.guard c) (complete_thrice limit h a.guard c))
        (summary-Within sid (render_messages_as_transcript p.to_compact))

  compacted-Within :
      (sid : String) (base : AgentTurnResult) (p : Option HistoryCompactionPlan)
      → Within limit (3 + memory) (compacted h a sid base p)
  unfolding compacted
  compacted-Within sid base none =
      Within-of_Free limit {A = AgentTurnResult} (3 + memory) (ret base) tt
  compacted-Within sid base (some p) =
      subst (λ k. Within limit k (compacted h a sid base (some p))) (omega arith)
        (Within-bind limit (3 + memory) 0 (compact h a sid p) _ (compact-Within sid p)
          (λ summary. Within-of_Free limit 0 (ret (with_history h a base p summary)) tt))

  finalize-Within :
      (sid final : String) (used : ℕ) (s : TurnState)
      → Within limit (3 + memory) (finalize_turn h a sid final used s)
  unfolding finalize_turn
  finalize-Within sid final used s = compacted-Within sid _ _

  module _ (t : Turn) (same_registry : t.registry ≡ a.registry) where
    with_plan-Free :
        (b : Batch) (p : AgentPlan × ModelMessageContentBlock) → Asks Free (with_plan h a t b p)
    with_plan-Free b p =
        Asks-bind Free (progress h t (plan p.0)) _
          (Asks-imply Neutral Free Neutral-Free (progress h t (plan p.0))
            (progress-Neutral h t (plan p.0)))
          (λ _. tt)

    handled-Free :
        (call : ModelToolCall) (messages : List ModelMessage) (failures : Failures)
        → Asks Free (handle_real_tool_call h t call messages failures)
    handled-Free call messages failures =
        Asks-imply (Unattended t.flags) Free (Unattended-Free t.flags)
          (handle_real_tool_call h t call messages failures)
          (handle_real_tool_call-Unattended h t (subst ActsAsNamed (sym same_registry) acts) call
            messages failures)

    handle_call-Free : (call : ModelToolCall) (b : Batch) → Asks Free (handle_call h a t call b)
    unfolding handle_call
    handle_call-Free call b = elim (Bool-cases (str_eq call.name declare_plan_tool)) [
      | inl e ↦ rw e (with_plan-Free b (handle_declare_plan h call))
      | inr e ↦ elim (Bool-cases (str_eq call.name update_plan_step_tool)) [
        | inl f ↦ rw (e, f) (with_plan-Free b (handle_update_plan_step h call b.state.plan))
        | inr f ↦
            rw (e, f)
              (Asks-bind Free (handle_real_tool_call h t call b.state.messages b.state.failures) _
                (handled-Free call b.state.messages b.state.failures) (λ _. tt))
      ]
    ]

    handle_calls-Free :
        (calls : List ModelToolCall) (b : Batch) → Asks Free (handle_calls h a t calls b)
    unfolding handle_calls
    handle_calls-Free [] b = tt
    handle_calls-Free (call ∷ calls) b =
        Asks-bind Free (handle_call h a t call b) _ (handle_call-Free call b)
          (handle_calls-Free calls)

    ask_model-Within : (iteration : ℕ) (c : Call) → Within limit 3 (ask_model h a t iteration c)
    unfolding ask_model
    ask_model-Within iteration c = asked_within t.live
      where
        on_delta : Listener
        on_delta d = agent_progress (text_delta iteration d)

        asked_within :
            (live : Bool)
            → Within limit 3 (
                if live
                then Guarded.complete_stream h a.guard c on_delta
                else Guarded.complete h a.guard c)
        asked_within true = complete_stream_thrice limit h a.guard c on_delta
        asked_within false = complete_thrice limit h a.guard c

    answer-Within :
        (k : ℕ) (again : TurnState → Prog AgentTurnResult)
        → 3 + memory ≤ k
        → ((s : TurnState) → Within limit k (again s))
        → (used : ℕ) (r : ModelCompletionResponse) (s : TurnState) (calls : List ModelToolCall)
        → Within limit k (after_answer h a t again used r s calls)
    unfolding after_answer
    answer-Within k again le rest used r s [] =
        Within-mono limit (3 + memory) k
          (finalize_turn h a t.session_id (resolve_final_response_text r) used s) le
          (finalize-Within t.session_id (resolve_final_response_text r) used s)
    answer-Within k again le rest used r s (call ∷ calls) =
        let b : Batch = record { state = asked h a t (call ∷ calls) s; results = [] } in
        Within-bind-Free limit k (handle_calls h a t (call ∷ calls) b) _
          (handle_calls-Free (call ∷ calls) b) (λ c. rest (answered h a t c))

    turn_loop-Within :
        (prompt : String) (tools : List ModelToolDeclaration) (left used : ℕ) (s : TurnState)
        → Within limit (most_calls left memory) (turn_loop h a t prompt tools left used s)
    unfolding turn_loop
    turn_loop-Within prompt tools zero used s =
        Within-mono limit (3 + memory) (most_calls 0 memory)
          (finalize_turn h a t.session_id iterations_text used s) (omega arith)
          (finalize-Within t.session_id iterations_text used s)
    turn_loop-Within prompt tools (suc left) used s =
        subst (λ k. Within limit k (turn_loop h a t prompt tools (suc left) used s)) (omega arith)
          (Within-bind limit 3 (most_calls left memory)
            (ask_model h a t (suc used) (call_of h a t prompt tools s)) _
            (ask_model-Within (suc used) (call_of h a t prompt tools s))
            λ r.
              answer-Within (most_calls left memory)
                (λ s'. turn_loop h a t prompt tools left (suc used) s') (omega arith)
                (λ s'. turn_loop-Within prompt tools left (suc used) s') (suc used) r
                (record s { models_used = with_model r.model_id s.models_used }) (calls_to_make r))

  run_turn-Within :
      (i : AgentTurnInput)
      → Within limit (most_calls a.config.max_iterations_per_turn memory) (run_turn h a i)
  unfolding run_turn
  run_turn-Within i n room = (
    tt,
    elim [
      | ok nonce ↦ (
        tt,
        elim [
          | ok now ↦
              turn_loop-Within (turn_of h a i nonce) refl (build_system_prompt h a nonce now)
                (build_tool_declarations i.allowed_tools) a.config.max_iterations_per_turn 0
                (first_state h a i) n room
          | err _ ↦ omega arith
        ],
      )
      | err _ ↦ omega arith
    ],
  )

-- A turn asks a model at most three times for each of the iterations that its configuration allows, three
-- times more for the summary of its history, and as often as the memory does for one consolidation,
-- whatever the models, the tools and the database answer or fail to. This holds where each executor
-- runs its own tool and asks no model itself.
pub run_turn_calls :
    (h : Host) (a : Agent) (script : List Outcome) (i : AgentTurnInput) (w : World) (memory : ℕ)
    → ActsAsNamed a.registry
    → ((sid transcript : String)
        → Within
            (most_calls a.config.max_iterations_per_turn memory)
            memory
            (a.consolidate sid transcript))
    → length (run h script (run_turn h a i) w).1.model_calls
      ≤ length w.model_calls + most_calls a.config.max_iterations_per_turn memory
run_turn_calls h a script i w memory acts remembers =
    run-Within h (most_calls a.config.max_iterations_per_turn memory) w script (run_turn h a i) (
      run_turn-Within h a (most_calls a.config.max_iterations_per_turn memory) memory acts remembers
        i)
