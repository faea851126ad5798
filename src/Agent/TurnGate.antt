-- ===== src/Agent/TurnGate.antt =====
-- A whole turn of the agent, whatever the models, the tools and the database answer.
use jin_core.Approval.NeverRuns.{is_approval_row}
use jin_core.Agent.Reports.{progress-Neutral}
use jin_core.Agent.Plan.{handle_update_plan_step, handle_declare_plan}
use jin_core.Agent.Types.{plan, text_delta, AgentPlan}
use jin_core.ModelProvider.Types.{
  ModelMessage, ModelMessageContentBlock, ModelToolDeclaration, ModelCompletionResponse,
  ModelToolCall,
}
use jin_core.Agent.Compaction.{render_messages_as_transcript, HistoryCompactionPlan}
use jin_core.ModelProvider.Router.{Listener}
use jin_core.Agent.Gate.{Neutral}
use jin_core.Agent.Calls.{handle_real_tool_call, progress, Failures, Turn}
use jin_core.Budget.Guarded.{Call}
use jin_core.Runtime.Always.{run_Asks, Asks-imply, Asks-settled, Asks-bind, Asks}
use jin_core.Budget.Priced.{complete-Priced, complete_stream-Priced, Priced}
use jin_core.Agent.Unattended.{MayRun, handle_real_tool_call-Unattended, Unattended, ActsAsNamed}
use jin_core.Base.{
  count, All, count-append, ◌++◌, arith, ap, true, zero, sym, inr, inl, if◌then◌else◌, [], suc,
  Bool, none, str_eq, ◌∷◌, some, List, Bool-cases, Option, ℕ, ◌≡◌, String,
}
use jin_core.Runtime.Program.{
  model_stream, model_complete, pending_insert, err, audit_append, pending_claim, settled,
  pending_first_approval, agent_progress, Prog, override_upsert, ok, invoke, Answer, Op,
}
use jin_core.Runtime.World.{
  pending_insert_keeps, next_audit_row, respond_keeps, Invocation, run, World, perform, Outcome,
  Host,
}
use jin_core.Agent.Turn.{
  update_plan_step_tool, calls_to_make, with_model, answered, call_of, first_state, with_plan,
  declare_plan_tool, asked, iterations_text, build_tool_declarations, resolve_final_response_text,
  build_system_prompt, turn_of, compaction_call, TurnState, Batch, handle_call, handle_calls,
  ask_model, after_answer, turn_loop, AgentTurnResult, AgentTurnInput, after_summary, compact,
  compacted, finalize_turn, run_turn, Agent,
}
use jin_core.Flags.Service.{FeatureFlagsConfig}
use mathlib.Core.Path.{subst}
use jin_core.Base.{false}
use jin_core.Budget.Guarded
use jin_core.Agent.Unattended.{widen}
use jin_core.Base.{refl}

-- what a turn may ask: a tool's questions, and those of the models' calls
abbrev pub InTurn : FeatureFlagsConfig → Op → Type 0
InTurn flags (model_complete _ _) = Unit
InTurn flags (model_stream _ _) = Unit
InTurn flags o = Unattended flags o

Priced-InTurn : (flags : FeatureFlagsConfig) (o : Op) → Priced o → InTurn flags o
Priced-InTurn flags (invoke _ _ _) d = absurd d
Priced-InTurn flags (override_upsert _) d = absurd d
Priced-InTurn flags (pending_first_approval _ _ _ _) d = absurd d
Priced-InTurn flags (pending_claim _ _) d = absurd d
Priced-InTurn flags (audit_append _) d = absurd d
Priced-InTurn flags o d = tt

Unattended-InTurn : (flags : FeatureFlagsConfig) (o : Op) → Unattended flags o → InTurn flags o
Unattended-InTurn flags (model_complete _ _) d = tt
Unattended-InTurn flags (model_stream _ _) d = tt
Unattended-InTurn flags o d = d

in_turn :
    (flags : FeatureFlagsConfig) {A : Type 0} (p : Prog A) → Asks Neutral p → Asks (InTurn flags) p
in_turn flags p d =
    Asks-imply (Unattended flags) (InTurn flags) (Unattended-InTurn flags) p (widen flags p d)

-- the memory asks no tool and approves nothing, but may ask a model
abbrev pub OfMemory : Op → Type 0
OfMemory (model_complete _ _) = Unit
OfMemory (model_stream _ _) = Unit
OfMemory o = Neutral o

OfMemory-InTurn : (flags : FeatureFlagsConfig) (o : Op) → OfMemory o → InTurn flags o
OfMemory-InTurn flags (invoke _ _ _) d = absurd d
OfMemory-InTurn flags (model_complete _ _) d = tt
OfMemory-InTurn flags (model_stream _ _) d = tt
OfMemory-InTurn flags o d = d

abbrev pub ConsolidatesOnly : Agent → Type 0
ConsolidatesOnly a = (sid transcript : String) → Asks OfMemory (a.consolidate sid transcript)

module _ (h : Host) (a : Agent) (acts : ActsAsNamed a.registry) (mild : ConsolidatesOnly a) where
  abbrev Ok : Op → Type 0
  Ok = InTurn a.flags

  complete-Ok : (c : Call) → Asks Ok (Guarded.complete h a.guard c)
  complete-Ok c =
      Asks-imply Priced Ok (Priced-InTurn a.flags) (Guarded.complete h a.guard c)
        (complete-Priced h a.guard c)

  complete_stream-Ok :
      (c : Call) (on_delta : Listener) → Asks Ok (Guarded.complete_stream h a.guard c on_delta)
  complete_stream-Ok c on_delta =
      Asks-imply Priced Ok (Priced-InTurn a.flags) (Guarded.complete_stream h a.guard c on_delta)
        (complete_stream-Priced h a.guard c on_delta)

  after_summary-Ok :
      (sid transcript : String) (r : Answer ModelCompletionResponse)
      → Asks Ok (after_summary h a sid transcript r)
  unfolding after_summary
  after_summary-Ok sid transcript (ok r) =
      Asks-bind Ok (settled (a.consolidate sid transcript)) _
        (Asks-settled Ok (a.consolidate sid transcript) (
          Asks-imply OfMemory Ok (OfMemory-InTurn a.flags) (a.consolidate sid transcript)
            (mild sid transcript)))
        (λ _. tt)
  after_summary-Ok sid transcript (err _) = tt

  compact-Ok : (sid : String) (p : HistoryCompactionPlan) → Asks Ok (compact h a sid p)
  unfolding compact
  compact-Ok sid p =
      let c = compaction_call h a sid (render_messages_as_transcript p.to_compact) in
      Asks-bind Ok (settled (Guarded.complete h a.guard c)) _
        (Asks-settled Ok (Guarded.complete h a.guard c) (complete-Ok c))
        (after_summary-Ok sid (render_messages_as_transcript p.to_compact))

  compacted-Ok :
      (sid : String) (base : AgentTurnResult) (p : Option HistoryCompactionPlan)
      → Asks Ok (compacted h a sid base p)
  unfolding compacted
  compacted-Ok sid base none = tt
  compacted-Ok sid base (some p) = Asks-bind Ok (compact h a sid p) _ (compact-Ok sid p) (λ _. tt)

  finalize_turn-Ok :
      (sid final : String) (used : ℕ) (s : TurnState) → Asks Ok (finalize_turn h a sid final used s)
  unfolding finalize_turn
  finalize_turn-Ok sid final used s = compacted-Ok sid _ _

  module _ (t : Turn) (same_registry : t.registry ≡ a.registry)
      (same_flags : t.flags ≡ a.flags) where
    handled-Ok :
        (call : ModelToolCall) (messages : List ModelMessage) (failures : Failures)
        → Asks Ok (handle_real_tool_call h t call messages failures)
    handled-Ok call messages failures =
        subst (λ flags. Asks (InTurn flags) (handle_real_tool_call h t call messages failures))
          same_flags
          (Asks-imply (Unattended t.flags) (InTurn t.flags) (Unattended-InTurn t.flags)
            (handle_real_tool_call h t call messages failures)
            (handle_real_tool_call-Unattended h t (subst ActsAsNamed (sym same_registry) acts) call
              messages failures))

    with_plan-Ok :
        (b : Batch) (p : AgentPlan × ModelMessageContentBlock) → Asks Ok (with_plan h a t b p)
    with_plan-Ok b p =
        Asks-bind Ok (progress h t (plan p.0)) _
          (in_turn a.flags (progress h t (plan p.0)) (progress-Neutral h t (plan p.0))) (λ _. tt)

    handle_call-Ok : (call : ModelToolCall) (b : Batch) → Asks Ok (handle_call h a t call b)
    unfolding handle_call
    handle_call-Ok call b = elim (Bool-cases (str_eq call.name declare_plan_tool)) [
      | inl e ↦ rw e (with_plan-Ok b (handle_declare_plan h call))
      | inr e ↦ elim (Bool-cases (str_eq call.name update_plan_step_tool)) [
        | inl f ↦ rw (e, f) (with_plan-Ok b (handle_update_plan_step h call b.state.plan))
        | inr f ↦
            rw (e, f)
              (Asks-bind Ok (handle_real_tool_call h t call b.state.messages b.state.failures) _
                (handled-Ok call b.state.messages b.state.failures) (λ _. tt))
      ]
    ]

    handle_calls-Ok :
        (calls : List ModelToolCall) (b : Batch) → Asks Ok (handle_calls h a t calls b)
    unfolding handle_calls
    handle_calls-Ok [] b = tt
    handle_calls-Ok (call ∷ calls) b =
        Asks-bind Ok (handle_call h a t call b) _ (handle_call-Ok call b) (handle_calls-Ok calls)

    ask_model-Ok : (iteration : ℕ) (c : Call) → Asks Ok (ask_model h a t iteration c)
    unfolding ask_model
    ask_model-Ok iteration c = asked t.live
      where
        on_delta : Listener
        on_delta d = agent_progress (text_delta iteration d)

        asked :
            (live : Bool)
            → Asks Ok (
                if live
                then Guarded.complete_stream h a.guard c on_delta
                else Guarded.complete h a.guard c)
        asked true = complete_stream-Ok c on_delta
        asked false = complete-Ok c

    after_answer-Ok :
        (again : TurnState → Prog AgentTurnResult)
        → ((s : TurnState) → Asks Ok (again s))
        → (used : ℕ) (r : ModelCompletionResponse) (s : TurnState) (calls : List ModelToolCall)
        → Asks Ok (after_answer h a t again used r s calls)
    unfolding after_answer
    after_answer-Ok again rest used r s [] =
        finalize_turn-Ok t.session_id (resolve_final_response_text r) used s
    after_answer-Ok again rest used r s (call ∷ calls) =
        let b : Batch = record { state = asked h a t (call ∷ calls) s; results = [] } in
        Asks-bind Ok (handle_calls h a t (call ∷ calls) b) _ (handle_calls-Ok (call ∷ calls) b)
          (λ c. rest (answered h a t c))

    turn_loop-Ok :
        (prompt : String) (tools : List ModelToolDeclaration) (left used : ℕ) (s : TurnState)
        → Asks Ok (turn_loop h a t prompt tools left used s)
    unfolding turn_loop
    turn_loop-Ok prompt tools zero used s = finalize_turn-Ok t.session_id iterations_text used s
    turn_loop-Ok prompt tools (suc left) used s =
        Asks-bind Ok (ask_model h a t (suc used) (call_of h a t prompt tools s)) _
          (ask_model-Ok (suc used) (call_of h a t prompt tools s))
          λ r.
            after_answer-Ok (λ s'. turn_loop h a t prompt tools left (suc used) s')
              (λ s'. turn_loop-Ok prompt tools left (suc used) s') (suc used) r
              (record s { models_used = with_model r.model_id s.models_used }) (calls_to_make r)

  pub run_turn-Ok : (i : AgentTurnInput) → Asks Ok (run_turn h a i)
  unfolding run_turn
  run_turn-Ok i = (
    tt,
    elim [
      | ok nonce ↦ (
        tt,
        elim [
          | ok now ↦
              turn_loop-Ok (turn_of h a i nonce) refl refl (build_system_prompt h a nonce now)
                (build_tool_declarations i.allowed_tools) a.config.max_iterations_per_turn 0
                (first_state h a i)
          | err _ ↦ tt
        ],
      )
      | err _ ↦ tt
    ],
  )

-- what a turn leaves behind
abbrev pub Gated : FeatureFlagsConfig → World → World → Type 0
Gated flags w w' =
    ((new : List Invocation) × (w'.invoked ≡ new ++ w.invoked)
      × All (λ (i : Invocation). MayRun flags i.tool) new)
    × (w'.overrides ≡ w.overrides)
    × (count is_approval_row w'.audit ≡ count is_approval_row w.audit)

perform-Gated :
    (h : Host) (flags : FeatureFlagsConfig) (v : World) (o : Op) (w : World)
    → InTurn flags o
    → Gated flags v w
    → Gated flags v (perform h o w).1
unfolding perform
perform-Gated h flags v (invoke tool payload rid) w may ((new, added, all), overrides, approvals) =
    (
      (
        (record { tool = tool; payload = payload; request = rid }) ∷ new,
        ap (λ l. (record { tool = tool; payload = payload; request = rid }) ∷ l) added,
        (may, all),
      ),
      overrides,
      approvals,
    )
perform-Gated h flags v (override_upsert _) w may g = absurd may
perform-Gated h flags v (pending_first_approval _ _ _ _) w may g = absurd may
perform-Gated h flags v (pending_claim _ _) w may g = absurd may
perform-Gated h flags v (audit_append e) w may (ran, overrides, approvals) = (
  ran,
  overrides,
  ground (arith, count-append is_approval_row w.audit (next_audit_row h e w ∷ []), approvals),
)
perform-Gated h flags v (pending_insert row) w may g =
    pending_insert_keeps h (Gated flags v) row w g (λ t. g)
perform-Gated h flags v o w may g = g

-- In a turn, whatever the models ask for and whatever the models, the tools and the database answer or
-- fail to, every tool that ran is registered, and its static level or the one that the flags declare for
-- it is auto or notify, or it is a `confirm` that decides for no human, which a mode can relax. The turn
-- changes no override and writes no approval. This holds where each executor runs its own tool only,
-- approves nothing and writes no override but that of the overrides' own tool, and the memory does none
-- of it.
pub run_turn_gate :
    (h : Host) (a : Agent) (script : List Outcome) (i : AgentTurnInput) (w : World)
    → ActsAsNamed a.registry
    → ConsolidatesOnly a
    → Gated a.flags w (run h script (run_turn h a i) w).1
run_turn_gate h a script i w acts mild =
    run_Asks (InTurn a.flags) h (Gated a.flags w)
      (λ x o v may g.
        respond_keeps h (Gated a.flags w) x o v g (perform-Gated h a.flags w o v may g))
      script (run_turn h a i) w (run_turn-Ok h a acts mild i) (([], refl, tt), refl, refl)
