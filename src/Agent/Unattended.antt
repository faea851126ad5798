-- ===== src/Agent/Unattended.antt =====
-- What `handleRealToolCall` may run without a human, whatever the model asks for.
use mathlib.Core.Path.{subst}
use jin_core.Policy.Decision.{after_flags, classify_tool, classify_tool_call, decide}
use jin_core.Agent.Reports.{
  failed_call-Neutral, hand_over-Neutral, tell_owner-Neutral, refuse-Neutral, write_down-Neutral,
  progress-Neutral, defer-Neutral,
}
use jin_core.Agent.Types.{tool_call_started}
use jin_core.Agent.Calls.{
  exhausted_text, off_text, write_down, tell_owner, hand_over, Turn, Failures, act, attempt,
  build_tool_call_key, defer, failed_call, failures_of, handle_real_tool_call, pending_level_of,
  progress, refuse, run_now, switched_off, truncate_for_progress, unless_exhausted, unless_off,
}
use jin_core.Agent.Gate.{Neutral, decide-Neutral}
use jin_core.Flags.Service.{
  resolve_effective_level, FeatureFlagsConfig, declared_level, override_tool,
}
use jin_core.Hitl.Executors.{Executor, Registry, lookup_executor, execute, execute_with}
use jin_core.Hitl.Levels.{
  HitlLevel, HitlDecision, PendingLevel, auto, notify, confirm, dual_confirm,
}
use jin_core.Hitl.Payload.{arguments, Payload}
use jin_core.ModelProvider.Types.{ModelMessage, ModelToolCall}
use jin_core.Policy.Floor.{Floored, Floor, decide-Obeys}
use jin_core.Tools.Definition.{IntegrationName, ToolDefinition}
use jin_core.Tools.Registry.{get_tool_definition}
use jin_core.Runtime.Always.{Asks, Asks-bind, Asks-catch, Asks-imply, Asks-ends, always}
use jin_core.Runtime.Monitor.{Obeys-weaken, Any, Then, Obeys-bind}
use jin_core.Runtime.Program.{◌>>=◌, catch, err, ok, Answer, Op, Prog, invoke, override_upsert}
use jin_core.Runtime.World.{Host}
use jin_core.Base.{
  sym, leb, if◌then◌else◌, ℕ, ◌≡◌, ◌⊎◌, inl, inr, refl, Bool, true, false, Option, none, some, List,
  String, Option-cases,
}

-- a level that waits for no human
abbrev pub IsLow : HitlLevel → Type 0
IsLow l = (l ≡ auto) ⊎ (l ≡ notify)

-- the levels that the turn does not defer are these
not_deferred-IsLow : (l : HitlLevel) → pending_level_of l ≡ none → IsLow l
not_deferred-IsLow auto e = inl refl
not_deferred-IsLow notify e = inr refl
not_deferred-IsLow confirm e = absurd (cc)
not_deferred-IsLow dual_confirm e = absurd (cc)

-- A registered tool that may run unattended: its static level or the one that the flags declare for it is
-- low, or a mode can relax it.
abbrev pub MayRun : FeatureFlagsConfig → String → Type 0
MayRun flags tool =
    (t : ToolDefinition) × (get_tool_definition tool ≡ some t)
    × (IsLow t.hitl_level
        ⊎ (((l : HitlLevel) × (declared_level t.name flags.hitl_overrides ≡ some l) × IsLow l)
            ⊎ ((t.hitl_level ≡ confirm) × (t.human_decision ≡ false))))

-- what an executor may ask, by its tool
abbrev pub Own : String → Op → Type 0
Own name (invoke tool _ _) = tool ≡ name
Own name (override_upsert _) = name ≡ override_tool
Own name o = Neutral o

-- Every executor runs its own tool only, approves nothing, and only that of the overrides writes one.
abbrev pub ActsAsNamed : Registry → Type 0
ActsAsNamed r =
    (name : String) (e : Option Payload → String → Prog String)
    → lookup_executor name r ≡ some e
    → (payload : Option Payload) (rid : String) → Asks (Own name) (e payload rid)

-- a turn's questions
abbrev pub Unattended : FeatureFlagsConfig → Op → Type 0
Unattended flags (invoke tool _ _) = MayRun flags tool
Unattended flags o = Neutral o

override_tool_unregistered : (t : ToolDefinition) → get_tool_definition override_tool ≡ some t → ⊥
unfolding get_tool_definition
override_tool_unregistered t e = cc

module _ (flags : FeatureFlagsConfig) where
  Neutral-Unattended : (o : Op) → Neutral o → Unattended flags o
  Neutral-Unattended (invoke _ _ _) n = absurd n
  Neutral-Unattended o n = n

  pub widen : {A : Type 0} (p : Prog A) → Asks Neutral p → Asks (Unattended flags) p
  widen p d = Asks-imply Neutral (Unattended flags) Neutral-Unattended p d

  Own-Unattended :
      (name : String) (t : ToolDefinition)
      → get_tool_definition name ≡ some t
      → MayRun flags name
      → (o : Op) → Own name o
      → Unattended flags o
  Own-Unattended name t found may (invoke tool _ _) own = subst (MayRun flags) (sym own) may
  Own-Unattended name t found may (override_upsert _) own =
      override_tool_unregistered t (subst (λ n. get_tool_definition n ≡ some t) own found)
  Own-Unattended name t found may o own = own

  Floor-MayRun :
      (name : String) (t : ToolDefinition) (d : HitlDecision)
      → get_tool_definition name ≡ some t
      → Floor flags t d
      → IsLow d.level
      → MayRun flags name
  Floor-MayRun name t d found (inl same) low = (t, found, inl (subst IsLow same low))
  Floor-MayRun name t d found (inr (inl declared)) low =
      (t, found, inr (inl (d.level, declared, low)))
  Floor-MayRun name t d found (inr (inr (_, at_confirm, free))) low =
      (t, found, inr (inr (at_confirm, free)))

module _ (h : Host) (t : Turn) (acts : ActsAsNamed t.registry) where
  abbrev Ok : Op → Type 0
  Ok = Unattended t.flags

  execute-Unattended :
      (name : String) (def : ToolDefinition) (payload : Option Payload) (rid : String)
      → get_tool_definition name ≡ some def
      → MayRun t.flags name
      → Asks Ok (execute t.registry name payload rid)
  unfolding execute
  execute-Unattended name def payload rid found may =
      looked_up (lookup_executor name t.registry) refl
    where
      looked_up :
          (o : Option Executor)
          → lookup_executor name t.registry ≡ o
          → Asks Ok (execute_with o name payload rid)
      looked_up none e = tt
      looked_up (some f) e =
          Asks-imply (Own name) Ok (Own-Unattended t.flags name def found may) (f payload rid)
            (acts name f e payload rid)

  module _ (call : ModelToolCall) (messages : List ModelMessage) (failures : Failures) where
    run_now-Unattended :
        (def : ToolDefinition) (d : HitlDecision)
        → get_tool_definition call.name ≡ some def
        → MayRun t.flags call.name
        → Asks Ok (run_now h t call failures d)
    unfolding run_now
    run_now-Unattended def d found may =
        Asks-bind Ok (execute t.registry call.name (some (arguments call.input)) d.request_id) _
          (execute-Unattended call.name def (some (arguments call.input)) d.request_id found may)
          λ result.
            Asks-bind Ok (write_down h t call d) _
              (widen t.flags (write_down h t call d) (write_down-Neutral h t call d))
              λ _.
                Asks-bind Ok (tell_owner h t call d) _
                  (widen t.flags (tell_owner h t call d) (tell_owner-Neutral h t call d))
                  (λ _.
                    widen t.flags (hand_over h t call failures result)
                      (hand_over-Neutral h t call failures result))

    act-Unattended :
        (def : ToolDefinition) (d : HitlDecision) (r : Option PendingLevel)
        → get_tool_definition call.name ≡ some def
        → Floor t.flags def d
        → pending_level_of d.level ≡ r
        → Asks Ok (act h t call messages failures d r)
    unfolding act
    act-Unattended def d (some level) found floor e =
        widen t.flags (defer h t call messages failures d level)
          (defer-Neutral h t call messages failures d level)
    act-Unattended def d none found floor e =
        run_now-Unattended def d found
          (Floor-MayRun t.flags call.name def d found floor (not_deferred-IsLow d.level e))

    attempt_known :
        (def : ToolDefinition)
        → get_tool_definition call.name ≡ some def
        → Asks Ok (attempt h t call messages failures)
    unfolding attempt
    attempt_known def found =
        Obeys-bind (always Ok) (decide h t.autonomy t.flags call.name) _ Any tt (
          Obeys-weaken (always Ok) (decide h t.autonomy t.flags call.name) (Floored t.flags def) _
            tt ended
            (Asks-ends Ok (decide h t.autonomy t.flags call.name) (Floored t.flags def)
              (widen t.flags (decide h t.autonomy t.flags call.name)
                (decide-Neutral h t.autonomy t.flags call.name))
              (decide-Obeys h t.autonomy t.flags call.name def found)))
      where
        ended :
            (s : Unit {0}) (a : Answer HitlDecision)
            → Floored t.flags def s a
            → Then
                (always Ok)
                (λ d. act h t call messages failures d (pending_level_of d.level))
                Any
                s
                a
        ended s (ok d) floor = act-Unattended def d (pending_level_of d.level) found floor refl
        ended s (err _) _ = tt

    attempt_unknown :
        get_tool_definition call.name ≡ none → Asks Ok (attempt h t call messages failures)
    unfolding attempt decide classify_tool_call classify_tool
    attempt_unknown missing =
        subst
          (λ o. Asks Ok (
            classify_tool call.name o
            >>= (λ static. resolve_effective_level t.flags static >>= λ flagged.
                after_flags h t.autonomy t.flags call.name static flagged)
            >>= λ d. act h t call messages failures d (pending_level_of d.level)))
          (sym missing) tt

    attempt-Unattended : Asks Ok (attempt h t call messages failures)
    attempt-Unattended = elim (Option-cases (get_tool_definition call.name)) [
      | inl missing ↦ attempt_unknown missing
      | inr (def, found) ↦ attempt_known def found
    ]

    unless_exhausted-Unattended :
        (prior : ℕ) → Asks Ok (unless_exhausted h t call messages failures prior)
    unfolding unless_exhausted
    unless_exhausted-Unattended prior = decided (leb t.max_consecutive_tool_failures prior)
      where
        decided :
            (b : Bool)
            → Asks Ok (
                if b
                then refuse h t call failures (exhausted_text h t call prior)
                else catch (attempt h t call messages failures) (failed_call h t call failures))
        decided true =
            widen t.flags (refuse h t call failures (exhausted_text h t call prior))
              (refuse-Neutral h t call failures (exhausted_text h t call prior))
        decided false =
            Asks-catch Ok (attempt h t call messages failures) (failed_call h t call failures)
              attempt-Unattended
              (λ e.
                widen t.flags (failed_call h t call failures e)
                  (failed_call-Neutral h t call failures e))

    unless_off-Unattended :
        (o : Option IntegrationName) → Asks Ok (unless_off h t call messages failures o)
    unfolding unless_off
    unless_off-Unattended (some name) =
        widen t.flags (refuse h t call failures (off_text h t call name))
          (refuse-Neutral h t call failures (off_text h t call name))
    unless_off-Unattended none =
        unless_exhausted-Unattended (failures_of (build_tool_call_key call) failures)

    pub handle_real_tool_call-Unattended :
        Asks Ok (handle_real_tool_call h t call messages failures)
    unfolding handle_real_tool_call
    handle_real_tool_call-Unattended =
        Asks-bind Ok
          (progress h t (tool_call_started call.id call.name (truncate_for_progress call.input))) _
          (widen t.flags
            (progress h t (tool_call_started call.id call.name (truncate_for_progress call.input)))
            (progress-Neutral h t
              (tool_call_started call.id call.name (truncate_for_progress call.input))))
          (λ _. unless_off-Unattended (switched_off t.flags (get_tool_definition call.name)))
