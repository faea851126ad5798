-- ===== src/Agent/Gate.antt =====
-- What the services around a tool call may ask while the agent works: they run no tool and no model, approve
-- nothing and lower no tool's level.
use jin_core.Base.{
  ℕ, String, Bool, true, false, Option, none, some, ◌≡◌, refl, ltb, or_else, if◌then◌else◌,
}
use jin_core.Approval.NeverRuns.{is_approval}
use jin_core.Audit.Chain.{Entry, ApprovalStatus}
use jin_core.Audit.Service.{append_row, record_tool_call}
use jin_core.Autonomy.Logic.{AutonomyConfig}
use jin_core.Autonomy.Mode.{AutonomyMode, supervised}
use jin_core.Autonomy.Service.{
  state_of, given_or_random, Change, relax, relax_with, brake, apply_restrictive_change,
  write_state, apply_change, audit_guarded, audit_change, announce, get_state,
}
use jin_core.Flags.Service.{
  declared_level, FeatureFlagsConfig, resolve_declared, resolve_effective_level,
}
use jin_core.Hitl.Levels.{is_level, HitlLevel, HitlDecision}
use jin_core.Policy.Decision.{decide, classify_tool, classify_tool_call, after_flags}
use jin_core.Tools.Definition.{ToolDefinition}
use jin_core.Tools.Registry.{get_tool_definition}
use jin_core.Runtime.Always.{Asks, Asks-query, Asks-bind, Asks-catch}
use jin_core.Runtime.Program.{
  model_stream, model_complete, Op, Prog, ok, err, ChangeReason, ret, ◌>>◌, catch, audit_append,
  random_uuid, invoke, override_upsert, pending_first_approval, pending_claim, circuit_breaker,
}
use jin_core.Runtime.World.{Host}

abbrev pub Neutral : Op → Type 0
Neutral (invoke _ _ _) = ⊥
Neutral (override_upsert _) = ⊥
Neutral (pending_first_approval _ _ _ _) = ⊥
Neutral (pending_claim _ _) = ⊥
Neutral (model_complete _ _) = ⊥
Neutral (model_stream _ _) = ⊥
Neutral (audit_append e) = is_approval e.approval_status ≡ false
Neutral _ = Unit

append_row-Neutral :
    (e : Entry) → is_approval e.approval_status ≡ false → Asks Neutral (append_row e)
unfolding append_row
append_row-Neutral e h =
    (tt, elim [ ok true ↦ tt | ok false ↦ (h, elim [ ok _ ↦ tt | err _ ↦ tt ]) | err _ ↦ tt ])

pub record_tool_call-Neutral :
    (rid actor tool inputs_hash : String) (plan external : Option String) (status : ApprovalStatus)
    → is_approval status ≡ false
    → Asks Neutral (record_tool_call rid actor tool inputs_hash plan status external)
unfolding record_tool_call
record_tool_call-Neutral rid actor tool inputs_hash plan external status h = append_row-Neutral _ h

module _ (h : Host) where
  given_or_random-Neutral : (o : Option String) → Asks Neutral (given_or_random o)
  given_or_random-Neutral none = Asks-query Neutral random_uuid tt
  given_or_random-Neutral (some rid) = tt

  audit_change-Neutral :
      (now : ℕ) (previous : AutonomyMode) (c : Change)
      → Asks Neutral (audit_change h now previous c)
  unfolding audit_change record_tool_call append_row
  audit_change-Neutral now previous c =
      Asks-bind Neutral (given_or_random c.approval_request_id) _
        (given_or_random-Neutral c.approval_request_id)
        λ rid. (
          tt,
          elim [ ok true ↦ tt | ok false ↦ (refl, elim [ ok _ ↦ tt | err _ ↦ tt ]) | err _ ↦ tt ],
        )

  announce-Neutral :
      (now : ℕ) (previous : AutonomyMode) (c : Change) → Asks Neutral (announce h now previous c)
  unfolding announce
  announce-Neutral now previous c = (tt, elim [ ok _ ↦ tt | err _ ↦ tt ])

  apply_change-Neutral :
      (early : Bool) (now : ℕ) (previous : AutonomyMode) (c : Change)
      → Asks Neutral (apply_change h early now previous c)
  unfolding apply_change audit_guarded
  apply_change-Neutral true now previous c =
      Asks-bind Neutral (audit_change h now previous c) _ (audit_change-Neutral now previous c)
        (λ _. (tt, elim [ ok _ ↦ announce-Neutral now previous c | err _ ↦ tt ]))
  apply_change-Neutral false now previous c = (
    tt,
    elim [
      | ok _ ↦
          Asks-bind Neutral (catch (audit_change h now previous c) (λ _. ret tt)) _
            (Asks-catch Neutral (audit_change h now previous c) (λ _. ret tt)
              (audit_change-Neutral now previous c) (λ _. tt))
            (λ _. announce-Neutral now previous c)
      | err _ ↦ tt
    ],
  )

  write_state-Neutral : (c : Change) → Asks Neutral (write_state h c)
  unfolding write_state get_state
  write_state-Neutral c = (
    tt,
    elim [
      | ok now ↦ (
        tt,
        elim [
          | ok row ↦ apply_change-Neutral c.audit_before_apply now (state_of now row).mode c
          | err _ ↦ tt
        ],
      )
      | err _ ↦ tt
    ],
  )

  apply_restrictive_change-Neutral :
      (mode : AutonomyMode) (set_by : String) (reason : ChangeReason) (hours : ℕ)
      → Asks Neutral (apply_restrictive_change h mode set_by reason hours)
  unfolding apply_restrictive_change
  apply_restrictive_change-Neutral mode set_by reason hours = write_state-Neutral (record {
    mode = mode;
    hours = hours;
    set_by = set_by;
    reason = reason;
    approval_request_id = none;
    audit_before_apply = false;
  })

  module _ (config : AutonomyConfig) where
    brake-Neutral : (d e : HitlDecision) (count : ℕ) → Asks Neutral (brake h config d e count)
    unfolding brake
    brake-Neutral d e count = decided (ltb config.max_relaxed_actions_per_hour count)
      where
        back : Prog (Option ℕ)
        back = apply_restrictive_change h supervised "system:circuit-breaker" circuit_breaker 0

        decided : (b : Bool) → Asks Neutral (if b then (back >> ret d) else ret e)
        decided true =
            Asks-bind Neutral back (λ _. ret d)
              (apply_restrictive_change-Neutral supervised "system:circuit-breaker" circuit_breaker
                0)
              (λ _. tt)
        decided false = tt

    relax_with-Neutral :
        (d : HitlDecision) (r : Option HitlDecision) → Asks Neutral (relax_with h config d r)
    unfolding relax_with
    relax_with-Neutral d none = tt
    relax_with-Neutral d (some x) =
        (tt, elim [ ok count ↦ brake-Neutral d x (or_else count 0) | err _ ↦ tt ])

    relax-Neutral :
        (d : HitlDecision) (tool : Option ToolDefinition) → Asks Neutral (relax h config d tool)
    unfolding relax get_state
    relax-Neutral d tool = (
      tt,
      elim [ ok now ↦ (tt, elim [ ok row ↦ relax_with-Neutral d _ | err _ ↦ tt ]) | err _ ↦ tt ],
    )

    module _ (flags : FeatureFlagsConfig) where
      after_flags-Neutral :
          (name : String) (static flagged : HitlDecision)
          → Asks Neutral (after_flags h config flags name static flagged)
      unfolding after_flags
      after_flags-Neutral name static flagged = decided (is_level flagged.level static.level)
        where
          decided :
              (b : Bool)
              → Asks Neutral
                  (if b then relax h config flagged (get_tool_definition name) else ret flagged)
          decided true = relax-Neutral flagged (get_tool_definition name)
          decided false = tt

      resolve_declared-Neutral :
          (d : HitlDecision) (declared : Option HitlLevel)
          → Asks Neutral (resolve_declared d declared)
      unfolding resolve_declared
      resolve_declared-Neutral d none = tt
      resolve_declared-Neutral d (some declared) = (tt, elim [ ok _ ↦ tt | err _ ↦ tt ])

      classify_tool-Neutral :
          (name : String) (o : Option ToolDefinition) → Asks Neutral (classify_tool name o)
      unfolding classify_tool
      classify_tool-Neutral name none = tt
      classify_tool-Neutral name (some t) = (tt, elim [ ok _ ↦ tt | err _ ↦ tt ])

      -- The gate itself is neutral.
      pub decide-Neutral : (name : String) → Asks Neutral (decide h config flags name)
      unfolding decide classify_tool_call resolve_effective_level
      decide-Neutral name =
          Asks-bind Neutral (classify_tool name (get_tool_definition name)) _
            (classify_tool-Neutral name (get_tool_definition name))
            λ static.
              Asks-bind Neutral
                (resolve_declared static (declared_level static.tool_name flags.hitl_overrides)) _
                (resolve_declared-Neutral static _)
                (λ flagged. after_flags-Neutral name static flagged)
