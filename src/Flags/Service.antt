-- ===== src/Flags/Service.antt =====
-- src/feature-flags/feature-flags.service.ts: the overrides of a tool's level. The parsed YAML file is a
-- `FeatureFlagsConfig`, its records association lists in the order of `Object.entries`.
use jin_core.Base.{
  String, Bool, true, false, Option, none, some, List, [], ◌∷◌, str_eq, leb, if◌then◌else◌,
}
use jin_core.Hitl.Levels.{
  HitlLevel, HitlDecision, dual_confirm, confirm, notify, auto, confirm_twice, hitl_level_ordinal,
  is_level,
}
use jin_core.Hitl.Payload.{Payload, level_override}
use jin_core.Hitl.DualConfirm.{create_pending_approval}
use jin_core.Hitl.Executors.{Executor}
use jin_core.Tools.Definition.{ToolDefinition, IntegrationName, canvas, google, mcp, telegram}
use jin_core.Tools.Registry.{get_tool_definition}
use jin_core.Runtime.Program.{
  Prog, ret, throw, query, ◌>>=◌, ◌>>◌, clock, random_uuid, override_select, override_upsert,
  OverrideRow, database_error,
}
use jin_core.Runtime.World.{Host}
use Prim.Native.String.{◌++◌}

pub record Integrations : Type 0 where
  pub canvas_enabled : Bool
  pub google_enabled : Bool
  pub mcp_enabled : Bool
  pub telegram_enabled : Bool

pub record FeatureFlagsConfig : Type 0 where
  pub integrations : Integrations
  pub model_routing : List (String × Option String)  -- a profile's `primary`
  pub hitl_overrides : List (String × HitlLevel)

unfoldable pub is_integration_enabled : FeatureFlagsConfig → Option IntegrationName → Bool
is_integration_enabled c none = true
is_integration_enabled c (some canvas) = c.integrations.canvas_enabled
is_integration_enabled c (some google) = c.integrations.google_enabled
is_integration_enabled c (some mcp) = c.integrations.mcp_enabled
is_integration_enabled c (some telegram) = c.integrations.telegram_enabled

-- `this.config.hitlOverrides[name]`
unfoldable pub declared_level : String → List (String × HitlLevel) → Option HitlLevel
declared_level name [] = none
declared_level name ((tool, level) ∷ r) =
    if str_eq tool name then some level else declared_level name r

-- `this.config.modelRouting[taskProfile]?.primary`
unfoldable pub get_model_override : String → List (String × Option String) → Option String
get_model_override profile [] = none
get_model_override profile ((name, primary) ∷ r) =
    if str_eq name profile then primary else get_model_override profile r

-- the texts of the levels in the summary
abbrev pub hitl_level_text : HitlLevel → String
hitl_level_text auto = "auto"
hitl_level_text notify = "notify"
hitl_level_text confirm = "confirm"
hitl_level_text dual_confirm = "dual-confirm"

abbrev pub override_tool : String
override_tool = "featureFlagHitlOverride"

-- `INSERT ... ON CONFLICT DO UPDATE` of a level
unfoldable pub put_override : String → HitlLevel → String → Prog (Unit {0})
put_override tool level approver = do
  now ← query clock
  query (
      override_upsert
        (record { tool_name = tool; level = level; approver = approver; approved_at = now }))

abbrev pub is_in_force : HitlLevel → Option OverrideRow → Bool
is_in_force level none = false
is_in_force level (some row) = is_level row.level level

-- an override in force gives the decision its level, its number of approvals and its notice
abbrev pub overridden : HitlDecision → HitlLevel → HitlDecision
overridden d level = record d {
  level = level;
  approvals_required =
      if is_level level dual_confirm then 2 else if is_level level confirm then 1 else 0;
  notify_after_execution = is_level level notify;
}

-- `!row || row.level !== declaredOverride`
abbrev pub with_row : HitlDecision → HitlLevel → Option OverrideRow → HitlDecision
with_row d declared none = d
with_row d declared (some row) = if is_level row.level declared then overridden d row.level else d

unfoldable pub resolve_declared : HitlDecision → Option HitlLevel → Prog HitlDecision
resolve_declared d none = ret d
resolve_declared d (some declared) = do
  row ← query (override_select d.tool_name)
  ret (with_row d declared row)

unfoldable pub resolve_effective_level : FeatureFlagsConfig → HitlDecision → Prog HitlDecision
unfolding resolve_declared declared_level
resolve_effective_level c d = resolve_declared d (declared_level d.tool_name c.hitl_overrides)

-- `applyApprovedOverride`; another shape of payload has no name of a tool, which the table refuses
unfoldable pub apply_approved_override : Option Payload → Prog String
unfolding put_override
apply_approved_override (some (level_override tool level)) =
    put_override tool level "owner:dual-confirm" >> ret "{\"ok\":true}"
apply_approved_override _ = throw database_error

-- the executor that the constructor registers
abbrev pub level_override_executor : Executor
level_override_executor payload _ = apply_approved_override payload

module _ (h : Host) where
  -- the pending approval that lowers a tool's level
  unfoldable pub ask_lowering : String → HitlLevel → Prog (Unit {0})
  ask_lowering tool declared = do
    rid ← query random_uuid
    create_pending_approval (record {
      request_id = rid;
      tool_name = override_tool;
      level = confirm_twice;
      inputs_hash = h.hash_of (level_override tool declared);
      plan_summary = some (
          "Bajar hitlLevel de \""
          ++ tool
          ++ "\" a \""
          ++ hitl_level_text declared
          ++ "\" vía feature flag (config/feature-flags.yaml).");
      payload = some (level_override tool declared);
      actor = some "system:feature-flags";
      external_inputs_summary = none;
    })

  -- behind the lookup of the row in force
  unfoldable pub reconcile_level : String → HitlLevel → HitlLevel → Bool → Prog (Unit {0})
  unfolding ask_lowering put_override hitl_level_ordinal
  reconcile_level tool static declared true = ret tt
  reconcile_level tool static declared false =
      if leb (hitl_level_ordinal static) (hitl_level_ordinal declared)
      then put_override tool declared "system:configmap-reload"
      else ask_lowering tool declared

  -- behind the lookup of the tool
  unfoldable pub reconcile_tool : String → HitlLevel → Option ToolDefinition → Prog (Unit {0})
  unfolding reconcile_level
  reconcile_tool tool declared none = ret tt
  reconcile_tool tool declared (some t) = do
    existing ← query (override_select tool)
    reconcile_level tool t.hitl_level declared (is_in_force declared existing)

  unfoldable pub reconcile_hitl_override : String → HitlLevel → Prog (Unit {0})
  unfolding reconcile_tool get_tool_definition
  reconcile_hitl_override tool declared = reconcile_tool tool declared (get_tool_definition tool)

  -- the loop of `reload`
  unfoldable pub reconcile_all : List (String × HitlLevel) → Prog (Unit {0})
  unfolding reconcile_hitl_override
  reconcile_all [] = ret tt
  reconcile_all ((tool, level) ∷ r) = do reconcile_hitl_override tool level; reconcile_all r

  -- the new configuration is in force only when every override was reconciled
  unfoldable pub reload : FeatureFlagsConfig → Prog FeatureFlagsConfig
  unfolding reconcile_all
  reload next = do reconcile_all next.hitl_overrides; ret next
