-- ===== src/Policy/Decision.antt =====
-- src/hitl/classifier.ts and src/hitl-policy/hitl-policy.service.ts: the static level, the overrides, and
-- then the autonomy mode.
use jin_core.Base.{String, Option, none, some, if◌then◌else◌}
use jin_core.Hitl.Levels.{HitlDecision, notify, is_level, approvals_required_for}
use jin_core.Tools.Definition.{ToolDefinition}
use jin_core.Tools.Registry.{get_tool_definition}
use jin_core.Autonomy.Logic.{AutonomyConfig}
use jin_core.Autonomy.Service.{relax}
use jin_core.Flags.Service.{FeatureFlagsConfig, resolve_effective_level}
use jin_core.Runtime.Program.{Prog, ret, throw, query, ◌>>=◌, random_uuid, unknown_tool}
use jin_core.Runtime.World.{Host}

unfoldable pub classify_tool : String → Option ToolDefinition → Prog HitlDecision
classify_tool name none = throw (unknown_tool name)
classify_tool name (some t) = do
  rid ← query random_uuid
  ret (record {
    request_id = rid;
    tool_name = t.name;
    level = t.hitl_level;
    approvals_required = approvals_required_for t.hitl_level;
    notify_after_execution = is_level t.hitl_level notify;
    relaxed_by = none;
  })

unfoldable pub classify_tool_call : String → Prog HitlDecision
unfolding classify_tool get_tool_definition
classify_tool_call name = classify_tool name (get_tool_definition name)

module _ (h : Host) (config : AutonomyConfig) (flags : FeatureFlagsConfig) where
  -- an override that changed the level wins
  unfoldable pub after_flags : String → HitlDecision → HitlDecision → Prog HitlDecision
  unfolding relax get_tool_definition
  after_flags name static flagged =
      if is_level flagged.level static.level
      then relax h config flagged (get_tool_definition name)
      else ret flagged

  unfoldable pub decide : String → Prog HitlDecision
  unfolding classify_tool_call resolve_effective_level after_flags
  decide name = do
    static ← classify_tool_call name
    flagged ← resolve_effective_level flags static
    after_flags name static flagged
