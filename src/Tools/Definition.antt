-- ===== src/Tools/Definition.antt =====
-- The shape of a tool's entry in src/tools/registry.ts. `description` and `inputSchema` are prose and JSON
-- for the model and are left out.
use jin_core.Base.{String, Bool, Option}
use jin_core.Hitl.Levels.{HitlLevel}
use jin_core.Hitl.Timing.{TimeoutBehavior}

pub data IntegrationName : Type 0 where
  canvas google mcp telegram : IntegrationName

pub record ToolDefinition : Type 0 where
  pub name : String
  pub hitl_level : HitlLevel
  pub timeout_behavior : Option TimeoutBehavior
  pub integration : Option IntegrationName
  pub guarded_in_semi_auto : Bool
  pub human_decision : Bool
