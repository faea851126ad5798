-- ===== src/Tools/Work.antt =====
-- src/tools/registry.ts: the tools on code, agents' branches, previews and demos.
use jin_core.Base.{true, false, none, some}
use jin_core.Hitl.Levels.{auto, notify, confirm}
use jin_core.Hitl.Timing.{discard_silently}
use jin_core.Tools.Definition.{ToolDefinition}

abbrev pub run_code : ToolDefinition
run_code = record {
  name = "runCode";
  hitl_level = confirm;
  timeout_behavior = some discard_silently;
  integration = none;
  guarded_in_semi_auto = false;
  human_decision = false;
}

abbrev pub resolve_agent_conflict : ToolDefinition
resolve_agent_conflict = record {
  name = "resolveAgentConflict";
  hitl_level = confirm;
  timeout_behavior = some discard_silently;
  integration = none;
  guarded_in_semi_auto = false;
  human_decision = true;
}

abbrev pub merge_agent_branch : ToolDefinition
merge_agent_branch = record {
  name = "mergeAgentBranch";
  hitl_level = confirm;
  timeout_behavior = some discard_silently;
  integration = none;
  guarded_in_semi_auto = true;
  human_decision = false;
}

abbrev pub start_preview_service : ToolDefinition
start_preview_service = record {
  name = "startPreviewService";
  hitl_level = confirm;
  timeout_behavior = some discard_silently;
  integration = none;
  guarded_in_semi_auto = false;
  human_decision = false;
}

abbrev pub extend_preview_service : ToolDefinition
extend_preview_service = record {
  name = "extendPreviewService";
  hitl_level = confirm;
  timeout_behavior = none;
  integration = none;
  guarded_in_semi_auto = false;
  human_decision = false;
}

abbrev pub save_demo_to_github : ToolDefinition
save_demo_to_github = record {
  name = "saveDemoToGithub";
  hitl_level = confirm;
  timeout_behavior = some discard_silently;
  integration = none;
  guarded_in_semi_auto = false;
  human_decision = true;
}

abbrev pub list_github_demos : ToolDefinition
list_github_demos = record {
  name = "listGithubDemos";
  hitl_level = auto;
  timeout_behavior = none;
  integration = none;
  guarded_in_semi_auto = false;
  human_decision = false;
}

abbrev pub stop_preview_service : ToolDefinition
stop_preview_service = record {
  name = "stopPreviewService";
  hitl_level = notify;
  timeout_behavior = none;
  integration = none;
  guarded_in_semi_auto = false;
  human_decision = false;
}

abbrev pub list_preview_services : ToolDefinition
list_preview_services = record {
  name = "listPreviewServices";
  hitl_level = auto;
  timeout_behavior = none;
  integration = none;
  guarded_in_semi_auto = false;
  human_decision = false;
}
