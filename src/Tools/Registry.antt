-- ===== src/Tools/Registry.antt =====
-- src/tools/registry.ts: the registry in its order, and the lookup by name.
use jin_core.Base.{String, Bool, Option, List, [], ◌∷◌, str_eq, find}
use jin_core.Tools.Definition.{ToolDefinition}
use jin_core.Tools.Personal.{
  read_emails, create_calendar_event, send_email, canvas_list_assignments,
  canvas_get_course_content, canvas_schedule_study_block, list_calendar_events,
  update_calendar_event, delete_calendar_event_past, delete_calendar_event_future,
  index_email_to_corpus, search_corpus, query_external_docs,
}
use jin_core.Tools.Work.{
  run_code, resolve_agent_conflict, merge_agent_branch, start_preview_service,
  extend_preview_service, save_demo_to_github, list_github_demos, stop_preview_service,
  list_preview_services,
}

abbrev pub list_registered_tools : List ToolDefinition
list_registered_tools =
    read_emails ∷ create_calendar_event ∷ send_email ∷ canvas_list_assignments
    ∷ canvas_get_course_content ∷ canvas_schedule_study_block ∷ list_calendar_events
    ∷ update_calendar_event ∷ delete_calendar_event_past ∷ delete_calendar_event_future ∷ run_code
    ∷ resolve_agent_conflict ∷ merge_agent_branch ∷ start_preview_service ∷ extend_preview_service
    ∷ save_demo_to_github ∷ list_github_demos ∷ stop_preview_service ∷ list_preview_services
    ∷ index_email_to_corpus ∷ search_corpus ∷ query_external_docs ∷ []

abbrev pub is_named : String → ToolDefinition → Bool
is_named name t = str_eq t.name name

unfoldable pub get_tool_definition : String → Option ToolDefinition
get_tool_definition name = find (is_named name) list_registered_tools
