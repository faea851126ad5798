-- ===== src/Tools/Personal.antt =====
-- src/tools/registry.ts: the tools on mail, calendar, courses, the corpus and outside documentation.
use jin_core.Base.{true, false, none, some}
use jin_core.Hitl.Levels.{auto, notify, confirm}
use jin_core.Hitl.Timing.{discard_silently}
use jin_core.Tools.Definition.{ToolDefinition, canvas, google}

abbrev pub read_emails : ToolDefinition
read_emails = record {
  name = "readEmails";
  hitl_level = auto;
  timeout_behavior = none;
  integration = some google;
  guarded_in_semi_auto = false;
  human_decision = false;
}

abbrev pub create_calendar_event : ToolDefinition
create_calendar_event = record {
  name = "createCalendarEvent";
  hitl_level = notify;
  timeout_behavior = none;
  integration = some google;
  guarded_in_semi_auto = false;
  human_decision = false;
}

abbrev pub send_email : ToolDefinition
send_email = record {
  name = "sendEmail";
  hitl_level = confirm;
  timeout_behavior = some discard_silently;
  integration = some google;
  guarded_in_semi_auto = true;
  human_decision = false;
}

abbrev pub canvas_list_assignments : ToolDefinition
canvas_list_assignments = record {
  name = "canvasListAssignments";
  hitl_level = auto;
  timeout_behavior = none;
  integration = some canvas;
  guarded_in_semi_auto = false;
  human_decision = false;
}

abbrev pub canvas_get_course_content : ToolDefinition
canvas_get_course_content = record {
  name = "canvasGetCourseContent";
  hitl_level = auto;
  timeout_behavior = none;
  integration = some canvas;
  guarded_in_semi_auto = false;
  human_decision = false;
}

abbrev pub canvas_schedule_study_block : ToolDefinition
canvas_schedule_study_block = record {
  name = "canvasScheduleStudyBlock";
  hitl_level = notify;
  timeout_behavior = none;
  integration = some canvas;
  guarded_in_semi_auto = false;
  human_decision = false;
}

abbrev pub list_calendar_events : ToolDefinition
list_calendar_events = record {
  name = "listCalendarEvents";
  hitl_level = auto;
  timeout_behavior = none;
  integration = some google;
  guarded_in_semi_auto = false;
  human_decision = false;
}

abbrev pub update_calendar_event : ToolDefinition
update_calendar_event = record {
  name = "updateCalendarEvent";
  hitl_level = notify;
  timeout_behavior = none;
  integration = some google;
  guarded_in_semi_auto = false;
  human_decision = false;
}

abbrev pub delete_calendar_event_past : ToolDefinition
delete_calendar_event_past = record {
  name = "deleteCalendarEventPast";
  hitl_level = notify;
  timeout_behavior = none;
  integration = some google;
  guarded_in_semi_auto = false;
  human_decision = false;
}

abbrev pub delete_calendar_event_future : ToolDefinition
delete_calendar_event_future = record {
  name = "deleteCalendarEventFuture";
  hitl_level = confirm;
  timeout_behavior = some discard_silently;
  integration = some google;
  guarded_in_semi_auto = true;
  human_decision = false;
}

abbrev pub index_email_to_corpus : ToolDefinition
index_email_to_corpus = record {
  name = "indexEmailToCorpus";
  hitl_level = auto;
  timeout_behavior = none;
  integration = some google;
  guarded_in_semi_auto = false;
  human_decision = false;
}

abbrev pub search_corpus : ToolDefinition
search_corpus = record {
  name = "searchCorpus";
  hitl_level = auto;
  timeout_behavior = none;
  integration = none;
  guarded_in_semi_auto = false;
  human_decision = false;
}

abbrev pub query_external_docs : ToolDefinition
query_external_docs = record {
  name = "queryExternalDocs";
  hitl_level = auto;
  timeout_behavior = none;
  integration = none;
  guarded_in_semi_auto = false;
  human_decision = false;
}
