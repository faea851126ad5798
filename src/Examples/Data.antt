-- ===== src/Examples/Data.antt =====
-- A server with a transparent digest, and the requests that wait in it.
use jin_core.Runtime.Program.{ok}
use jin_core.ModelProvider.Types.{end_turn, ModelCompletionResponse}
use jin_core.Flags.Service.{level_override_executor, override_tool}
use jin_core.Autonomy.Owner.{mode_change_executor}
use jin_core.Autonomy.Service.{mode_change_tool}
use jin_core.Base.{String, true, false, none, some, List, [], ◌∷◌, decimal}
use jin_core.Hitl.Executors.{Registry, integration}
use jin_core.Hitl.Payload.{arguments}
use jin_core.Hitl.Pending.{Row}
use jin_core.Audit.Chain.{Codec, JsonValue}
use jin_core.Autonomy.Logic.{AutonomyConfig}
use jin_core.Autonomy.Mode.{ModeRow}
use jin_core.Runtime.World.{Host, World}
use Prim.Native.String.{◌++◌}

abbrev value_text : JsonValue → String
value_text none = "null"
value_text (some s) = s

abbrev json_text : List (String × JsonValue) → String
json_text [] = ""
json_text ((key, value) ∷ rest) = key ++ ":" ++ value_text value ++ ";" ++ json_text rest

abbrev pub codec : Codec
codec = record { sha256 = λ s. s; stringify = json_text; iso = decimal }

abbrev pub answer : String → String → ModelCompletionResponse
answer model text = record {
  content = text;
  model_id = model;
  input_tokens = 100;
  output_tokens = 20;
  tool_calls = [];
  stop_reason = end_turn;
}

abbrev pub host : Host
host = record {
  codec = codec;
  hash_of = λ _. "hash";
  uuid = decimal;
  tool_result = λ tool _. tool;
  message_of = λ _. "failed";
  hash_of_mode = λ _ _. "hash";
  is_uuid = λ _. true;
  completion = λ n model _. answer model "";
  streaming = λ n model _. record { deltas = []; final = ok (answer model "") };
  json_of_blocks = λ _. "[]";
  json_of_tools = λ _. "[]";
  nonce = λ _. "0123456789abcdef";
  local_time = decimal;
  time_zone = "America/Lima";
  steps_of = λ s. some (s ∷ []);
  step_update_of = λ _. none;
  issue_of = λ s. s;
  number_text = λ _. "2";
  hours_west = 5;
}

abbrev pub mail : Row
mail = record {
  request_id = "r1";
  tool_name = "sendEmail";
  level = "confirm";
  inputs_hash = "i1";
  plan_summary = none;
  actor = some "agent";
  external_inputs_summary = none;
  payload = some (arguments "{}");
  created_at = 1000;
  first_approved_at = none;
  first_approver = none;
  available_at = none;
  escalated_at = none;
  executing_at = none;
  execution_error = none;
}

abbrev pub merge : Row
merge = record mail { request_id = "r2"; level = "dual-confirm" }

-- approved once, at 2000
abbrev pub merge_once : Row
merge_once = record merge {
  first_approved_at = some 2000;
  first_approver = some "owner";
  available_at = some 32000;
}

abbrev pub mode_row : ModeRow
mode_row = record {
  mode = "auto";
  expires_at = some 900000;
  set_by = "owner:dual-confirm";
  approval_request_id = none;
  changed_at = 1000;
  relaxed_count = 20;
  window_started_at = 1000;
}

abbrev pub world : World
world = record {
  now = 5000;
  uuids = 0;
  pending = mail ∷ merge ∷ [];
  audit = [];
  audit_ids = 0;
  chain_locked = false;
  mode_row = some mode_row;
  overrides = [];
  events = [];
  invoked = [];
  usage = record { daily = []; hourly = []; kill_switch = none; sessions = [] };
  model_calls = [];
  typed = [];
}

abbrev pub config : AutonomyConfig
config = record {
  semi_auto_limits = record { default_hours = 24; max_hours = 72 };
  auto_limits = record { default_hours = 4; max_hours = 24 };
  max_relaxed_actions_per_hour = 20;
}

abbrev pub tools : Registry
tools =
    ("sendEmail", integration "sendEmail")
    ∷ (mode_change_tool, mode_change_executor host config)
    ∷ (override_tool, level_override_executor)
    ∷ []
