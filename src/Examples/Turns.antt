-- ===== src/Examples/Turns.antt =====
-- Examples of the agent's turn and of the calls of the models: one agent with one integration.
use jin_core.Base.{refl}
use jin_core.Agent.Cut.{plan_history_compaction-IsCut, IsCut}
use jin_core.Agent.Results.{handle_calls_answers, Matched}
use jin_core.Agent.Types.{text_delta}
use jin_core.Agent.Bounds.{run_turn_calls, most_calls}
use jin_core.ModelProvider.Commit.{complete_stream_commits, Verdict, unseen, commitment}
use jin_core.Agent.Compaction.{
  cut_at, turn_starts_from, find_turn_start_indices, plan_history_compaction,
}
use jin_core.Runtime.Monitor.{Obeys}
use jin_core.ModelProvider.Router.{context_of, complete_stream_with, Candidates}
use jin_core.Agent.Paused.{Halted, switch_first, unread, run_turn-Paused, nonce_drawn, Paused}
use jin_core.Budget.Tables.{KillSwitchRow}
use mathlib.Core.Path.{subst}
use jin_core.Runtime.Always.{Asks-settle, Asks}
use Prim.Native.Nat.{zero}
use jin_core.Hitl.Payload.{Payload}
use jin_core.Agent.Unattended.{Own, ActsAsNamed}
use jin_core.Agent.TurnGate.{run_turn_gate, Gated}
use jin_core.Runtime.World.{Outcome, run, World, Host}
use jin_core.Runtime.Program.{agent_progress, ok, Prog, ret}
use jin_core.Hitl.Executors.{integration, Registry, lookup_executor}
use jin_core.Flags.Service.{FeatureFlagsConfig}
use jin_core.Budget.Guarded.{messages_tokens, Guard}
use jin_core.ModelProvider.Types.{
  plain, assistant, user, Tier, ModelMessage, ModelCompletionRequest, Role, stop_for_tools,
  ModelCompletionResponse, ModelProfileConfig, ModelToolCall,
}
use jin_core.Examples.Data.{host, world, config, answer}
use jin_core.Base.{
  arith, ◌+◌, ◌≤◌, some, length, List, or_else, ap, eq_iff, inr, suc, inl, none, false, Option,
  Bool-cases, ◌∷◌, true, [], ◌≡◌, ℕ, str_eq, String,
}
use jin_core.Agent.Turn.{turn_of, handle_calls, first_state, Batch, run_turn, AgentTurnInput, Agent}

abbrev profile : ModelProfileConfig
profile = record {
  primary = "claude-sonnet-5";
  fallback = "gpt-5-mini";
  max_tokens_input = 8000;
  max_tokens_output = 1024;
}

abbrev pub guard : Guard
guard = record {
  router = record {
    profiles = ("chat_conversational", profile) ∷ ("history_compaction", profile) ∷ [];
    model_routing = [];
    preference = none;
  };
  budget = record {
    session_max_input_tokens = 100000;
    session_max_output_tokens = 20000;
    daily_max_tokens = 500000;
    daily_max_cost = 5000000;
    runaway_multiplier = record { num = 3; den = 1 };
    runaway_lookback_hours = 24;
    runaway_min_hourly_tokens = 50000;
  };
  prices =
      ("claude-sonnet-5", record { input_per_million = 3000000; output_per_million = 15000000 })
      ∷ [];
}

abbrev flags : FeatureFlagsConfig
flags = record {
  integrations = record {
    canvas_enabled = true;
    google_enabled = true;
    mcp_enabled = false;
    telegram_enabled = true;
  };
  model_routing = [];
  hitl_overrides = [];
}

abbrev mailbox : Registry
mailbox = ("readEmails", integration "readEmails") ∷ []

abbrev agent : Agent
agent = record {
  guard = guard;
  registry = mailbox;
  autonomy = config;
  flags = flags;
  config = record {
    max_iterations_per_turn = 4;
    max_consecutive_tool_failures = 3;
    max_history_tokens = 6000;
    preserve_last_turns = 2;
    max_output_tokens = 1024;
  };
  consolidate = λ _ _. ret tt;
}

abbrev read_call : ModelToolCall
read_call = record { id = "t1"; name = "readEmails"; input = "{}" }

-- the first answer asks for the mail
abbrev first_then_text : ℕ → String → ModelCompletionResponse
first_then_text zero model = record (answer model "") {
  tool_calls = read_call ∷ [];
  stop_reason = stop_for_tools;
}
first_then_text (suc _) model = answer model "You have no mail."

abbrev model_host : Host
model_host = record host { completion = λ n model _. first_then_text n model }

abbrev ask : AgentTurnInput
ask = record {
  session_id = "s1";
  objective = "Read my mail";
  history = [];
  allowed_tools = none;
  actor_label = none;
  live = false;
}

Own-at :
    (name tool : String)
    → str_eq tool name ≡ true
    → (payload : Option Payload) (rid : String) → Asks (Own name) (integration tool payload rid)
Own-at name tool same payload rid = ((eq_iff tool name).0 same, λ a. Asks-settle (Own name) a)

mailbox-ActsAsNamed : ActsAsNamed mailbox
unfolding lookup_executor
mailbox-ActsAsNamed name e found payload rid = elim (Bool-cases (str_eq "readEmails" name)) [
  | inl same ↦
      subst (λ (f : Option Payload → String → Prog String). Asks (Own name) (f payload rid))
        (ap (λ o. or_else o e) (rw same at found)) (Own-at name "readEmails" same payload rid)
  | inr other ↦ absurd (let none_is = rw other at found in cc)
]

run_turn_gate_example :
    Gated flags world (run model_host [] (run_turn model_host agent ask) world).1
run_turn_gate_example = run_turn_gate model_host agent [] ask world mailbox-ActsAsNamed (λ _ _. tt)

abbrev switched_on : KillSwitchRow
switched_on = record { active = true; activated_at = some 4000; reason = some "runaway" }

abbrev paused_world : World
paused_world = record world { usage = record world.usage { kill_switch = some switched_on } }

run_turn-Paused_example :
    Obeys switch_first unread (run_turn model_host agent ask) Halted
    × Paused
        (run model_host [] (run_turn model_host agent ask) paused_world)
        (nonce_drawn paused_world)
run_turn-Paused_example =
    run_turn-Paused model_host [] agent ask paused_world switched_on refl refl (omega arith)

-- the first call of a model fails
run_turn_calls_example :
    length
      (run model_host (Outcome.failed ∷ []) (run_turn model_host agent ask) world).1.model_calls
    ≤ length world.model_calls + most_calls 4 0
run_turn_calls_example =
    run_turn_calls model_host agent (Outcome.failed ∷ []) ask world 0 mailbox-ActsAsNamed
      (λ _ _ n room. omega arith)

abbrev request : ModelCompletionRequest
request = record {
  system_prompt = none;
  messages = (record { role = user; content = plain "Hola" }) ∷ [];
  max_output_tokens = 1024;
  temperature_percent = 70;
  tools = none;
  effort = none;
}

abbrev chosen : Candidates
chosen = record {
  selected = record { model_id = "claude-sonnet-5"; tier = Tier.primary };
  secondary_model_id = "gpt-5-mini";
  effort = none;
}

complete_stream_commits_example :
    Obeys commitment unseen
      (complete_stream_with "chat_conversational" request
        (λ d. agent_progress (text_delta 1 d))
        (ok chosen))
      (Verdict (context_of "chat_conversational" chosen))
complete_stream_commits_example =
    complete_stream_commits "chat_conversational" request (λ d. agent_progress (text_delta 1 d))
      chosen

abbrev batch : Batch
batch = record { state = first_state model_host agent ask; results = [] }

abbrev two_calls : List ModelToolCall
two_calls = read_call ∷ (record read_call { id = "t2"; name = "unknownTool" }) ∷ []

handle_calls_answers_example :
    (b' : Batch) × ((run model_host
        (Outcome.failed ∷ [])
        (handle_calls model_host agent (turn_of model_host agent ask "n") two_calls batch)
        world).0
      ≡ ok b')
    × Matched two_calls batch b'
handle_calls_answers_example =
    handle_calls_answers model_host agent (turn_of model_host agent ask "n") (Outcome.failed ∷ [])
      two_calls batch world

abbrev says : Role → String → ModelMessage
says who words = record { role = who; content = plain words }

abbrev long_history : List ModelMessage
long_history =
    says user "Read my mail"
    ∷ says assistant "None"
    ∷ says user "And my calendar"
    ∷ says assistant "A meeting at ten"
    ∷ []

plan_history_compaction-IsCut_example : IsCut long_history 1 (record {
  to_compact = says user "Read my mail" ∷ says assistant "None" ∷ [];
  to_preserve = says user "And my calendar" ∷ says assistant "A meeting at ten" ∷ [];
})
unfolding plan_history_compaction messages_tokens find_turn_start_indices turn_starts_from cut_at
plan_history_compaction-IsCut_example =
    plan_history_compaction-IsCut long_history 1 model_host 10 _ refl
