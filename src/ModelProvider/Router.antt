-- ===== src/ModelProvider/Router.antt =====
-- src/model-provider/router.service.ts: the two candidates of a call, their vendors, and the call.
use jin_core.Base.{
  String, Bool, true, false, Option, none, some, List, [], ◌∷◌, str_eq, if◌then◌else◌,
}
use text.Mathlib.Text.{starts_with}
use jin_core.ModelProvider.Types.{
  TaskProfile, ModelProfileConfig, ModelsConfig, SelectModelHints, SelectedModel, ModelEffort,
  ChatModelPreference, ModelCompletionRequest, ModelCompletionResponse, Delta,
}
use jin_core.ModelProvider.Select.{profile_of, select_within}
use jin_core.ModelProvider.Failover.{
  FailoverContext, Shown, execute_with_failover, execute_with_failover_stream,
}
use jin_core.Flags.Service.{get_model_override}
use jin_core.Runtime.Program.{
  Stream, Answer, ok, err, Event, Prog, ret, throw, unknown_task_profile, query, ◌>>=◌, ◌>>◌, emit,
  model_complete, model_stream, unknown_model_vendor, settled,
}

pub record Router : Type 0 where
  pub profiles : ModelsConfig
  pub model_routing : List (String × Option String)  -- of the feature flags
  pub preference : Option ChatModelPreference  -- `getPreference()`

pub data Vendor : Type 0 where
  anthropic google openai : Vendor

unfoldable pub provider_for : String → Answer Vendor
provider_for model =
    if starts_with model "claude-"
    then ok anthropic
    else if starts_with model "gemini-"
    then ok google
    else if starts_with model "gpt-"
    then ok openai
    else err (unknown_model_vendor model)

-- only the chat's own profile heeds the owner's choice
unfoldable pub chat_preference : Router → TaskProfile → Option ChatModelPreference
chat_preference r task = if str_eq task "chat_conversational" then r.preference else none

unfoldable pub model_override : Router → TaskProfile → Option ChatModelPreference → Option String
unfolding get_model_override
model_override r task (some preference) = some preference.model_id
model_override r task none = get_model_override task r.model_routing

-- an empty name is no override
abbrev pub with_primary : Option String → ModelProfileConfig → ModelProfileConfig
with_primary none p = p
with_primary (some model) p = if str_eq model "" then p else record p { primary = model }

-- `{ ...profiles, [taskProfile]: { ...profiles[taskProfile], primary } }` and its lookup
unfoldable pub effective_profile : Router → TaskProfile → Option ModelProfileConfig
unfolding chat_preference model_override profile_of
effective_profile r task = elim (profile_of task r.profiles) [
  | none ↦ none
  | some p ↦ some (with_primary (model_override r task (chat_preference r task)) p)
]

pub record Candidates : Type 0 where
  pub selected : SelectedModel
  pub secondary_model_id : String
  pub effort : Option ModelEffort

abbrev pub secondary_of : ModelProfileConfig → SelectedModel → String
secondary_of p s = if str_eq s.model_id p.primary then p.fallback else p.primary

abbrev pub effort_of : Option ChatModelPreference → Option ModelEffort
effort_of none = none
effort_of (some preference) = preference.effort

abbrev pub candidates_of :
    Router → TaskProfile → ModelProfileConfig → Answer SelectedModel → Answer Candidates
candidates_of r task p (err e) = err e
candidates_of r task p (ok s) = ok (record {
  selected = s;
  secondary_model_id = secondary_of p s;
  effort = effort_of (chat_preference r task);
})

unfoldable pub candidates_within :
    Router → TaskProfile → Option ModelProfileConfig → SelectModelHints → Answer Candidates
unfolding select_within chat_preference
candidates_within r task none hints = err (unknown_task_profile task)
candidates_within r task (some p) hints = candidates_of r task p (select_within task (some p) hints)

unfoldable pub resolve_candidates : Router → TaskProfile → SelectModelHints → Answer Candidates
unfolding candidates_within effective_profile
resolve_candidates r task hints = candidates_within r task (effective_profile r task) hints

unfoldable pub with_effort : ModelCompletionRequest → Option ModelEffort → ModelCompletionRequest
with_effort request none = request
with_effort request (some effort) = record request { effort = some effort }

-- `providerFor(model).complete(model, request)`
unfoldable pub call_vendor :
    Answer Vendor → String → ModelCompletionRequest → Prog ModelCompletionResponse
call_vendor (err e) model request = throw e
call_vendor (ok vendor) model request = query (model_complete model request)

abbrev pub call_model : String → ModelCompletionRequest → Prog ModelCompletionResponse
call_model model request = call_vendor (provider_for model) model request

-- the listener of the texts, as the event that it makes of each
abbrev pub Listener : Type 0
Listener = Delta → Event

unfoldable pub show_all : Listener → List Delta → Prog (Unit {0})
show_all on_delta [] = ret tt
show_all on_delta (d ∷ ds) = query (emit (on_delta d)) >> show_all on_delta ds

abbrev pub is_cons : {A : Type 0} → List A → Bool
is_cons [] = false
is_cons (_ ∷ _) = true

-- behind the answer of a vendor that streams
unfoldable pub after_stream : Listener → Answer Stream → Prog (Shown ModelCompletionResponse)
unfolding show_all
after_stream on_delta (err e) = ret (false, err e)
after_stream on_delta (ok s) = show_all on_delta s.deltas >> ret (is_cons s.deltas, s.final)

-- one that does not gives all its text at once
unfoldable pub after_whole :
    Listener → Answer ModelCompletionResponse → Prog (Shown ModelCompletionResponse)
after_whole on_delta (err e) = ret (false, err e)
after_whole on_delta (ok r) =
    query (emit (on_delta (record { delta = r.content; snapshot = r.content }))) >> ret (true, ok r)

-- `completeOrStream`: only Anthropic's client streams
unfoldable pub stream_vendor :
    Answer Vendor
    → String
    → ModelCompletionRequest
    → Listener
    → Prog (Shown ModelCompletionResponse)
unfolding after_stream after_whole
stream_vendor (err e) model request on_delta = ret (false, err e)
stream_vendor (ok anthropic) model request on_delta =
    settled (query (model_stream model request)) >>= after_stream on_delta
stream_vendor (ok vendor) model request on_delta =
    settled (query (model_complete model request)) >>= after_whole on_delta

abbrev pub complete_or_stream :
    String → ModelCompletionRequest → Listener → Prog (Shown ModelCompletionResponse)
complete_or_stream model request on_delta =
    stream_vendor (provider_for model) model request on_delta

abbrev pub context_of : TaskProfile → Candidates → FailoverContext
context_of task c = record {
  task_profile = task;
  primary_model_id = c.selected.model_id;
  fallback_model_id = c.secondary_model_id;
}

unfoldable pub complete_with :
    TaskProfile → ModelCompletionRequest → Answer Candidates → Prog ModelCompletionResponse
unfolding call_vendor with_effort
complete_with task request (err e) = throw e
complete_with task request (ok c) =
    let effective = with_effort request c.effort in
    execute_with_failover (context_of task c) (call_model c.selected.model_id effective)
      (call_model c.secondary_model_id effective)

unfoldable pub complete :
    Router → TaskProfile → ModelCompletionRequest → SelectModelHints → Prog ModelCompletionResponse
unfolding complete_with resolve_candidates
complete r task request hints = complete_with task request (resolve_candidates r task hints)

unfoldable pub complete_stream_with :
    TaskProfile
    → ModelCompletionRequest
    → Listener
    → Answer Candidates
    → Prog ModelCompletionResponse
unfolding stream_vendor with_effort
complete_stream_with task request on_delta (err e) = throw e
complete_stream_with task request on_delta (ok c) =
    let effective = with_effort request c.effort in
    execute_with_failover_stream (context_of task c)
      (complete_or_stream c.selected.model_id effective on_delta)
      (complete_or_stream c.secondary_model_id effective on_delta)

unfoldable pub complete_stream :
    Router
    → TaskProfile
    → ModelCompletionRequest
    → Listener
    → SelectModelHints
    → Prog ModelCompletionResponse
unfolding complete_stream_with resolve_candidates
complete_stream r task request on_delta hints =
    complete_stream_with task request on_delta (resolve_candidates r task hints)
