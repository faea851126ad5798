-- ===== src/ModelProvider/Types.antt =====
-- src/model-provider/model-provider.types.ts: what is sent to a model and what comes back. The JSON of a
-- tool's input and of its schema is its text.
use jin_core.Base.{ℕ, String, Bool, Option, List, Ratio}

-- one of nine names, the keys of config/models.yaml
abbrev pub TaskProfile : Type 0
TaskProfile = String

pub record ModelProfileConfig : Type 0 where
  pub primary : String
  pub fallback : String
  pub max_tokens_input : ℕ
  pub max_tokens_output : ℕ

-- in the order of the file
abbrev pub ModelsConfig : Type 0
ModelsConfig = List (TaskProfile × ModelProfileConfig)

-- in millionths of a dollar for a million tokens
pub record ModelPrice : Type 0 where
  pub input_per_million : ℕ
  pub output_per_million : ℕ

abbrev pub ModelPrices : Type 0
ModelPrices = List (String × ModelPrice)

pub data LatencyRequirement : Type 0 where
  low normal : LatencyRequirement

pub record SelectModelHints : Type 0 where
  pub estimated_input_tokens : Option ℕ
  pub latency_requirement : Option LatencyRequirement
  pub budget_remaining : Option Ratio

pub data Tier : Type 0 where
  primary fallback : Tier

pub record SelectedModel : Type 0 where
  pub model_id : String
  pub tier : Tier

pub data ModelEffort : Type 0 where
  low medium high : ModelEffort

pub record ChatModelPreference : Type 0 where
  pub model_id : String
  pub effort : Option ModelEffort

pub record ModelToolDeclaration : Type 0 where
  pub name : String

pub record ModelToolCall : Type 0 where
  pub id : String
  pub name : String
  pub input : String

pub data ModelMessageContentBlock : Type 0 where
  text : String → ModelMessageContentBlock
  tool_use : ModelToolCall → ModelMessageContentBlock
  -- the call's id, its output and whether it is an error
  tool_result : String → String → Bool → ModelMessageContentBlock

pub data Role : Type 0 where
  user assistant : Role

pub data Content : Type 0 where
  plain : String → Content
  blocks : List ModelMessageContentBlock → Content

pub record ModelMessage : Type 0 where
  pub role : Role
  pub content : Content

pub record ModelCompletionRequest : Type 0 where
  pub system_prompt : Option String
  pub messages : List ModelMessage
  pub max_output_tokens : ℕ
  pub temperature_percent : ℕ
  pub tools : Option (List ModelToolDeclaration)
  pub effort : Option ModelEffort

pub data ModelStopReason : Type 0 where
  end_turn stop_for_tools max_tokens refusal : ModelStopReason

pub record ModelCompletionResponse : Type 0 where
  pub content : String
  pub model_id : String
  pub input_tokens : ℕ
  pub output_tokens : ℕ
  pub tool_calls : List ModelToolCall
  pub stop_reason : ModelStopReason

-- the new text, and all the text so far
pub record Delta : Type 0 where
  pub delta : String
  pub snapshot : String
