-- ===== src/ModelProvider/Select.antt =====
-- src/model-provider/router.logic.ts: the pure choice between a profile's two models.
use jin_core.Base.{
  ℕ, Bool, true, false, Option, none, some, [], ◌∷◌, str_eq, ltb, Ratio, ratio_lt, if◌then◌else◌,
}
use jin_core.ModelProvider.Types.{
  TaskProfile, ModelProfileConfig, ModelsConfig, SelectModelHints, SelectedModel, Tier, primary,
  fallback, LatencyRequirement,
}
use jin_core.Runtime.Program.{Answer, ok, err, unknown_task_profile}

-- `profiles[taskProfile]`
unfoldable pub profile_of : TaskProfile → ModelsConfig → Option ModelProfileConfig
profile_of task [] = none
profile_of task ((name, p) ∷ r) = if str_eq name task then some p else profile_of task r

abbrev pub low_budget_remaining_threshold : Ratio
low_budget_remaining_threshold = record { num = 1; den = 5 }

-- the three reasons to leave the primary
abbrev pub does_not_fit : ModelProfileConfig → Option ℕ → Bool
does_not_fit p none = false
does_not_fit p (some tokens) = ltb p.max_tokens_input tokens

abbrev pub is_urgent : Option LatencyRequirement → Bool
is_urgent (some LatencyRequirement.low) = true
is_urgent _ = false

abbrev pub is_near_limit : Option Ratio → Bool
is_near_limit none = false
is_near_limit (some remaining) = ratio_lt remaining low_budget_remaining_threshold

unfoldable pub select_tier : ModelProfileConfig → SelectModelHints → Tier
select_tier p hints =
    let by_context = if does_not_fit p hints.estimated_input_tokens then fallback else primary in
    let by_latency = if is_urgent hints.latency_requirement then fallback else by_context in
    if is_near_limit hints.budget_remaining then fallback else by_latency

abbrev pub model_at : ModelProfileConfig → Tier → SelectedModel
model_at p primary = record { model_id = p.primary; tier = primary }
model_at p fallback = record { model_id = p.fallback; tier = fallback }

-- behind the lookup of the profile
unfoldable pub select_within :
    TaskProfile → Option ModelProfileConfig → SelectModelHints → Answer SelectedModel
unfolding select_tier
select_within task none hints = err (unknown_task_profile task)
select_within task (some p) hints = ok (model_at p (select_tier p hints))

unfoldable pub select_model : ModelsConfig → TaskProfile → SelectModelHints → Answer SelectedModel
unfolding select_within profile_of
select_model profiles task hints = select_within task (profile_of task profiles) hints
