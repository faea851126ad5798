-- ===== src/Autonomy/Logic.antt =====
-- src/autonomy/autonomy.logic.ts and the values of src/autonomy/autonomy-config.schema.ts: the rule of
-- relaxation and the bound on the hours. Hours are whole: every caller checks `int`.
use jin_core.Base.{ℕ, min, max, Bool, true, false, Option, none, some, or_else, if◌then◌else◌, ◌&&◌}
use jin_core.Hitl.Levels.{HitlDecision, notify, confirm, is_level}
use jin_core.Tools.Definition.{ToolDefinition}
use jin_core.Autonomy.Mode.{AutonomyMode, auto, is_supervised, is_semi_auto, mode_text}
use Prim.Native.String.{◌++◌}

pub record ModeLimits : Type 0 where
  pub default_hours : ℕ
  pub max_hours : ℕ

pub record AutonomyConfig : Type 0 where
  pub semi_auto_limits : ModeLimits
  pub auto_limits : ModeLimits
  pub max_relaxed_actions_per_hour : ℕ

-- the two marks of a tool, `tool?.humanDecision === true` and `tool?.guardedInSemiAuto === true`
abbrev pub decides_for_human : Option ToolDefinition → Bool
decides_for_human none = false
decides_for_human (some t) = t.human_decision

abbrev pub is_guarded : Option ToolDefinition → Bool
is_guarded none = false
is_guarded (some t) = t.guarded_in_semi_auto

abbrev pub relaxed : HitlDecision → AutonomyMode → HitlDecision
relaxed d mode = record d {
  level = notify;
  approvals_required = 0;
  notify_after_execution = true;
  relaxed_by = some ("autonomy:" ++ mode_text mode);
}

-- The result is the relaxed decision, or nothing where the source gives the decision back.
unfoldable pub relax_decision :
    HitlDecision → AutonomyMode → Option ToolDefinition → Option HitlDecision
relax_decision d mode tool =
    if is_supervised mode
    then none
    else if is_level d.level confirm
    then (if decides_for_human tool
        then none
        else if is_semi_auto mode && is_guarded tool
        then none
        else some (relaxed d mode))
    else none

unfoldable pub clamp_hours : Option ℕ → ModeLimits → ℕ
clamp_hours requested d = min (max (or_else requested d.default_hours) 1) d.max_hours

-- `limitsFor`
unfoldable pub limits_for : AutonomyConfig → AutonomyMode → ModeLimits
limits_for c auto = c.auto_limits
limits_for c _ = c.semi_auto_limits
