-- ===== src/Autonomy/Owner.antt =====
-- src/autonomy/autonomy.service.ts: what the owner asks for, the executor of an approved change, the
-- expiry of each minute and the description of the mode.
use jin_core.Base.{
  str_eq, ℕ, ◌-◌, ◌+◌, ◌/◌, String, Bool, true, false, Option, none, some, List, map, filter, leb,
  ltb, decimal, if◌then◌else◌, ◌&&◌,
}
use jin_core.Hitl.Levels.{confirm_twice}
use jin_core.Hitl.Payload.{Payload, mode_change}
use jin_core.Hitl.DualConfirm.{create_pending_approval}
use jin_core.Hitl.Executors.{Executor}
use jin_core.Tools.Definition.{ToolDefinition}
use jin_core.Tools.Registry.{list_registered_tools}
use jin_core.Autonomy.Mode.{
  AutonomyMode, supervised, is_supervised, is_semi_auto, mode_text, parse_mode,
  requires_dual_confirm, ModeRow,
}
use jin_core.Autonomy.Logic.{AutonomyConfig, clamp_hours, limits_for}
use jin_core.Autonomy.Service.{
  Change, get_state, write_state, apply_restrictive_change, mode_change_tool,
}
use jin_core.Runtime.Program.{
  Prog, ret, throw, query, ◌>>=◌, ◌>>◌, clock, random_uuid, mode_select, approved, downgrade,
  expired, zod_error,
}
use jin_core.Runtime.World.{Host}
use Prim.Native.String.{◌++◌}

pub data ModeChangeResult : Type 0 where
  applied : AutonomyMode → Option ℕ → ModeChangeResult
  pending_approval : String → AutonomyMode → ℕ → ModeChangeResult

pub record AutonomyDescription : Type 0 where
  pub mode : AutonomyMode
  pub expires_at : Option ℕ
  pub remaining_seconds : Option ℕ
  pub set_by : String
  pub limits : AutonomyConfig
  pub guarded_in_semi_auto : List String

-- the hours of a change that lowers no protection, and those of an approved one
abbrev pub hours_for : AutonomyConfig → AutonomyMode → Option ℕ → ℕ
hours_for config mode hours =
    if is_supervised mode then 0 else clamp_hours hours (limits_for config mode)

abbrev pub summary_of_request : AutonomyMode → ℕ → String
summary_of_request mode hours =
    "Cambiar el modo de autonomía a \""
    ++ mode_text mode
    ++ "\" durante "
    ++ decimal hours
    ++ " h (baja la protección del HITL). Se autoejecutan las acciones que hoy piden 1 aprobación"
    ++ (if is_semi_auto mode then ", salvo git/merges, correos y borrar eventos futuros" else "")
    ++ "; lo dual-confirm sigue igual."

-- what the executor of an approval writes
abbrev pub approved_change : AutonomyConfig → AutonomyMode → ℕ → String → Change
approved_change config mode hours rid = record {
  mode = mode;
  hours = hours_for config mode (some hours);
  set_by = "owner:dual-confirm";
  reason = approved;
  approval_request_id = some rid;
  audit_before_apply = true;
}

-- `Math.max(0, Math.round((expiresAt - now) / 1000))`, on whole milliseconds
abbrev pub remaining : ℕ → Option ℕ → Option ℕ
remaining now none = none
remaining now (some t) = some ((t - now + 500) / 1000)

-- the answer to a stored mode that may have run out
abbrev pub has_run_out : ℕ → Option ℕ → Bool
has_run_out now none = true
has_run_out now (some t) = leb t now

abbrev pub marked : ToolDefinition → Bool
marked t = t.guarded_in_semi_auto

unfoldable pub describe : AutonomyConfig → ℕ → Prog AutonomyDescription
unfolding get_state
describe config now = do
  state ← get_state now
  ret (record {
    mode = state.mode;
    expires_at = state.expires_at;
    remaining_seconds = remaining now state.expires_at;
    set_by = state.set_by;
    limits = config;
    guarded_in_semi_auto =
        map (λ (t : ToolDefinition). t.name) (filter marked list_registered_tools);
  })

module _ (h : Host) where
  -- the pending approval that lowers the protection
  unfoldable pub ask_approval : AutonomyMode → ℕ → String → Prog ModeChangeResult
  ask_approval mode hours requested_by = do
    rid ← query random_uuid
    create_pending_approval (record {
      request_id = rid;
      tool_name = mode_change_tool;
      level = confirm_twice;
      inputs_hash = h.hash_of (mode_change (mode_text mode) hours rid);
      plan_summary = some (summary_of_request mode hours);
      payload = some (mode_change (mode_text mode) hours rid);
      actor = some requested_by;
      external_inputs_summary = none;
    })
    ret (pending_approval rid mode hours)

  unfoldable pub apply_now : AutonomyMode → ℕ → String → Prog ModeChangeResult
  apply_now mode hours requested_by = do
    expires_at ← apply_restrictive_change h mode requested_by downgrade hours
    ret (applied mode expires_at)

  -- `!row || row.mode === 'supervised'`, `row.expiresAt > now`
  unfoldable pub expire_row : ℕ → Option ModeRow → Prog (Unit {0})
  expire_row now none = ret tt
  expire_row now (some row) =
      if str_eq row.mode "supervised"
      then ret tt
      else if has_run_out now row.expires_at
      then (apply_restrictive_change h supervised "system:expiry" expired 0 >> ret tt)
      else ret tt

  unfoldable pub expire_if_needed : ℕ → Prog (Unit {0})
  unfolding expire_row
  expire_if_needed now = do row ← query mode_select; expire_row now row

  module _ (config : AutonomyConfig) where
    unfoldable pub request_by : Bool → AutonomyMode → Option ℕ → String → Prog ModeChangeResult
    unfolding ask_approval apply_now
    request_by true mode hours requested_by =
        ask_approval mode (clamp_hours hours (limits_for config mode)) requested_by
    request_by false mode hours requested_by =
        apply_now mode (hours_for config mode hours) requested_by

    unfoldable pub request_mode_change : AutonomyMode → Option ℕ → String → Prog ModeChangeResult
    unfolding request_by get_state
    request_mode_change mode hours requested_by = do
      now ← query clock
      current ← get_state now
      request_by (requires_dual_confirm current.mode mode) mode hours requested_by

    -- behind the parse of the payload
    unfoldable pub apply_parsed : Option AutonomyMode → ℕ → String → Prog String
    apply_parsed none hours rid = throw zod_error
    apply_parsed (some mode) hours rid =
        if ltb 0 hours && h.is_uuid rid
        then (write_state h (approved_change config mode hours rid) >> ret "{\"ok\":true}")
        else throw zod_error

    unfoldable pub apply_approved_change : Option Payload → Prog String
    unfolding apply_parsed
    apply_approved_change (some (mode_change mode hours rid)) =
        apply_parsed (parse_mode mode) hours rid
    apply_approved_change _ = throw zod_error

    -- the executor that `onModuleInit` registers
    abbrev pub mode_change_executor : Executor
    mode_change_executor payload _ = apply_approved_change payload
