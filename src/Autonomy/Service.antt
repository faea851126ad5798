-- ===== src/Autonomy/Service.antt =====
-- src/autonomy/autonomy.service.ts: the mode in force, its changes, its expiry and the emergency brake.
use jin_core.Base.{
  ℕ, ◌+◌, ◌*◌, String, Bool, true, false, Option, none, some, or_else, leb, ltb, if◌then◌else◌,
}
use jin_core.Hitl.Levels.{HitlDecision}
use jin_core.Tools.Definition.{ToolDefinition}
use jin_core.Audit.Chain
use jin_core.Audit.Service.{record_tool_call}
use jin_core.Autonomy.Counter.{hour_ms}
use jin_core.Autonomy.Mode.{
  AutonomyMode, supervised, is_supervised, mode_text, parse_mode, ModeRow, AutonomyState,
}
use jin_core.Autonomy.Logic.{AutonomyConfig, relax_decision}
use jin_core.Runtime.Program.{
  Prog, ret, query, ◌>>=◌, ◌>>◌, catch, clock, random_uuid, emit, mode_select, mode_update,
  mode_bump, ChangeReason, approved, downgrade, expired, circuit_breaker, mode_changed,
}
use jin_core.Runtime.World.{Host}
use Prim.Native.String.{◌++◌}

abbrev pub mode_change_tool : String
mode_change_tool = "autonomyModeChange"

abbrev pub safe_state : ℕ → String → AutonomyState
safe_state now set_by = record {
  mode = supervised;
  expires_at = none;
  set_by = set_by;
  changed_at = now;
}

-- the tests of `getState` on a row with a relaxed mode
abbrev pub unless_expired : ℕ → AutonomyMode → ModeRow → Option ℕ → AutonomyState
unless_expired now mode row none = safe_state now "system:expiry"
unless_expired now mode row (some t) =
    if leb t now then safe_state now "system:expiry" else record {
      mode = mode;
      expires_at = some t;
      set_by = row.set_by;
      changed_at = row.changed_at;
    }

abbrev pub state_of_mode : ℕ → ModeRow → Option AutonomyMode → AutonomyState
state_of_mode now row none = safe_state now row.set_by
state_of_mode now row (some supervised) = safe_state now row.set_by
state_of_mode now row (some m) = unless_expired now m row row.expires_at

unfoldable pub state_of : ℕ → Option ModeRow → AutonomyState
state_of now none = safe_state now "system:default"
state_of now (some row) = state_of_mode now row (parse_mode row.mode)

unfoldable pub get_state : ℕ → Prog AutonomyState
unfolding state_of
get_state now = do row ← query mode_select; ret (state_of now row)

pub record Change : Type 0 where
  pub mode : AutonomyMode
  pub hours : ℕ
  pub set_by : String
  pub reason : ChangeReason
  pub approval_request_id : Option String
  pub audit_before_apply : Bool

abbrev pub reason_text : ChangeReason → String
reason_text approved = "approved"
reason_text downgrade = "downgrade"
reason_text expired = "expired"
reason_text circuit_breaker = "circuit-breaker"

abbrev pub expiry : ℕ → Change → Option ℕ
expiry now c = if is_supervised c.mode then none else some (now + c.hours * hour_ms)

abbrev pub written_row : ℕ → Change → ModeRow
written_row now c = record {
  mode = mode_text c.mode;
  expires_at = expiry now c;
  set_by = c.set_by;
  approval_request_id = c.approval_request_id;
  changed_at = now;
  relaxed_count = 0;
  window_started_at = now;
}

-- `input.approvalRequestId ?? randomUUID()`
abbrev pub given_or_random : Option String → Prog String
given_or_random none = query random_uuid
given_or_random (some rid) = ret rid

module _ (h : Host) where
  abbrev until : Option ℕ → String
  until none = ""
  until (some t) = ", hasta " ++ h.codec.iso t

  -- the closure `audit` of `writeState`
  unfoldable pub audit_change : ℕ → AutonomyMode → Change → Prog (Unit {0})
  audit_change now previous c = do
    rid ← given_or_random c.approval_request_id
    record_tool_call rid c.set_by mode_change_tool (h.hash_of_mode c.mode c.hours)
        (some (
          "modo de autonomía "
          ++ mode_text previous
          ++ " -> "
          ++ mode_text c.mode
          ++ " ("
          ++ reason_text c.reason
          ++ ")"
          ++ until (expiry now c)))
        Chain.ApprovalStatus.auto none
    ret tt

  -- `audit().catch(...)`: the failure is logged
  unfoldable pub audit_guarded : ℕ → AutonomyMode → Change → Prog (Unit {0})
  unfolding audit_change
  audit_guarded now previous c = catch (audit_change now previous c) (λ _. ret tt)

  unfoldable pub announce : ℕ → AutonomyMode → Change → Prog (Option ℕ)
  announce now previous c = do
    query (emit (mode_changed c.mode previous c.reason (expiry now c) c.set_by))
    ret (expiry now c)

  unfoldable pub apply_change : Bool → ℕ → AutonomyMode → Change → Prog (Option ℕ)
  unfolding audit_change audit_guarded announce
  apply_change true now previous c = do
    audit_change now previous c
    query (mode_update (written_row now c))
    announce now previous c
  apply_change false now previous c = do
    query (mode_update (written_row now c))
    audit_guarded now previous c
    announce now previous c

  unfoldable pub write_state : Change → Prog (Option ℕ)
  unfolding apply_change get_state
  write_state c = do
    now ← query clock
    previous ← get_state now
    apply_change c.audit_before_apply now previous.mode c

  unfoldable pub apply_restrictive_change :
      AutonomyMode → String → ChangeReason → ℕ → Prog (Option ℕ)
  unfolding write_state
  apply_restrictive_change mode set_by reason hours = write_state (record {
    mode = mode;
    hours = hours;
    set_by = set_by;
    reason = reason;
    approval_request_id = none;
    audit_before_apply = false;
  })

  module _ (config : AutonomyConfig) where
    -- the emergency brake of `relax`, by the count
    unfoldable pub brake : HitlDecision → HitlDecision → ℕ → Prog HitlDecision
    unfolding apply_restrictive_change
    brake decision relaxed count =
        if ltb config.max_relaxed_actions_per_hour count
        then (apply_restrictive_change supervised "system:circuit-breaker" circuit_breaker 0
            >> ret decision)
        else ret relaxed

    unfoldable pub relax_with : HitlDecision → Option HitlDecision → Prog HitlDecision
    unfolding brake
    relax_with decision none = ret decision
    relax_with decision (some relaxed) = do
      count ← query mode_bump
      brake decision relaxed (or_else count 0)

    unfoldable pub relax : HitlDecision → Option ToolDefinition → Prog HitlDecision
    unfolding relax_with get_state relax_decision
    relax decision tool = do
      now ← query clock
      state ← get_state now
      relax_with decision (relax_decision decision state.mode tool)
