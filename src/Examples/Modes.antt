-- ===== src/Examples/Modes.antt =====
-- Examples of the modes: the theorems of Autonomy, Flags, Policy and the timeouts at concrete states.
use jin_core.Runtime.Program.{ok, ChangeReason}
use jin_core.Runtime.World.{respond, perform}
use jin_core.Examples.Data.{host, world, config, mode_row}
use jin_core.Autonomy.Mode.{auto, semi_auto, supervised, parse_mode, ModeRow}
use jin_core.Autonomy.Logic.{relax_decision, relaxed}
use jin_core.Autonomy.Service.{Change, state_of, written_row, relax, apply_restrictive_change}
use jin_core.Autonomy.Owner.{request_mode_change, apply_approved_change}
use jin_core.Autonomy.Counter.{hour_ms}
use jin_core.Autonomy.Rules.{relax_decision-MayRelax, MayRelax, state_of_fresh, written_mode_lasts}
use jin_core.Autonomy.Changes.{restrictive_change_applies}
use jin_core.Autonomy.Approved.{approved_change_on_record}
use jin_core.Autonomy.Requests.{auto_again, lower_protection_waits, brake_trips}
use jin_core.Flags.Service.{FeatureFlagsConfig, reload}
use jin_core.Flags.Floor.{reload_keeps_floor, NotLower}
use jin_core.Policy.Decision.{decide}
use jin_core.Policy.Floor.{Floor, decide-Floor}
use jin_core.Hitl.Levels.{HitlDecision, confirm, notify}
use jin_core.Hitl.Payload.{mode_change}
use jin_core.Hitl.Timing.{
  TimeoutDecisionInput, decide_timeout_outcome, decide_timeout_outcome-terminal, is_terminal,
  escalate, approval_ttl_ms,
}
use jin_core.Tools.Personal.{canvas_schedule_study_block, send_email}
use jin_core.Tools.Registry.{get_tool_definition}
use jin_core.Runtime.Program.{downgrade}
use jin_core.Runtime.World.{Outcome, run, done}
use jin_core.Base.{
  ◌≡◌, ◌≤◌, ◌<◌, ◌+◌, ◌*◌, ◌⊎◌, ◌↔◌, refl, ℕ, true, false, none, some, [], ◌∷◌, length, All, arith,
}

-- the file raises a tool and lowers another
abbrev flags : FeatureFlagsConfig
flags = record {
  integrations = record {
    canvas_enabled = true;
    google_enabled = true;
    mcp_enabled = true;
    telegram_enabled = true;
  };
  model_routing = [];
  hitl_overrides = ("readEmails", confirm) ∷ ("sendEmail", notify) ∷ [];
}

abbrev decision : HitlDecision
decision = record {
  request_id = "r9";
  tool_name = "canvasScheduleStudyBlock";
  level = confirm;
  approvals_required = 1;
  notify_after_execution = false;
  relaxed_by = none;
}

abbrev change : Change
change = record {
  mode = semi_auto;
  hours = 2;
  set_by = "owner:dual-confirm";
  reason = ChangeReason.approved;
  approval_request_id = some "r9";
  audit_before_apply = true;
}

abbrev late : TimeoutDecisionInput
late = record {
  created_at = 1000;
  timeout_behavior = escalate;
  already_escalated = false;
  now = 90000000;
}

lower_protection_waits_example :
    (run host [] (request_mode_change host config auto (some 8) "owner") world).1.mode_row
    ≡ some mode_row
unfolding state_of parse_mode
lower_protection_waits_example =
    lower_protection_waits host config auto (some 8) "owner" [] world auto_again

approved_change_on_record_example :
    ((run host []
        (apply_approved_change host config (some (mode_change "auto" 8 "r9")))
        world).1.mode_row
      ≡ some mode_row)
    ⊎ (0
        < length
            (run host []
              (apply_approved_change host config (some (mode_change "auto" 8 "r9")))
              world).1.audit)
approved_change_on_record_example =
    approved_change_on_record host config [] (some (mode_change "auto" 8 "r9")) world

restrictive_change_applies_example :
    (run host
      (done ∷ done ∷ done ∷ Outcome.failed ∷ [])
      (apply_restrictive_change host supervised "owner" downgrade 0)
      world).1.mode_row
    ≡ some (
        written_row 5000 (record {
          mode = supervised;
          hours = 0;
          set_by = "owner";
          reason = downgrade;
          approval_request_id = none;
          audit_before_apply = false;
        }))
restrictive_change_applies_example =
    restrictive_change_applies host (Outcome.failed ∷ []) supervised "owner" downgrade 0 world
      mode_row refl

brake_trips_example :
    let e =
      run host
        (done ∷ done ∷ done ∷ done ∷ done ∷ done ∷ [])
        (relax host config decision (some canvas_schedule_study_block))
        world in
    (e.0 ≡ ok decision)
    × (e.1.mode_row
        ≡ some (record {
          mode = "supervised";
          expires_at = none;
          set_by = "system:circuit-breaker";
          approval_request_id = none;
          changed_at = 5000;
          relaxed_count = 0;
          window_started_at = 5000;
        }))
unfolding state_of parse_mode
brake_trips_example =
    brake_trips host config decision (some canvas_schedule_study_block) [] world mode_row refl
      (refl, refl) (omega arith) (omega arith)

reload_keeps_floor_example : All NotLower (run host [] (reload host flags) world).1.overrides
reload_keeps_floor_example = reload_keeps_floor host flags [] world tt

decide-Floor_example : Floor flags send_email (record {
  request_id = "0";
  tool_name = "sendEmail";
  level = confirm;
  approvals_required = 1;
  notify_after_execution = false;
  relaxed_by = none;
})
unfolding get_tool_definition run decide respond perform
decide-Floor_example =
    decide-Floor host config flags "sendEmail" send_email refl [] (record world { mode_row = none })
      _ refl

relax_decision-MayRelax_example :
    (relax_decision decision semi_auto (some send_email) ≡ some (relaxed decision semi_auto))
    ↔ MayRelax decision semi_auto (some send_email)
relax_decision-MayRelax_example = relax_decision-MayRelax decision semi_auto (some send_email)

state_of_fresh_example :
    (row : ModeRow) × (t : ℕ) × (some mode_row ≡ some row)
    × (row.expires_at ≡ some t)
    × (5000 < t)
    × (parse_mode row.mode ≡ some (state_of 5000 (some mode_row)).mode)
unfolding state_of parse_mode
state_of_fresh_example = state_of_fresh 5000 (some mode_row) (λ e. absurd (cc))

written_mode_lasts_example :
    (6000 < 1000 + 2 * hour_ms → (state_of 6000 (some (written_row 1000 change))).mode ≡ semi_auto)
    × (1000 + 2 * hour_ms ≤ 6000
        → (state_of 6000 (some (written_row 1000 change))).mode ≡ supervised)
written_mode_lasts_example = written_mode_lasts change 1000 6000

decide_timeout_outcome-terminal_example :
    (is_terminal (decide_timeout_outcome late) ≡ true) ↔ (1000 + approval_ttl_ms ≤ 90000000)
decide_timeout_outcome-terminal_example = decide_timeout_outcome-terminal late
