-- ===== src/Budget/KillSwitch.antt =====
-- src/budget/kill-switch.service.ts: the switch that stops every model call until a human lifts it.
use jin_core.Base.{
  ℕ, String, Bool, true, false, Option, none, some, List, [], ◌∷◌, ◌+◌, ◌-◌, ◌*◌, Ratio, decimal,
  if◌then◌else◌,
}
use Prim.Native.String.{◌++◌}
use jin_core.Budget.Tables.{
  HourlyRow, KillSwitchRow, hourly_select, hourly_between, kill_switch_select, kill_switch_upsert,
}
use jin_core.Budget.Limits.{
  BudgetConfig, tokens_of, is_runaway_detected, current_hour_bucket, hour_ms,
}
use jin_core.Runtime.Program.{Prog, ret, query, ◌>>=◌, when, clock, usage}
use jin_core.Runtime.World.{Host}

abbrev pub is_on : Option KillSwitchRow → Bool
is_on none = false
is_on (some r) = r.active

unfoldable pub is_active : Prog Bool
is_active = do row ← query (usage kill_switch_select); ret (is_on row)

unfoldable pub unpause : Prog (Unit {0})
unpause =
    query
      (usage (kill_switch_upsert (record { active = false; activated_at = none; reason = none })))

pub record HourUsageDetail : Type 0 where
  pub current_hour_tokens : ℕ
  pub lookback_rows : List HourlyRow

abbrev pub hour_tokens : Option HourlyRow → ℕ
hour_tokens none = 0
hour_tokens (some r) = r.input_tokens + r.output_tokens

unfoldable pub get_hour_usage_detail : BudgetConfig → Prog HourUsageDetail
get_hour_usage_detail c = do
  now ← query clock
  let bucket = current_hour_bucket now
  current ← query (usage (hourly_select bucket))
  rows ← query (usage (hourly_between (bucket - c.runaway_lookback_hours * hour_ms) bucket))
  ret (record { current_hour_tokens = hour_tokens current; lookback_rows = rows })

module _ (h : Host) where
  unfoldable pub runaway_reason : BudgetConfig → ℕ → String
  runaway_reason c tokens =
      "Consumo de la hora actual ("
      ++ decimal tokens
      ++ " tokens) supera "
      ++ h.number_text c.runaway_multiplier
      ++ "x el promedio de las últimas "
      ++ decimal c.runaway_lookback_hours
      ++ "h."

  unfoldable pub activate : BudgetConfig → ℕ → Prog (Unit {0})
  unfolding runaway_reason
  activate c tokens = do
    now ← query clock
    query (
        usage (
          kill_switch_upsert (record {
            active = true;
            activated_at = some now;
            reason = some (runaway_reason c tokens);
          })))

  unfoldable pub check_hour : BudgetConfig → HourUsageDetail → Prog (Unit {0})
  unfolding activate is_runaway_detected
  check_hour c d =
      when (is_runaway_detected d.current_hour_tokens d.lookback_rows c)
        (activate c d.current_hour_tokens)

  -- already on: nothing to detect
  unfoldable pub check_if_off : BudgetConfig → Bool → Prog (Unit {0})
  unfolding get_hour_usage_detail check_hour
  check_if_off c on = if on then ret tt else (get_hour_usage_detail c >>= check_hour c)

  unfoldable pub check_runaway : BudgetConfig → Prog (Unit {0})
  unfolding is_active check_if_off
  check_runaway c = is_active >>= check_if_off c

pub record KillSwitchStatus : Type 0 where
  pub active : Bool
  pub activated_at : Option ℕ
  pub reason : Option String
  pub current_hour_tokens : ℕ
  pub avg_hourly_tokens : Ratio

abbrev pub average_of : List HourlyRow → BudgetConfig → Ratio
average_of [] c = record { num = 0; den = 1 }
average_of (r ∷ rs) c = record { num = tokens_of (r ∷ rs); den = c.runaway_lookback_hours }

abbrev pub status_of : BudgetConfig → Option KillSwitchRow → HourUsageDetail → KillSwitchStatus
status_of c none d = record {
  active = false;
  activated_at = none;
  reason = none;
  current_hour_tokens = d.current_hour_tokens;
  avg_hourly_tokens = average_of d.lookback_rows c;
}
status_of c (some r) d = record {
  active = r.active;
  activated_at = r.activated_at;
  reason = r.reason;
  current_hour_tokens = d.current_hour_tokens;
  avg_hourly_tokens = average_of d.lookback_rows c;
}

unfoldable pub get_status : BudgetConfig → Prog KillSwitchStatus
unfolding get_hour_usage_detail
get_status c = do
  row ← query (usage kill_switch_select)
  detail ← get_hour_usage_detail c
  ret (status_of c row detail)
