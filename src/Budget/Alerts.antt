-- ===== src/Budget/Alerts.antt =====
-- src/budget/budget-alert.monitor.ts: what the monitor remembers between its rounds, and the events of one.
use jin_core.Base.{
  ℕ, Bool, true, false, Option, none, some, ◌==◌, ◌&&◌, not, Ratio, ratio_ge, if◌then◌else◌,
}
use jin_core.Budget.Limits.{BudgetConfig, utc_date}
use jin_core.Budget.Service.{get_daily_usage_ratio}
use jin_core.Budget.KillSwitch.{KillSwitchStatus, get_status}
use jin_core.Runtime.Program.{
  Answer, ok, err, Prog, ret, query, ◌>>=◌, ◌>>◌, when, clock, emit, settled, kill_switch_activated,
  budget_threshold_crossed,
}
use jin_core.Runtime.World.{Host}

-- `notifiedThresholdsToday` holds at most the two thresholds
pub record Alerts : Type 0 where
  pub notified_warning : Bool
  pub notified_limit : Bool
  pub last_reset_date : Option ℕ
  pub last_kill_switch_active : Bool

-- 0.8 and 1
abbrev pub warning : Ratio
warning = record { num = 4; den = 5 }

abbrev pub limit : Ratio
limit = record { num = 1; den = 1 }

abbrev pub is_today : ℕ → Option ℕ → Bool
is_today today none = false
is_today today (some date) = date == today

unfoldable pub reset_if_new_day : ℕ → Alerts → Alerts
reset_if_new_day today s =
    if is_today today s.last_reset_date
    then s
    else record s { notified_warning = false; notified_limit = false; last_reset_date = some today }

-- one threshold: it is crossed and was not told yet
abbrev pub crosses : Ratio → Ratio → Bool → Bool
crosses ratio threshold notified = ratio_ge ratio threshold && not notified

unfoldable pub notify_thresholds : Alerts → Answer Ratio → Prog Alerts
notify_thresholds s (err _) = ret s
notify_thresholds s (ok ratio) = do
  when (crosses ratio warning s.notified_warning)
      (query (emit (budget_threshold_crossed ratio warning)))
  when (crosses ratio limit s.notified_limit) (query (emit (budget_threshold_crossed ratio limit)))
  ret (record s {
    notified_warning = if ratio_ge ratio warning then true else s.notified_warning;
    notified_limit = if ratio_ge ratio limit then true else s.notified_limit;
  })

module _ (h : Host) (c : BudgetConfig) where
  unfoldable pub check_daily_thresholds : Alerts → Prog Alerts
  unfolding reset_if_new_day notify_thresholds get_daily_usage_ratio
  check_daily_thresholds s = do
    now ← query clock
    ratio ← settled (get_daily_usage_ratio h c)
    notify_thresholds (reset_if_new_day (utc_date now) s) ratio

  -- a failure of the first part skips the second
  unfoldable pub after_status : Alerts → Answer KillSwitchStatus → Prog Alerts
  unfolding check_daily_thresholds
  after_status s (err _) = ret s
  after_status s (ok status) = do
    when (status.active && not s.last_kill_switch_active)
        (query (emit (kill_switch_activated status.reason status.activated_at)))
    check_daily_thresholds (record s { last_kill_switch_active = status.active })

  unfoldable pub check : Alerts → Prog Alerts
  unfolding after_status get_status
  check s = settled (get_status c) >>= after_status s
