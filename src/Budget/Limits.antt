-- ===== src/Budget/Limits.antt =====
-- src/budget/budget.logic.ts, kill-switch.logic.ts and budget-time.ts: the pure tests. The configuration is
-- the parsed config/budget.yaml, whose schema makes every number positive.
use jin_core.Base.{
  ℕ, Bool, false, List, [], ◌∷◌, ◌+◌, ◌-◌, ◌*◌, ◌/◌, ◌%◌, ◌||◌, ltb, ◌==◌, Ratio, ratio_max,
  if◌then◌else◌,
}
use jin_core.Budget.Tables.{SessionUsage, HourlyRow}

pub record BudgetConfig : Type 0 where
  pub session_max_input_tokens : ℕ
  pub session_max_output_tokens : ℕ
  pub daily_max_tokens : ℕ
  pub daily_max_cost : ℕ  -- `dailyMaxUsd`, in millionths
  pub runaway_multiplier : Ratio
  pub runaway_lookback_hours : ℕ
  pub runaway_min_hourly_tokens : ℕ

-- `DailyUsage`
pub record DailyUsage : Type 0 where
  pub input_tokens : ℕ
  pub output_tokens : ℕ
  pub cost : ℕ

unfoldable pub compute_daily_usage_ratio : DailyUsage → BudgetConfig → Ratio
compute_daily_usage_ratio daily c =
    ratio_max (record { num = daily.input_tokens + daily.output_tokens; den = c.daily_max_tokens })
      (record { num = daily.cost; den = c.daily_max_cost })

unfoldable pub would_exceed_session_budget : SessionUsage → ℕ → ℕ → BudgetConfig → Bool
would_exceed_session_budget session estimated_input_tokens max_output_tokens c =
    ltb c.session_max_input_tokens (session.input_tokens + estimated_input_tokens)
    || ltb c.session_max_output_tokens (session.output_tokens + max_output_tokens)

-- the `reduce` over the rows
unfoldable pub tokens_of : List HourlyRow → ℕ
tokens_of [] = 0
tokens_of (r ∷ rs) = r.input_tokens + r.output_tokens + tokens_of rs

-- past the empty history and the floor: `average <= 0`, and `current > average * multiplier` with both sides
-- multiplied by the hours and the multiplier's denominator
unfoldable pub exceeds_average : ℕ → ℕ → BudgetConfig → Bool
exceeds_average current total c =
    if total == 0
    then false
    else ltb (total * c.runaway_multiplier.num)
        (current * c.runaway_lookback_hours * c.runaway_multiplier.den)

unfoldable pub is_runaway_detected : ℕ → List HourlyRow → BudgetConfig → Bool
unfolding tokens_of exceeds_average
is_runaway_detected current [] c = false
is_runaway_detected current (r ∷ rs) c =
    if ltb current c.runaway_min_hourly_tokens
    then false
    else exceeds_average current (tokens_of (r ∷ rs)) c

abbrev pub hour_ms : ℕ
hour_ms = 3600000

abbrev pub day_ms : ℕ
day_ms = 86400000

-- the day of `todayLocalDate`, for a time zone of whole hours
unfoldable pub today_local_date : ℕ → ℕ → ℕ
today_local_date hours_west now = (now - hours_west * hour_ms) / day_ms

unfoldable pub current_hour_bucket : ℕ → ℕ
current_hour_bucket now = now - now % hour_ms

-- the day of `toISOString().slice(0, 10)`
unfoldable pub utc_date : ℕ → ℕ
utc_date now = now / day_ms
