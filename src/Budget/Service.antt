-- ===== src/Budget/Service.antt =====
-- src/budget/budget.service.ts: the check before a call and the record behind it. The metrics are left out,
-- but not the question to the database that one of them makes.
use jin_core.Base.{
  ℕ, String, Bool, Option, none, some, ◌+◌, Ratio, ratio_ge, rest_of_one, or_else, if◌then◌else◌,
}
use jin_core.ModelProvider.Types.{ModelPrices}
use jin_core.Budget.Tables.{
  DailyRow, HourlyRow, SessionUsage, daily_select, daily_upsert, hourly_upsert, session_get,
  session_set,
}
use jin_core.Budget.Limits.{
  BudgetConfig, DailyUsage, compute_daily_usage_ratio, would_exceed_session_budget,
  today_local_date, current_hour_bucket,
}
use jin_core.Budget.Cost.{compute_cost_usd, to_column}
use jin_core.Runtime.Program.{
  Prog, ret, throw, query, ◌>>=◌, ◌>>◌, clock, usage, settle, session_budget_exceeded,
  daily_budget_exceeded,
}
use jin_core.Runtime.World.{Host}

pub record CheckBeforeCallInput : Type 0 where
  pub session_id : String
  pub estimated_input_tokens : ℕ
  pub max_output_tokens : ℕ

pub record RecordUsageInput : Type 0 where
  pub session_id : String
  pub model_id : String
  pub input_tokens : ℕ
  pub output_tokens : ℕ

abbrev pub no_session_usage : SessionUsage
no_session_usage = record { input_tokens = 0; output_tokens = 0 }

abbrev pub daily_usage_of : Option DailyRow → DailyUsage
daily_usage_of none = record { input_tokens = 0; output_tokens = 0; cost = 0 }
daily_usage_of (some r) = record {
  input_tokens = r.input_tokens;
  output_tokens = r.output_tokens;
  cost = r.cost;
}

unfoldable pub get_session_usage : String → Prog SessionUsage
get_session_usage sid = do
  session ← query (usage (session_get sid))
  ret (or_else session no_session_usage)

module _ (h : Host) where
  unfoldable pub get_daily_usage : Prog DailyUsage
  get_daily_usage = do
    now ← query clock
    row ← query (usage (daily_select (today_local_date h.hours_west now)))
    ret (daily_usage_of row)

  unfoldable pub get_daily_usage_ratio : BudgetConfig → Prog Ratio
  unfolding get_daily_usage
  get_daily_usage_ratio c = do daily ← get_daily_usage; ret (compute_daily_usage_ratio daily c)

  -- behind the session's test
  unfoldable pub check_day : BudgetConfig → Ratio → Prog Ratio
  check_day c used =
      if ratio_ge used (record { num = 1; den = 1 })
      then throw daily_budget_exceeded
      else ret (rest_of_one used)

  unfoldable pub check_session : BudgetConfig → CheckBeforeCallInput → Bool → Prog Ratio
  unfolding get_daily_usage_ratio check_day
  check_session c i exceeded =
      if exceeded
      then throw (session_budget_exceeded i.session_id)
      else (get_daily_usage_ratio c >>= check_day c)

  unfoldable pub check_before_call : BudgetConfig → CheckBeforeCallInput → Prog Ratio
  unfolding get_session_usage check_session would_exceed_session_budget
  check_before_call c i = do
    session ← get_session_usage i.session_id
    check_session c i
        (would_exceed_session_budget session i.estimated_input_tokens i.max_output_tokens c)

  abbrev pub daily_increment : RecordUsageInput → ℕ → ℕ → DailyRow
  daily_increment i cost now = record {
    day = today_local_date h.hours_west now;
    input_tokens = i.input_tokens;
    output_tokens = i.output_tokens;
    cost = to_column cost;
  }

  abbrev pub hourly_increment : RecordUsageInput → ℕ → ℕ → HourlyRow
  hourly_increment i cost now = record {
    hour_bucket = current_hour_bucket now;
    input_tokens = i.input_tokens;
    output_tokens = i.output_tokens;
    cost = to_column cost;
  }

  abbrev pub session_sum : SessionUsage → RecordUsageInput → SessionUsage
  session_sum s i = record {
    input_tokens = s.input_tokens + i.input_tokens;
    output_tokens = s.output_tokens + i.output_tokens;
  }

  -- behind the cost
  unfoldable pub record_cost : BudgetConfig → RecordUsageInput → ℕ → Prog (Unit {0})
  unfolding get_session_usage get_daily_usage_ratio
  record_cost c i cost = do
    session ← get_session_usage i.session_id
    query (usage (session_set i.session_id (session_sum session i)))
    today ← query clock
    query (usage (daily_upsert (daily_increment i cost today)))
    now ← query clock
    query (usage (hourly_upsert (hourly_increment i cost now)))
    get_daily_usage_ratio c
    ret tt

  unfoldable pub record_usage : BudgetConfig → ModelPrices → RecordUsageInput → Prog (Unit {0})
  unfolding compute_cost_usd record_cost
  record_usage c prices i =
      settle (compute_cost_usd prices i.model_id i.input_tokens i.output_tokens) >>= record_cost c i
