-- ===== src/Budget/Tables.antt =====
-- The tables of the budget (src/db/schema.ts) and the map of the sessions, with the statements of
-- src/budget/ on them. Money is in millionths of a dollar, the scale of the column; a day is numbered.
use jin_core.Base.{
  ℕ, String, Bool, Option, none, some, List, [], ◌∷◌, ◌+◌, ◌&&◌, ltb, leb, ◌==◌, str_eq, find,
  filter, if◌then◌else◌,
}

pub record DailyRow : Type 0 where
  pub day : ℕ
  pub input_tokens : ℕ
  pub output_tokens : ℕ
  pub cost : ℕ

pub record HourlyRow : Type 0 where
  pub hour_bucket : ℕ
  pub input_tokens : ℕ
  pub output_tokens : ℕ
  pub cost : ℕ

pub record KillSwitchRow : Type 0 where
  pub active : Bool
  pub activated_at : Option ℕ
  pub reason : Option String

pub record SessionUsage : Type 0 where
  pub input_tokens : ℕ
  pub output_tokens : ℕ

pub record Usage : Type 0 where
  pub daily : List DailyRow
  pub hourly : List HourlyRow
  pub kill_switch : Option KillSwitchRow
  pub sessions : List (String × SessionUsage)

-- what the service asks of them
pub data UsageOp : Type 0 where
  daily_select : ℕ → UsageOp
  daily_upsert : DailyRow → UsageOp
  hourly_select : ℕ → UsageOp
  hourly_between : ℕ → ℕ → UsageOp
  hourly_upsert : HourlyRow → UsageOp
  kill_switch_select : UsageOp
  kill_switch_upsert : KillSwitchRow → UsageOp
  session_get : String → UsageOp
  session_set : String → SessionUsage → UsageOp

abbrev pub UsageReply : UsageOp → Type 0
UsageReply (daily_select _) = Option DailyRow
UsageReply (daily_upsert _) = Unit
UsageReply (hourly_select _) = Option HourlyRow
UsageReply (hourly_between _ _) = List HourlyRow
UsageReply (hourly_upsert _) = Unit
UsageReply kill_switch_select = Option KillSwitchRow
UsageReply (kill_switch_upsert _) = Unit
UsageReply (session_get _) = Option SessionUsage
UsageReply (session_set _ _) = Unit

-- `integer` and `numeric(12, 6)`
abbrev pub integer_max : ℕ
integer_max = 2147483647

abbrev pub numeric_end : ℕ
numeric_end = 1000000000000

unfoldable pub fits_daily : DailyRow → Bool
fits_daily r =
    leb r.input_tokens integer_max && leb r.output_tokens integer_max && ltb r.cost numeric_end

unfoldable pub fits_hourly : HourlyRow → Bool
fits_hourly r =
    leb r.input_tokens integer_max && leb r.output_tokens integer_max && ltb r.cost numeric_end

-- `SET x = x + increment`
unfoldable pub add_daily : DailyRow → DailyRow → DailyRow
add_daily r x = record x {
  input_tokens = x.input_tokens + r.input_tokens;
  output_tokens = x.output_tokens + r.output_tokens;
  cost = x.cost + r.cost;
}

unfoldable pub add_hourly : HourlyRow → HourlyRow → HourlyRow
add_hourly r x = record x {
  input_tokens = x.input_tokens + r.input_tokens;
  output_tokens = x.output_tokens + r.output_tokens;
  cost = x.cost + r.cost;
}

-- `INSERT ... ON CONFLICT DO UPDATE`
unfoldable pub upsert_daily : DailyRow → List DailyRow → List DailyRow
unfolding add_daily
upsert_daily r [] = r ∷ []
upsert_daily r (x ∷ xs) = if x.day == r.day then add_daily r x ∷ xs else x ∷ upsert_daily r xs

unfoldable pub upsert_hourly : HourlyRow → List HourlyRow → List HourlyRow
unfolding add_hourly
upsert_hourly r [] = r ∷ []
upsert_hourly r (x ∷ xs) =
    if x.hour_bucket == r.hour_bucket then add_hourly r x ∷ xs else x ∷ upsert_hourly r xs

abbrev pub is_day : ℕ → DailyRow → Bool
is_day day r = r.day == day

abbrev pub is_hour : ℕ → HourlyRow → Bool
is_hour hour r = r.hour_bucket == hour

abbrev pub is_between : ℕ → ℕ → HourlyRow → Bool
is_between from to r = leb from r.hour_bucket && ltb r.hour_bucket to

unfoldable pub session_of : String → List (String × SessionUsage) → Option SessionUsage
session_of sid [] = none
session_of sid ((name, u) ∷ m) = if str_eq name sid then some u else session_of sid m

unfoldable pub put_session :
    String → SessionUsage → List (String × SessionUsage) → List (String × SessionUsage)
put_session sid u [] = (sid, u) ∷ []
put_session sid u ((name, v) ∷ m) =
    if str_eq name sid then (name, u) ∷ m else (name, v) ∷ put_session sid u m

-- a row that does not fit its columns refuses the statement
abbrev pub written_daily : Option DailyRow → Usage → List DailyRow → Option (Unit {0} × Usage)
written_daily none u rows = none
written_daily (some r) u rows = if fits_daily r then some (tt, record u { daily = rows }) else none

abbrev pub written_hourly : Option HourlyRow → Usage → List HourlyRow → Option (Unit {0} × Usage)
written_hourly none u rows = none
written_hourly (some r) u rows =
    if fits_hourly r then some (tt, record u { hourly = rows }) else none

-- the effect of a statement; `none` is the database's error
unfoldable pub usage_step : (o : UsageOp) → Usage → Option (UsageReply o × Usage)
unfolding upsert_daily upsert_hourly session_of put_session
usage_step (daily_select day) u = some (find (is_day day) u.daily, u)
usage_step (daily_upsert r) u =
    let rows = upsert_daily r u.daily in written_daily (find (is_day r.day) rows) u rows
usage_step (hourly_select hour) u = some (find (is_hour hour) u.hourly, u)
usage_step (hourly_between from to) u = some (filter (is_between from to) u.hourly, u)
usage_step (hourly_upsert r) u =
    let rows = upsert_hourly r u.hourly in written_hourly (find (is_hour r.hour_bucket) rows) u rows
usage_step kill_switch_select u = some (u.kill_switch, u)
usage_step (kill_switch_upsert r) u = some (tt, record u { kill_switch = some r })
usage_step (session_get sid) u = some (session_of sid u.sessions, u)
usage_step (session_set sid s) u = some (tt, record u { sessions = put_session sid s u.sessions })
