-- ===== src/Budget/Represents.antt =====
-- The rows of src/budget/budget.service.ts and the map of its sessions, against the list of the payments.
use jin_core.Budget.Service.{no_session_usage, daily_usage_of}
use jin_core.Budget.Limits.{DailyUsage}
use jin_core.Budget.Ledger.{
  fits, of_session, of_day, add_usage, of_hour, nothing_used, Ledger, Payment,
}
use jin_core.Budget.Tables.{
  daily_upsert, hourly_upsert, fits_daily, fits_hourly, usage_step, is_day, is_hour, add_daily,
  add_hourly, upsert_daily, upsert_hourly, put_session, SessionUsage, DailyRow, HourlyRow,
  session_of, Usage,
}
use jin_core.Base.{
  sym, true, inr, ap, ◌∙◌, [], eq_iff, inl, arith, Bool-cases, ◌==◌, str_eq, ◌∷◌, if◌then◌else◌,
  none, List, ◌≡◌, String, or_else, find, some, ℕ, Option, refl,
}

merged_daily : DailyRow → Option DailyRow → DailyRow
merged_daily r none = r
merged_daily r (some x) = add_daily r x

merged_hourly : HourlyRow → Option HourlyRow → HourlyRow
merged_hourly r none = r
merged_hourly r (some x) = add_hourly r x

-- a lookup behind an upsert
module _ (r : DailyRow) (day : ℕ) where
  find-upsert_daily :
      (rows : List DailyRow)
      → find (is_day day) (upsert_daily r rows) ≡ (
          if r.day == day
          then some (merged_daily r (find (is_day day) rows))
          else find (is_day day) rows)
  unfolding upsert_daily merged_daily add_daily
  find-upsert_daily [] = ground arith
  find-upsert_daily (x ∷ xs) = ground (arith, find-upsert_daily xs)

module _ (r : HourlyRow) (hour : ℕ) where
  find-upsert_hourly :
      (rows : List HourlyRow)
      → find (is_hour hour) (upsert_hourly r rows) ≡ (
          if r.hour_bucket == hour
          then some (merged_hourly r (find (is_hour hour) rows))
          else find (is_hour hour) rows)
  unfolding upsert_hourly merged_hourly add_hourly
  find-upsert_hourly [] = ground arith
  find-upsert_hourly (x ∷ xs) = ground (arith, find-upsert_hourly xs)

pub session_of-put_session :
    (sid other : String) (u : SessionUsage) (m : List (String × SessionUsage))
    → session_of other (put_session sid u m)
      ≡ (if str_eq sid other then some u else session_of other m)
unfolding session_of put_session
session_of-put_session sid other u [] = refl
session_of-put_session sid other u ((name, v) ∷ m) = ground (
  arith,
  eq_iff name sid,
  eq_iff name other,
  eq_iff sid other,
  session_of-put_session sid other u m,
)

-- the rows of a payment
abbrev pub daily_row : Payment → DailyRow
daily_row p = record {
  day = p.day;
  input_tokens = p.input_tokens;
  output_tokens = p.output_tokens;
  cost = p.cost;
}

abbrev pub hourly_row : Payment → HourlyRow
hourly_row p = record {
  hour_bucket = p.hour_bucket;
  input_tokens = p.input_tokens;
  output_tokens = p.output_tokens;
  cost = p.cost;
}

abbrev pub hourly_usage_of : Option HourlyRow → DailyUsage
hourly_usage_of none = nothing_used
hourly_usage_of (some r) = record {
  input_tokens = r.input_tokens;
  output_tokens = r.output_tokens;
  cost = r.cost;
}

abbrev pub session_usage_of : Option SessionUsage → SessionUsage
session_usage_of o = or_else o no_session_usage

-- The tables say of every day, hour and session what the ledger says.
pub record Represents (u : Usage) (l : Ledger) : Type 0 where
  pub daily : (day : ℕ) → daily_usage_of (find (is_day day) u.daily) ≡ of_day day l
  pub hourly : (hour : ℕ) → hourly_usage_of (find (is_hour hour) u.hourly) ≡ of_hour hour l
  pub sessions : (sid : String) → session_usage_of (session_of sid u.sessions) ≡ of_session sid l

module _ {u : Usage} {l : Ledger} (r : Represents u l) (p : Payment) where
  daily_merged :
      (o : Option DailyRow)
      → daily_usage_of (some (merged_daily (daily_row p) o)) ≡ add_usage p (daily_usage_of o)
  unfolding merged_daily add_daily
  daily_merged none = ground arith
  daily_merged (some x) = refl

  hourly_merged :
      (o : Option HourlyRow)
      → hourly_usage_of (some (merged_hourly (hourly_row p) o)) ≡ add_usage p (hourly_usage_of o)
  unfolding merged_hourly add_hourly
  hourly_merged none = ground arith
  hourly_merged (some x) = refl

  pub daily_paid :
      (day : ℕ)
      → daily_usage_of (find (is_day day) (upsert_daily (daily_row p) u.daily)) ≡ of_day day (p ∷ l)
  daily_paid day = elim (Bool-cases (p.day == day)) [
    | inl e ↦
        rw (find-upsert_daily (daily_row p) day u.daily, e)
          (daily_merged (find (is_day day) u.daily) ∙ ap (add_usage p) (r.daily day))
    | inr e ↦ rw (find-upsert_daily (daily_row p) day u.daily, e) (r.daily day)
  ]

  pub hourly_paid :
      (hour : ℕ)
      → hourly_usage_of (find (is_hour hour) (upsert_hourly (hourly_row p) u.hourly))
        ≡ of_hour hour (p ∷ l)
  hourly_paid hour = elim (Bool-cases (p.hour_bucket == hour)) [
    | inl e ↦
        rw (find-upsert_hourly (hourly_row p) hour u.hourly, e)
          (hourly_merged (find (is_hour hour) u.hourly) ∙ ap (add_usage p) (r.hourly hour))
    | inr e ↦ rw (find-upsert_hourly (hourly_row p) hour u.hourly, e) (r.hourly hour)
  ]

  day_is_row :
      (rows : List DailyRow)
      → find (is_day p.day) (upsert_daily (daily_row p) rows)
        ≡ some (merged_daily (daily_row p) (find (is_day p.day) rows))
  day_is_row rows = find-upsert_daily (daily_row p) p.day rows ∙ ground arith

  hour_is_row :
      (rows : List HourlyRow)
      → find (is_hour p.hour_bucket) (upsert_hourly (hourly_row p) rows)
        ≡ some (merged_hourly (hourly_row p) (find (is_hour p.hour_bucket) rows))
  hour_is_row rows = find-upsert_hourly (hourly_row p) p.hour_bucket rows ∙ ground arith

  -- a sum that fits is written
  pub daily_written :
      (v : Usage)
      → v.daily ≡ u.daily
      → fits (of_day p.day (p ∷ l)) ≡ true
      → usage_step (daily_upsert (daily_row p)) v
        ≡ some (tt, record v { daily = upsert_daily (daily_row p) v.daily })
  unfolding usage_step fits_daily
  daily_written v same room =
      let row = merged_daily (daily_row p) (find (is_day p.day) v.daily) in
      let sum : daily_usage_of (some row) ≡ of_day p.day (p ∷ l) =
        ap daily_usage_of (sym (day_is_row v.daily))
        ∙ ap (λ rows. daily_usage_of (find (is_day p.day) (upsert_daily (daily_row p) rows))) same
        ∙ daily_paid p.day in
      let small : fits (daily_usage_of (some row)) ≡ true = ap fits sum ∙ room in
      rw (day_is_row v.daily, small) refl

  pub hourly_written :
      (v : Usage)
      → v.hourly ≡ u.hourly
      → fits (of_hour p.hour_bucket (p ∷ l)) ≡ true
      → usage_step (hourly_upsert (hourly_row p)) v
        ≡ some (tt, record v { hourly = upsert_hourly (hourly_row p) v.hourly })
  unfolding usage_step fits_hourly
  hourly_written v same room =
      let row = merged_hourly (hourly_row p) (find (is_hour p.hour_bucket) v.hourly) in
      let sum : hourly_usage_of (some row) ≡ of_hour p.hour_bucket (p ∷ l) =
        ap hourly_usage_of (sym (hour_is_row v.hourly))
        ∙ ap
            (λ rows.
              hourly_usage_of (find (is_hour p.hour_bucket) (upsert_hourly (hourly_row p) rows)))
            same
        ∙ hourly_paid p.hour_bucket in
      let small : fits (hourly_usage_of (some row)) ≡ true = ap fits sum ∙ room in
      rw (hour_is_row v.hourly, small) refl
