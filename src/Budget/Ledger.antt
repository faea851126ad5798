-- ===== src/Budget/Ledger.antt =====
-- What the budget promises: a ledger of the calls that were paid, and its sums by day, hour and session.
use jin_core.Base.{
  ◌-◌, ◌*◌, ◌≤◌, ◌⊎◌, ◌<◌, ℕ, String, Bool, List, [], ◌∷◌, ◌+◌, ◌==◌, ◌&&◌, str_eq, leb, ltb, Ratio,
  if◌then◌else◌,
}
use jin_core.Budget.Tables.{SessionUsage, integer_max, numeric_end}
use jin_core.Budget.Limits.{BudgetConfig, DailyUsage}
use jin_core.Budget.Service.{CheckBeforeCallInput}
use jin_core.Runtime.Program.{Answer, ok, err, session_budget_exceeded, daily_budget_exceeded}

pub record Payment : Type 0 where
  pub day : ℕ
  pub hour_bucket : ℕ
  pub session_id : String
  pub input_tokens : ℕ
  pub output_tokens : ℕ
  pub cost : ℕ

abbrev pub Ledger : Type 0
Ledger = List Payment

abbrev pub add_usage : Payment → DailyUsage → DailyUsage
add_usage p u = record {
  input_tokens = u.input_tokens + p.input_tokens;
  output_tokens = u.output_tokens + p.output_tokens;
  cost = u.cost + p.cost;
}

abbrev pub nothing_used : DailyUsage
nothing_used = record { input_tokens = 0; output_tokens = 0; cost = 0 }

abbrev pub of_day : ℕ → Ledger → DailyUsage
of_day day [] = nothing_used
of_day day (p ∷ l) = let rest = of_day day l in if p.day == day then add_usage p rest else rest

abbrev pub of_hour : ℕ → Ledger → DailyUsage
of_hour hour [] = nothing_used
of_hour hour (p ∷ l) =
    let rest = of_hour hour l in if p.hour_bucket == hour then add_usage p rest else rest

abbrev pub of_session : String → Ledger → SessionUsage
of_session sid [] = record { input_tokens = 0; output_tokens = 0 }
of_session sid (p ∷ l) =
    let rest = of_session sid l in
    if str_eq p.session_id sid
    then (record {
      input_tokens = rest.input_tokens + p.input_tokens;
      output_tokens = rest.output_tokens + p.output_tokens;
    })
    else rest

-- the sums that the columns can hold
abbrev pub fits : DailyUsage → Bool
fits u = leb u.input_tokens integer_max && leb u.output_tokens integer_max && ltb u.cost numeric_end

-- What the budget allows a call, by the ledger and the numbers of the configuration alone: the session's
-- tokens with those of the call, in and out; then the day's tokens and cost; and of what is left of either
-- the smaller part.
pub data Allows (c : BudgetConfig) (l : Ledger) (today : ℕ) (i : CheckBeforeCallInput)
    : Answer Ratio → Type 0 where
  over_session :
      (c.session_max_input_tokens
          < (of_session i.session_id l).input_tokens + i.estimated_input_tokens)
        ⊎ (c.session_max_output_tokens
            < (of_session i.session_id l).output_tokens + i.max_output_tokens)
      → Allows c l today i (err (session_budget_exceeded i.session_id))
  over_day :
      (of_session i.session_id l).input_tokens + i.estimated_input_tokens
        ≤ c.session_max_input_tokens
      → (of_session i.session_id l).output_tokens + i.max_output_tokens
        ≤ c.session_max_output_tokens
      → (c.daily_max_tokens ≤ (of_day today l).input_tokens + (of_day today l).output_tokens)
        ⊎ (c.daily_max_cost ≤ (of_day today l).cost)
      → Allows c l today i (err daily_budget_exceeded)
  left_of_tokens :
      (of_session i.session_id l).input_tokens + i.estimated_input_tokens
        ≤ c.session_max_input_tokens
      → (of_session i.session_id l).output_tokens + i.max_output_tokens
        ≤ c.session_max_output_tokens
      → (of_day today l).input_tokens + (of_day today l).output_tokens < c.daily_max_tokens
      → (of_day today l).cost < c.daily_max_cost
      → (of_day today l).cost * c.daily_max_tokens
        ≤ ((of_day today l).input_tokens + (of_day today l).output_tokens) * c.daily_max_cost
      → Allows c l today i (
          ok (record {
            num =
                c.daily_max_tokens
                - ((of_day today l).input_tokens + (of_day today l).output_tokens);
            den = c.daily_max_tokens;
          }))
  left_of_cost :
      (of_session i.session_id l).input_tokens + i.estimated_input_tokens
        ≤ c.session_max_input_tokens
      → (of_session i.session_id l).output_tokens + i.max_output_tokens
        ≤ c.session_max_output_tokens
      → (of_day today l).input_tokens + (of_day today l).output_tokens < c.daily_max_tokens
      → (of_day today l).cost < c.daily_max_cost
      → ((of_day today l).input_tokens + (of_day today l).output_tokens) * c.daily_max_cost
        ≤ (of_day today l).cost * c.daily_max_tokens
      → Allows c l today i
          (ok (record { num = c.daily_max_cost - (of_day today l).cost; den = c.daily_max_cost }))
