-- ===== src/Budget/Refine.antt =====
-- The tables and the map of the sessions hold the ledger: each statement of src/budget/budget.service.ts
-- does to them what its ledger's does.
use jin_core.Budget.Allowed.{answer_by, session_Allows}
use jin_core.Budget.Represents.{
  session_of-put_session, hourly_paid, hourly_written, session_usage_of, daily_paid, daily_written,
  Represents,
}
use jin_core.ModelProvider.Types.{ModelPrices}
use jin_core.Runtime.Steps.{run_throw, run_ret, run-ask}
use jin_core.Runtime.Program.{
  Answer, daily_budget_exceeded, session_budget_exceeded, err, ◌>>=◌, settle, clock, usage, ok,
}
use jin_core.Budget.Cost.{compute_cost_usd, to_column}
use jin_core.Runtime.World.{or_before, answer_of, run, perform, World, Host}
use jin_core.Budget.Service.{
  check_day, check_session, check_before_call, CheckBeforeCallInput, record_usage, get_daily_usage,
  get_daily_usage_ratio, hourly_increment, get_session_usage, daily_increment, record_cost,
  session_sum, RecordUsageInput, daily_usage_of,
}
use jin_core.Budget.Limits.{
  compute_daily_usage_ratio, would_exceed_session_budget, BudgetConfig, current_hour_bucket,
  today_local_date, DailyUsage,
}
use jin_core.Budget.Ledger.{Allows, fits, of_session, of_day, of_hour, Ledger, Payment}
use jin_core.Budget.Tables.{
  daily_select, UsageReply, UsageOp, session_set, session_get, daily_upsert, hourly_upsert,
  usage_step, is_day, upsert_daily, upsert_hourly, put_session, SessionUsage, session_of, Usage,
}
use jin_core.Base.{
  ◌<◌, false, rest_of_one, ratio_ge, Ratio, Bool, sym, true, inr, ap, ◌∙◌, [], eq_iff, inl,
  Bool-cases, str_eq, ◌∷◌, if◌then◌else◌, List, ◌≡◌, String, find, some, ℕ, refl,
}

-- the payment of a call, at the time of the world
abbrev pub payment_of : Host → RecordUsageInput → ℕ → World → Payment
payment_of h i cost w = record {
  day = today_local_date h.hours_west w.now;
  hour_bucket = current_hour_bucket w.now;
  session_id = i.session_id;
  input_tokens = i.input_tokens;
  output_tokens = i.output_tokens;
  cost = to_column cost;
}

module _ (h : Host) (i : RecordUsageInput) (cost : ℕ) (w : World) (l : Ledger)
    (r : Represents w.usage l) where
  abbrev pub payment : Payment
  payment = payment_of h i cost w

  abbrev sessions_after : List (String × SessionUsage)
  sessions_after =
      put_session i.session_id
        (session_sum h (session_usage_of (session_of i.session_id w.usage.sessions)) i)
        w.usage.sessions

  session_paid :
      (sid : String)
      → session_usage_of (session_of sid sessions_after) ≡ of_session sid (payment ∷ l)
  session_paid sid = elim (Bool-cases (str_eq i.session_id sid)) [
    | inl e ↦
        let same : sid ≡ i.session_id = sym ((eq_iff i.session_id sid).0 e) in
        rw (session_of-put_session i.session_id sid _ w.usage.sessions, e)
          (ap (λ u. session_sum h u i)
            (ap (λ s. session_usage_of (session_of s w.usage.sessions)) (sym same)
              ∙ r.sessions sid))
    | inr e ↦ rw (session_of-put_session i.session_id sid _ w.usage.sessions, e) (r.sessions sid)
  ]

  -- the world behind the record
  abbrev paid_usage : Usage
  paid_usage = record w.usage {
    sessions = sessions_after;
    daily = upsert_daily (daily_increment h i cost w.now) w.usage.daily;
    hourly = upsert_hourly (hourly_increment h i cost w.now) w.usage.hourly;
  }

  abbrev paid_world : World
  paid_world = record w { usage = paid_usage }

  paid_Represents : Represents paid_usage (payment ∷ l)
  paid_Represents = record {
    daily = daily_paid r (payment_of h i cost w);
    hourly = hourly_paid r (payment_of h i cost w);
    sessions = session_paid;
  }

  record_cost_runs :
      (c : BudgetConfig)
      → fits (of_day payment.day (payment ∷ l)) ≡ true
      → fits (of_hour payment.hour_bucket (payment ∷ l)) ≡ true
      → run h [] (record_cost h c i cost) w ≡ (ok tt, paid_world)
  unfolding record_cost get_session_usage get_daily_usage_ratio get_daily_usage perform usage_step
  record_cost_runs c day_room hour_room =
      run-ask h (usage (session_get i.session_id)) _ w refl
      ∙ run-ask h (usage (session_set i.session_id _)) _ w refl
      ∙ run-ask h clock _ (record w { usage = record w.usage { sessions = sessions_after } }) refl
      ∙ run-ask h (usage (daily_upsert (daily_increment h i cost w.now))) _ w1 (
          wrote w1 (daily_upsert (daily_increment h i cost w.now))
            (daily_written r (payment_of h i cost w) w1.usage refl day_room))
      ∙ run-ask h clock _ w2 refl
      ∙ run-ask h (usage (hourly_upsert (hourly_increment h i cost w.now))) _ w2 (
          wrote w2 (hourly_upsert (hourly_increment h i cost w.now))
            (hourly_written r (payment_of h i cost w) w2.usage refl hour_room))
      ∙ run-ask h clock _ paid_world refl
      ∙ run-ask h (usage (daily_select (today_local_date h.hours_west w.now))) _ paid_world refl
      ∙ run_ret h tt paid_world
    where
      w1 : World
      w1 = record w { usage = record w.usage { sessions = sessions_after } }

      w2 : World
      w2 = record w {
        usage = record w.usage {
          sessions = sessions_after;
          daily = upsert_daily (daily_increment h i cost w.now) w.usage.daily;
        };
      }

      wrote :
          (v : World) (o : UsageOp) {reply : UsageReply o} {u : Usage}
          → usage_step o v.usage ≡ some (reply, u)
          → perform h (usage o) v ≡ (ok reply, record v { usage = u })
      wrote v o e = ap (λ s. (answer_of s, record v { usage = or_before v.usage s })) e

  -- Behind a call whose model has a price, where the sums of the day and of the hour with the call's fit
  -- their columns, and where every question is answered, the record is made: the tables hold the ledger
  -- with one payment more, and the kill switch and all else are as they were.
  pub record_usage_refines :
      (c : BudgetConfig) (prices : ModelPrices)
      → compute_cost_usd prices i.model_id i.input_tokens i.output_tokens ≡ ok cost
      → fits (of_day payment.day (payment ∷ l)) ≡ true
      → fits (of_hour payment.hour_bucket (payment ∷ l)) ≡ true
      → (u : Usage) × (run h [] (record_usage h c prices i) w ≡ (ok tt, record w { usage = u }))
        × Represents u (payment ∷ l)
        × (u.kill_switch ≡ w.usage.kill_switch)
  unfolding record_usage
  record_usage_refines c prices priced day_room hour_room = (
    paid_usage,
    ap (λ a. run h [] (settle a >>= record_cost h c i) w) priced
        ∙ record_cost_runs c day_room hour_room,
    paid_Represents,
    refl,
  )

module _ (h : Host) (c : BudgetConfig) (i : CheckBeforeCallInput) (w : World) where
  checked_day :
      (used : Ratio)
      → run h [] (check_day h c used) w ≡ (
        if ratio_ge used (record { num = 1; den = 1 })
            then err daily_budget_exceeded
            else ok (rest_of_one used),
        w,
      )
  unfolding check_day run
  checked_day used = elim (Bool-cases (ratio_ge used (record { num = 1; den = 1 }))) [
    | inl e ↦ rw e refl
    | inr e ↦ rw e refl
  ]

  checked_session :
      (b : Bool) (daily : DailyUsage)
      → daily_usage_of (find (is_day (today_local_date h.hours_west w.now)) w.usage.daily) ≡ daily
      → run h [] (check_session h c i b) w ≡ (
        if b
            then err (session_budget_exceeded i.session_id)
            else if ratio_ge (compute_daily_usage_ratio daily c) (record { num = 1; den = 1 })
            then err daily_budget_exceeded
            else ok (rest_of_one (compute_daily_usage_ratio daily c)),
        w,
      )
  unfolding check_session get_daily_usage_ratio get_daily_usage perform usage_step
  checked_session true daily e = run_throw h (session_budget_exceeded i.session_id) w
  checked_session false daily e =
      run-ask h clock _ w refl
      ∙ run-ask h (usage (daily_select (today_local_date h.hours_west w.now))) _ w refl
      ∙ ap (λ d. run h [] (check_day h c (compute_daily_usage_ratio d c)) w) e
      ∙ checked_day (compute_daily_usage_ratio daily c)

  checked_by : Ledger → Answer Ratio
  checked_by l = answer_by c l (today_local_date h.hours_west w.now) i (
      would_exceed_session_budget (of_session i.session_id l) i.estimated_input_tokens
        i.max_output_tokens c)

  checked_before :
      (l : Ledger) → Represents w.usage l → run h [] (check_before_call h c i) w ≡ (checked_by l, w)
  unfolding check_before_call get_session_usage perform usage_step checked_by answer_by
  checked_before l r =
      run-ask h (usage (session_get i.session_id)) _ w refl
      ∙ ap
          (λ u.
            run h []
              (check_session h c i
                (would_exceed_session_budget u i.estimated_input_tokens i.max_output_tokens c))
              w)
          (r.sessions i.session_id)
      ∙ checked_session
          (would_exceed_session_budget (of_session i.session_id l) i.estimated_input_tokens
            i.max_output_tokens c)
          (of_day (today_local_date h.hours_west w.now) l)
          (r.daily (today_local_date h.hours_west w.now))

  module _ (l : Ledger) (tokens_limited : 0 < c.daily_max_tokens)
      (cost_limited : 0 < c.daily_max_cost) where
    -- For a world that holds a ledger, and day limits that are positive, the check before a call leaves
    -- the world as it is and answers by the ledger and the limits alone: an error when the session's
    -- tokens with the call's estimate, or its output with the call's, are above their limit; else an
    -- error when the day's tokens or its cost have reached theirs; else the smaller of the parts of
    -- these two that are left.
    pub check_before_call_refines :
        Represents w.usage l
        → (a : Answer Ratio) × (run h [] (check_before_call h c i) w ≡ (a, w))
          × Allows c l (today_local_date h.hours_west w.now) i a
    unfolding checked_by
    check_before_call_refines r = (
      checked_by l,
      checked_before l r,
      session_Allows c l (today_local_date h.hours_west w.now) i tokens_limited cost_limited _ refl,
    )
