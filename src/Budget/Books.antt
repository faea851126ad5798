-- ===== src/Budget/Books.antt =====
-- What the budget asks around a call: the clock and its tables, but it does not write the kill switch.
use jin_core.Budget.Cost.{compute_cost_usd}
use jin_core.Runtime.Always.{Asks-settle, Asks-bind, Asks}
use jin_core.ModelProvider.Types.{ModelPrices}
use jin_core.Budget.Service.{
  RecordUsageInput, get_daily_usage, CheckBeforeCallInput, get_session_usage, get_daily_usage_ratio,
  check_day, check_session, check_before_call, record_cost, record_usage,
}
use jin_core.Budget.Tables.{kill_switch_upsert}
use jin_core.Budget.Limits.{BudgetConfig}
use jin_core.Runtime.World.{Host}
use jin_core.Runtime.Program.{err, settle, ok, random_uuid, clock, usage, Op}
use jin_core.Base.{inr, inl, false, ratio_ge, true, Bool-cases, ℕ, Bool, Ratio}

abbrev pub Books : Op → Type 0
Books clock = Unit
Books random_uuid = Unit
Books (usage (kill_switch_upsert _)) = ⊥
Books (usage _) = Unit
Books _ = ⊥

module _ (h : Host) (c : BudgetConfig) where
  pub get_daily_usage_ratio-Books : Asks Books (get_daily_usage_ratio h c)
  unfolding get_daily_usage_ratio get_daily_usage
  get_daily_usage_ratio-Books =
      (tt, elim [ ok _ ↦ (tt, elim [ ok _ ↦ tt | err _ ↦ tt ]) | err _ ↦ tt ])

  check_day-Books : (used : Ratio) → Asks Books (check_day h c used)
  unfolding check_day
  check_day-Books used = elim (Bool-cases (ratio_ge used (record { num = 1; den = 1 }))) [
    | inl e ↦ rw e tt
    | inr e ↦ rw e tt
  ]

  check_session-Books : (i : CheckBeforeCallInput) (b : Bool) → Asks Books (check_session h c i b)
  unfolding check_session
  check_session-Books i true = tt
  check_session-Books i false =
      Asks-bind Books (get_daily_usage_ratio h c) _ get_daily_usage_ratio-Books check_day-Books

  pub check_before_call-Books : (i : CheckBeforeCallInput) → Asks Books (check_before_call h c i)
  unfolding check_before_call get_session_usage
  check_before_call-Books i = (tt, elim [ ok s ↦ check_session-Books i _ | err _ ↦ tt ])

  record_cost-Books : (i : RecordUsageInput) (cost : ℕ) → Asks Books (record_cost h c i cost)
  unfolding record_cost get_session_usage
  record_cost-Books i cost = (
    tt,
    elim [
      | ok session ↦ (
        tt,
        elim [
          | ok _ ↦ (
            tt,
            elim [
              | ok today ↦ (
                tt,
                elim [
                  | ok _ ↦ (
                    tt,
                    elim [
                      | ok now ↦ (
                        tt,
                        elim [
                          | ok _ ↦
                              Asks-bind Books (get_daily_usage_ratio h c) _
                                get_daily_usage_ratio-Books (λ _. tt)
                          | err _ ↦ tt
                        ],
                      )
                      | err _ ↦ tt
                    ],
                  )
                  | err _ ↦ tt
                ],
              )
              | err _ ↦ tt
            ],
          )
          | err _ ↦ tt
        ],
      )
      | err _ ↦ tt
    ],
  )

  pub record_usage-Books :
      (prices : ModelPrices) (i : RecordUsageInput) → Asks Books (record_usage h c prices i)
  unfolding record_usage
  record_usage-Books prices i =
      Asks-bind Books (settle (compute_cost_usd prices i.model_id i.input_tokens i.output_tokens)) _
        (Asks-settle Books (compute_cost_usd prices i.model_id i.input_tokens i.output_tokens))
        (record_cost-Books i)
