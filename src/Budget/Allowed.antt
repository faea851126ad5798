-- ===== src/Budget/Allowed.antt =====
-- The two tests of `checkBeforeCall` (src/budget/budget.service.ts, on the functions of budget.logic.ts)
-- against what the budget allows.

use mathlib.Core.Path.{subst}
use native.Mathlib.Nat.{mul-lt-mul_of_pos_right, mul_comm, lt_of_le_of_lt, lt_of_mul-lt-mul_right}
use jin_core.Runtime.Program.{Answer, daily_budget_exceeded, session_budget_exceeded, err, ok}
use jin_core.Budget.Service.{CheckBeforeCallInput}
use jin_core.Budget.Limits.{compute_daily_usage_ratio, would_exceed_session_budget, BudgetConfig}
use jin_core.Budget.Ledger.{
  left_of_tokens, left_of_cost, over_day, over_session, Allows, of_session, of_day, Ledger,
}
use jin_core.Base.{
  ◌⊎◌, ◌||◌, leb, ◌≤◌, arith, ◌*◌, ◌+◌, ltb, ◌<◌, false, rest_of_one, ratio_ge, Ratio, Bool, true,
  inr, inl, Bool-cases, if◌then◌else◌, ◌≡◌, ℕ,
}

-- the part that the other is at least as large as is below its whole as well
smaller_below : (k T t K : ℕ) → 0 < K → k * T ≤ t * K → t < T → k < K
smaller_below k T t K positive smaller below = lt_of_mul-lt-mul_right T (
    lt_of_le_of_lt smaller
      (subst (λ n. t * K < n) (mul_comm T K) (mul-lt-mul_of_pos_right below positive)))

module _ (c : BudgetConfig) (l : Ledger) (today : ℕ) (i : CheckBeforeCallInput) where
  -- the answer, by the test on the session and that on the day
  unfoldable pub answer_by : Bool → Answer Ratio
  answer_by exceeded =
      let used = compute_daily_usage_ratio (of_day today l) c in
      if exceeded
      then err (session_budget_exceeded i.session_id)
      else if ratio_ge used (record { num = 1; den = 1 })
      then err daily_budget_exceeded
      else ok (rest_of_one used)

  module _ (tokens_limited : 0 < c.daily_max_tokens) (cost_limited : 0 < c.daily_max_cost) where
    abbrev tokens : ℕ
    tokens = (of_day today l).input_tokens + (of_day today l).output_tokens

    abbrev WithinSession : Type 0
    WithinSession =
        ((of_session i.session_id l).input_tokens + i.estimated_input_tokens
          ≤ c.session_max_input_tokens)
        × ((of_session i.session_id l).output_tokens + i.max_output_tokens
            ≤ c.session_max_output_tokens)

    abbrev by_used : Ratio → Answer Ratio
    by_used used =
        if ratio_ge used (record { num = 1; den = 1 })
        then err daily_budget_exceeded
        else ok (rest_of_one used)

    by_tokens-Allows :
        WithinSession
        → (of_day today l).cost * c.daily_max_tokens ≤ tokens * c.daily_max_cost
        → Allows c l today i (by_used (record { num = tokens; den = c.daily_max_tokens }))
    by_tokens-Allows (input_room, output_room) larger =
        elim (Bool-cases (leb (1 * c.daily_max_tokens) (tokens * 1))) [
          | inl over ↦ rw over (over_day input_room output_room (inl (ground (arith, over))))
          | inr under ↦
              let below : tokens < c.daily_max_tokens = ground (arith, under) in
              rw under (
                left_of_tokens input_room output_room below
                  (smaller_below _ _ _ _ cost_limited larger below) larger)
        ]

    by_cost-Allows :
        WithinSession
        → tokens * c.daily_max_cost ≤ (of_day today l).cost * c.daily_max_tokens
        → Allows c l today i
            (by_used (record { num = (of_day today l).cost; den = c.daily_max_cost }))
    by_cost-Allows (input_room, output_room) larger =
        elim (Bool-cases (leb (1 * c.daily_max_cost) ((of_day today l).cost * 1))) [
          | inl over ↦ rw over (over_day input_room output_room (inr (ground (arith, over))))
          | inr under ↦
              let below : (of_day today l).cost < c.daily_max_cost = ground (arith, under) in
              rw under (
                left_of_cost input_room output_room
                  (smaller_below _ _ _ _ tokens_limited larger below) below larger)
        ]

    day_Allows :
        WithinSession → Allows c l today i (by_used (compute_daily_usage_ratio (of_day today l) c))
    unfolding compute_daily_usage_ratio
    day_Allows room =
        elim (Bool-cases
          (ltb (tokens * c.daily_max_cost) ((of_day today l).cost * c.daily_max_tokens))) [
            | inl e ↦ rw e (by_cost-Allows room (ground (arith, e)))
            | inr e ↦ rw e (by_tokens-Allows room (ground (arith, e)))
          ]

    over_either : (a n b m : ℕ) → ltb a n || ltb b m ≡ true → (a < n) ⊎ (b < m)
    over_either a n b m e = elim (Bool-cases (ltb a n)) [
      | inl over ↦ inl (ground (arith, over))
      | inr under ↦ inr (ground (arith, e, under))
    ]

    pub session_Allows :
        (b : Bool)
        → would_exceed_session_budget
            (of_session i.session_id l)
            i.estimated_input_tokens
            i.max_output_tokens
            c
          ≡ b
        → Allows c l today i (answer_by b)
    unfolding answer_by would_exceed_session_budget
    session_Allows true e = over_session (over_either _ _ _ _ e)
    session_Allows false e = day_Allows (ground (arith, e), ground (arith, e))
