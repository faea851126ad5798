-- ===== src/Examples/Budgets.antt =====
-- Examples of the budget: one paid call, and the checks around it.
use jin_core.Base.{arith, Ratio, refl}
use jin_core.Budget.Limits.{current_hour_bucket, today_local_date}
use jin_core.Budget.Refine.{record_usage_refines, check_before_call_refines, payment_of}
use jin_core.Budget.Ledger.{Allows}
use jin_core.Runtime.Program.{Answer, ok}
use jin_core.Budget.Tables.{session_of, Usage}
use jin_core.Base.{none, ◌∷◌, ◌≡◌, []}
use jin_core.Runtime.World.{run}
use jin_core.Budget.Cost.{to_column, compute_cost_usd}
use jin_core.Budget.Represents.{Represents}
use jin_core.Budget.Service.{
  record_usage, check_before_call, RecordUsageInput, CheckBeforeCallInput,
}
use jin_core.Examples.Turns.{guard}
use jin_core.Examples.Data.{host, world}

abbrev paid_call : RecordUsageInput
paid_call = record {
  session_id = "s1";
  model_id = "claude-sonnet-5";
  input_tokens = 1000;
  output_tokens = 200;
}

empty-Represents : Represents world.usage []
unfolding session_of
empty-Represents = record { daily = λ _. refl; hourly = λ _. refl; sessions = λ _. refl }

record_usage_refines_example :
    (u : Usage) × (run host [] (record_usage host guard.budget guard.prices paid_call) world
      ≡ (ok tt, record world { usage = u }))
    × Represents u (payment_of host paid_call 6000000000 world ∷ [])
    × (u.kill_switch ≡ none)
unfolding compute_cost_usd today_local_date to_column current_hour_bucket
record_usage_refines_example =
    record_usage_refines host paid_call 6000000000 world [] empty-Represents guard.budget
      guard.prices refl refl refl

abbrev wanted_call : CheckBeforeCallInput
wanted_call = record { session_id = "s1"; estimated_input_tokens = 1000; max_output_tokens = 1024 }

check_before_call_refines_example :
    (a : Answer Ratio) × (run host [] (check_before_call host guard.budget wanted_call) world
      ≡ (a, world))
    × Allows guard.budget [] (today_local_date 5 5000) wanted_call a
check_before_call_refines_example =
    check_before_call_refines host guard.budget wanted_call world [] (omega arith) (omega arith)
      empty-Represents
