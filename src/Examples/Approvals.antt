-- ===== src/Examples/Approvals.antt =====
-- Examples of the approvals: theorems of Pool, Approval and Policy at concrete requests.
use jin_core.Runtime.Program.{out_of_fuel}
use jin_core.Approval.Among.{run_among}
use jin_core.Approval.Fuel.{record_approval_fuel}
use jin_core.Hitl.DualConfirm.{record_approval, approval_fuel}
use jin_core.Hitl.Levels.{parse_level}
use jin_core.Hitl.Executors.{lookup_executor}
use jin_core.Pool.Effects.{for_request}
use jin_core.Examples.Data.{host, tools, mail, merge, merge_once, world}
use jin_core.Base.{◌≢◌, ◌<◌, [], ◌∷◌, ◌≡◌, ◌≤◌, ◌⊎◌, refl, count, arith}
use jin_core.Pool.Interleaving.{approve, enter}
use jin_core.Pool.Sequential.{call_reaches, Reach-trans}
use jin_core.Pool.AtMostOnce.{executes_at_most_once}
use jin_core.Pool.Internal.{mode_change_executor-Executes, level_override_executor-Executes}
use jin_core.Examples.Data.{config}
use jin_core.Pool.Services.{integration-Executes}
use jin_core.Approval.Protocol.{resolve_and_execute-protocol}
use jin_core.Approval.Order.{protocol, nothing_seen}
use jin_core.Approval.FailClosed.{runs_only_on_record, approvals}
use jin_core.Approval.NeverRuns.{Unmoved, sweep_never_approves, resolve_rejection_never_executes}
use jin_core.Approval.Outcomes.{approved_once, first_approval_waits, early_second_approval_refused}
use jin_core.Approval.Executes.{last_approval_executes, approval_entry}
use jin_core.Hitl.Execution.{resolve_and_execute, resolve_rejection, awaits, executed}
use jin_core.Hitl.Timeouts.{sweep}
use jin_core.Hitl.Pending.{
  select, has_id, update_where, delete_where, awaits_first, is_open, claim_row,
}
use jin_core.Runtime.Monitor.{Obeys, Any}
use jin_core.Runtime.Program.{pending_first_approval, ok, err, second_approval_too_early}
use jin_core.Runtime.World.{Outcome, run, done, World, next_audit_row}

-- the mail approved twice at the same time of day, by two calls
executes_at_most_once_example :
    count
      (for_request "r1")
      (run host []
        (enter host tools (approve "r1" "owner"))
        (run host [] (enter host tools (approve "r1" "owner")) world).1).1.invoked
    ≤ 1
executes_at_most_once_example =
    executes_at_most_once host tools "r1"
      (
        integration-Executes "r1" "sendEmail",
        (
          mode_change_executor-Executes host config "r1",
          (level_override_executor-Executes "r1", tt),
        ),
      )
      world (omega arith) (omega arith)
      (Reach-trans (call_reaches host tools "r1" [] (approve "r1" "owner") world [] tt).1
        (call_reaches host tools "r1" [] (approve "r1" "owner")
          (run host [] (enter host tools (approve "r1" "owner")) world).1
          ((call_reaches host tools "r1" [] (approve "r1" "owner") world [] tt).0 ∷ []) tt).1)

resolve_and_execute-protocol_example :
    Obeys protocol nothing_seen (resolve_and_execute host tools "r1" "owner") Any
resolve_and_execute-protocol_example = resolve_and_execute-protocol host tools "r1" "owner"

runs_only_on_record_example :
    ((run host
        (done ∷ done ∷ Outcome.failed ∷ [])
        (resolve_and_execute host tools "r1" "owner")
        world).1.invoked
      ≡ [])
    ⊎ (0
        < approvals
            (run host
              (done ∷ done ∷ Outcome.failed ∷ [])
              (resolve_and_execute host tools "r1" "owner")
              world).1)
runs_only_on_record_example =
    runs_only_on_record host tools (done ∷ done ∷ Outcome.failed ∷ []) "r1" "owner" world

sweep_never_approves_example :
    Unmoved
      (record world { now = 90000000 })
      (run host [] sweep (record world { now = 90000000 })).1
sweep_never_approves_example = sweep_never_approves host [] (record world { now = 90000000 })

resolve_rejection_never_executes_example :
    Unmoved world (run host [] (resolve_rejection "r1" "owner") world).1
resolve_rejection_never_executes_example =
    resolve_rejection_never_executes host [] "r1" "owner" world

first_approval_waits_example : run host [] (resolve_and_execute host tools "r2" "owner") world ≡ (
  ok awaits,
  record world {
    pending = update_where (awaits_first "r2") (approved_once "owner" 5000) world.pending;
  },
)
unfolding select parse_level
first_approval_waits_example =
    first_approval_waits host tools "r2" "owner" world merge refl refl refl

abbrev once_world : World
once_world = record world { pending = merge_once ∷ [] }

early_second_approval_refused_example :
    run host [] (resolve_and_execute host tools "r2" "owner") once_world
    ≡ (err (second_approval_too_early "r2" 32000), once_world)
unfolding select parse_level
early_second_approval_refused_example =
    early_second_approval_refused host tools "r2" "owner" once_world merge_once refl 2000 refl refl
      (omega arith)

last_approval_executes_example : run host [] (resolve_and_execute host tools "r1" "owner") world ≡ (
  ok (executed "sendEmail" "sendEmail"),
  record world {
    pending =
        delete_where (has_id "r1") (update_where (is_open "r1") (claim_row 5000) world.pending);
    audit = next_audit_row host (approval_entry "r1" "owner" mail) world ∷ [];
    audit_ids = 1;
    invoked = (record { tool = "sendEmail"; payload = mail.payload; request = "r1" }) ∷ [];
  },
)
unfolding select parse_level lookup_executor
last_approval_executes_example =
    last_approval_executes host tools "r1" "owner" world mail refl refl refl refl refl

-- another call wins the race between the lookup and the update
record_approval_fuel_example :
    (run_among host []
      ([] ∷ (pending_first_approval "r2" "guest" 5000 35000 ∷ []) ∷ [])
      (record_approval approval_fuel "r2" "owner" 5000)
      world).0
    ≢ err out_of_fuel
record_approval_fuel_example =
    record_approval_fuel host "r2" "owner" 5000 []
      ([] ∷ (pending_first_approval "r2" "guest" 5000 35000 ∷ []) ∷ []) world (tt, ((refl, tt), tt))
