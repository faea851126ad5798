-- ===== src/Examples/Runs.antt =====
-- Examples of the orchestrator: a run of three tickets.
use jin_core.Orchestrator.Board.{Ledger, run_done, Ticket, TicketStatus, pending}
use jin_core.Orchestrator.Logic.{
  chunk, chunk-concat, concat, Fits, compute_run_status, compute_run_status_done, has_material,
}
use jin_core.Orchestrator.Batches.{Turn, ended, run_batches, answered}
use jin_core.Orchestrator.Ends.{run_batches_ends}
use jin_core.Base.{◌≡◌, ◌↔◌, String, Bool, false, none, some, List, [], ◌∷◌, All, arith}

abbrev ticket : String → List String → Ticket
ticket name needs = record {
  id = name;
  run_id = "run";
  description = name;
  status = pending;
  assigned_sub_agent_id = none;
  allowed_tools = [];
  depends_on = needs;
  result = none;
}

abbrev board : List Ticket
board = ticket "a" [] ∷ ticket "b" [] ∷ ticket "c" ("a" ∷ "b" ∷ []) ∷ []

abbrev ledger : Ledger
ledger = record { tickets = board; comments = [] }

abbrev succeeds : Ticket → List Ticket → Turn
succeeds t _ = answered "ok" false

abbrev never : Ledger → Bool
never _ = false

run_batches_ends_example :
    (by_kill : Bool) × (end : Ledger) × (run_batches succeeds never 4 2 ledger ≡ ended by_kill end)
run_batches_ends_example = run_batches_ends succeeds never 4 2 ledger (omega arith) (omega arith)

chunk-concat_example :
    (out : List (List String)) × (chunk ("a" ∷ "b" ∷ "c" ∷ []) 2 ≡ some out)
    × (concat out ≡ "a" ∷ "b" ∷ "c" ∷ [])
    × All (Fits 2) out
chunk-concat_example = chunk-concat ("a" ∷ "b" ∷ "c" ∷ []) 2 (omega arith)

compute_run_status_done_example :
    (compute_run_status board none ≡ run_done)
    ↔ (All (λ t. t.status ≡ TicketStatus.done) board × (has_material none ≡ false))
compute_run_status_done_example = compute_run_status_done board none
