-- ===== src/Orchestrator/Batches.antt =====
-- The loop of src/agent/orchestrator.service.ts over batches of tickets. The turn of a
-- sub-agent is a parameter, and the writes of the ledger succeed; the turns of a chunk, which run at the same time and write only their own
-- ticket, are taken one after the other.
use jin_core.Base.{
  if◌then◌else◌, ℕ, zero, suc, String, Bool, true, false, Option, none, some, List, [], ◌∷◌, ◌||◌,
}
use jin_core.Orchestrator.Board.{
  note, orchestrator, answer, sub_agent, Ledger, add_comment, assign_sub_agent,
  get_completed_siblings, Ticket, TicketStatus, in_progress, done, failed, blocked,
  update_ticket_status,
}
use Prim.Native.String.{◌++◌}
use jin_core.Orchestrator.Logic.{compute_ready_batch, chunk}

-- how `AgentService.runTurn` ends for a ticket: an answer and whether approvals wait, an error with its
-- message, or the kill switch
pub data Turn : Type 0 where
  answered : String → Bool → Turn
  turn_failed : String → Turn
  turn_killed : Turn

pub data RunEnd : Type 0 where
  ended : Bool → Ledger → RunEnd  -- whether the kill switch ended it
  invalid_size : RunEnd
  out_of_fuel : RunEnd

abbrev pub status_of_answer : Bool → TicketStatus
status_of_answer true = blocked
status_of_answer false = done

unfoldable pub set_status : String → TicketStatus → Option String → Ledger → Ledger
unfolding update_ticket_status
set_status id s r l = record l { tickets = update_ticket_status id s r l.tickets }

-- behind the turn; `catch` absorbs an error and passes the kill switch on
unfoldable pub finish_ticket : Turn → String → Ledger → Bool × Ledger
unfolding set_status add_comment
finish_ticket (answered text approvals) id l = (
  false,
  set_status id (status_of_answer approvals) (some text) (
      add_comment
        (record {
          ticket_id = id;
          author_type = sub_agent;
          author_id = some id;
          kind = answer;
          body = text;
        })
        l),
)
finish_ticket (turn_failed message) id l = (
  false,
  add_comment
      (record {
        ticket_id = id;
        author_type = orchestrator;
        author_id = none;
        kind = note;
        body = "Sub-agente falló: " ++ message;
      })
      (set_status id failed none l),
)
finish_ticket turn_killed id l = (true, l)

unfoldable pub start_ticket : String → Ledger → Ledger
unfolding set_status assign_sub_agent
start_ticket id l =
    let started = set_status id in_progress none l in
    record started { tickets = assign_sub_agent id id started.tickets }

module _ (turn : Ticket → List Ticket → Turn) where
  -- the turn sees the siblings that are done
  unfoldable pub run_sub_agent_for_ticket : Ticket → Ledger → Bool × Ledger
  unfolding finish_ticket start_ticket get_completed_siblings
  run_sub_agent_for_ticket t l =
      let started = start_ticket t.id l in
      finish_ticket (turn t (get_completed_siblings t.id started.tickets)) t.id started

  -- `Promise.all`: the others of the chunk go on when one is killed
  unfoldable pub run_chunk : List Ticket → Ledger → Bool × Ledger
  unfolding run_sub_agent_for_ticket
  run_chunk [] l = (false, l)
  run_chunk (t ∷ ts) l =
      let (killed, next) = run_sub_agent_for_ticket t l in
      let (later, end) = run_chunk ts next in (killed || later, end)

  -- a killed chunk is the last
  unfoldable pub run_chunks : List (List Ticket) → Ledger → Bool × Ledger
  unfolding run_chunk
  run_chunks [] l = (false, l)
  run_chunks (batch ∷ rest) l =
      let (killed, next) = run_chunk batch l in
      let after = run_chunks rest next in if killed then (true, next) else after

-- behind the chunks of a round; `again` is the next round
unfoldable pub next_round : (Ledger → RunEnd) → Bool × Ledger → RunEnd
next_round again (true, l) = ended true l
next_round again (false, l) = again l

module _ (turn : Ticket → List Ticket → Turn) (is_active : Ledger → Bool) where
  unfoldable pub run_ready : (Ledger → RunEnd) → Option (List (List Ticket)) → Ledger → RunEnd
  unfolding next_round run_chunks
  run_ready again none l = invalid_size
  run_ready again (some batches) l = next_round again (run_chunks turn batches l)

  -- the loop ends when nothing is ready
  unfoldable pub run_round : (Ledger → RunEnd) → ℕ → List Ticket → Ledger → RunEnd
  unfolding run_ready chunk
  run_round again size [] l = ended false l
  run_round again size (t ∷ ts) l = run_ready again (chunk (t ∷ ts) size) l

  -- `runBatchesUntilDone`
  unfoldable pub run_batches : ℕ → ℕ → Ledger → RunEnd
  unfolding run_round compute_ready_batch
  run_batches zero size l = out_of_fuel
  run_batches (suc fuel) size l =
      let again = run_batches fuel size in
      if is_active l then ended true l else run_round again size (compute_ready_batch l.tickets) l
