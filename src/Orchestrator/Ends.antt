-- ===== src/Orchestrator/Ends.antt =====
-- Why the loop of batches ends: each round leaves fewer tickets pending.
use jin_core.Base.{
  ltb, length, if◌then◌else◌, ℕ, zero, suc, ◌≤◌, ◌<◌, ◌≡◌, refl, String, Bool, true, false, Option,
  none, some, List, [], ◌∷◌, count, any, filter, ◌&&◌, arith, str_eq, str_eq_refl, Bool-cases, inl,
  inr,
}
use jin_core.Orchestrator.Board.{
  get_completed_siblings, add_comment, waiting, assign_sub_agent, Ledger, Ticket, TicketStatus,
  in_progress, done, failed, blocked, is_pending, waits, update_ticket_status,
}
use jin_core.Orchestrator.Logic.{compute_ready_batch, is_ready, chunk, chunks, take, drop}
use jin_core.Orchestrator.Batches.{
  set_status, start_ticket, run_sub_agent_for_ticket, Turn, answered, turn_failed, turn_killed,
  RunEnd, ended, finish_ticket, run_chunk, run_chunks, next_round, run_ready, run_round,
  run_batches,
}

-- whether a pending ticket of that id is on the board
abbrev is_it : String → Ticket → Bool
is_it id x = waits x && str_eq x.id id

update-count :
    (id : String) (s : TicketStatus) (r : Option String) (board : List Ticket)
    → is_pending s ≡ false
    → count waits (update_ticket_status id s r board) ≤ count waits board
unfolding update_ticket_status
update-count id s r [] not_pending = omega arith
update-count id s none (t ∷ board) not_pending =
    ground (arith, update-count id s none board not_pending)
update-count id s (some x) (t ∷ board) not_pending =
    ground (arith, update-count id s (some x) board not_pending)

started-count :
    (id : String) (board : List Ticket)
    → any (is_it id) board ≡ true
    → count waits (update_ticket_status id in_progress none board) < count waits board
unfolding update_ticket_status
started-count id [] on = absurd (cc)
started-count id (t ∷ board) on = elim (Bool-cases (is_it id t)) [
  | inl here ↦ ground (arith, update-count id in_progress none board refl)
  | inr there ↦ ground (arith, started-count id board)
]

assign-count :
    (id agent : String) (board : List Ticket)
    → count waits (assign_sub_agent id agent board) ≤ count waits board
unfolding assign_sub_agent
assign-count id agent [] = omega arith
assign-count id agent (t ∷ board) = ground (arith, assign-count id agent board)

module _ (turn : Ticket → List Ticket → Turn) where
  finish-count :
      (x : Turn) (id : String) (board : Ledger)
      → waiting (finish_ticket x id board).1 ≤ waiting board
  unfolding finish_ticket set_status add_comment
  finish-count (answered text true) id board =
      update-count id blocked (some text) board.tickets refl
  finish-count (answered text false) id board = update-count id done (some text) board.tickets refl
  finish-count (turn_failed message) id board = update-count id failed none board.tickets refl
  finish-count turn_killed id board = omega arith

  start-count : (id : String) (board : Ledger) → waiting (start_ticket id board) ≤ waiting board
  unfolding start_ticket set_status
  start-count id board = omega (
    arith,
    update-count id in_progress none board.tickets refl,
    assign-count id id (update_ticket_status id in_progress none board.tickets),
  )

  start-fewer :
      (id : String) (board : Ledger)
      → any (is_it id) board.tickets ≡ true
      → waiting (start_ticket id board) < waiting board
  unfolding start_ticket set_status
  start-fewer id board on = omega (
    arith,
    started-count id board.tickets on,
    assign-count id id (update_ticket_status id in_progress none board.tickets),
  )

  ticket-count :
      (t : Ticket) (board : Ledger)
      → waiting (run_sub_agent_for_ticket turn t board).1 ≤ waiting (start_ticket t.id board)
  unfolding run_sub_agent_for_ticket
  ticket-count t board =
      let started = start_ticket t.id board in
      finish-count (turn t (get_completed_siblings t.id started.tickets)) t.id started

  chunk-count :
      (ts : List Ticket) (board : Ledger) → waiting (run_chunk turn ts board).1 ≤ waiting board
  unfolding run_chunk
  chunk-count [] board = omega arith
  chunk-count (t ∷ ts) board = omega (
    arith,
    start-count t.id board,
    ticket-count t board,
    chunk-count ts (run_sub_agent_for_ticket turn t board).1,
  )

  -- the first ticket of a round is pending when its turn comes
  first-count :
      (t : Ticket) (ts : List Ticket) (board : Ledger)
      → any (is_it t.id) board.tickets ≡ true
      → waiting (run_chunk turn (t ∷ ts) board).1 < waiting board
  unfolding run_chunk
  first-count t ts board on = omega (
    arith,
    start-fewer t.id board on,
    ticket-count t board,
    chunk-count ts (run_sub_agent_for_ticket turn t board).1,
  )

  killed_or_next :
      (killed : Bool) (next : Ledger) (after : Bool × Ledger) (n : ℕ)
      → waiting next ≤ n
      → waiting after.1 ≤ n
      → waiting (if killed then (true, next) else after).1 ≤ n
  killed_or_next true next after n here there = here
  killed_or_next false next after n here there = there

  chunks-count :
      (batches : List (List Ticket)) (board : Ledger)
      → waiting (run_chunks turn batches board).1 ≤ waiting board
  unfolding run_chunks
  chunks-count [] board = omega arith
  chunks-count (batch ∷ rest) board =
      let next = (run_chunk turn batch board).1 in
      killed_or_next (run_chunk turn batch board).0 next (run_chunks turn rest next) (waiting board)
        (chunk-count batch board) (omega (arith, chunk-count batch board, chunks-count rest next))

  -- a round with a pending ticket at its head leaves fewer pending
  round-count :
      (t : Ticket) (ts : List Ticket) (rest : List (List Ticket)) (board : Ledger)
      → any (is_it t.id) board.tickets ≡ true
      → waiting (run_chunks turn ((t ∷ ts) ∷ rest) board).1 < waiting board
  unfolding run_chunks
  round-count t ts rest board on =
      let next = (run_chunk turn (t ∷ ts) board).1 in
      let fewer = first-count t ts board on in
      omega (
        arith,
        fewer,
        killed_or_next (run_chunk turn (t ∷ ts) board).0 next (run_chunks turn rest next)
            (waiting next) (omega arith) (chunks-count rest next),
      )

ready_waits :
    (all : List Ticket) (board : List Ticket) (t : Ticket) (ts : List Ticket)
    → filter (is_ready all) board ≡ t ∷ ts
    → any (is_it t.id) board ≡ true
unfolding is_ready
ready_waits all [] t ts e = absurd (cc)
ready_waits all (x ∷ board) t ts e = elim (Bool-cases (is_ready all x)) [
  | inl ready ↦ ground (arith, str_eq_refl t.id)
  | inr not_ready ↦ ground (arith, ready_waits all board t ts)
]

abbrev Ends : RunEnd → Type 0
Ends e = (by_kill : Bool) × (board : Ledger) × (e ≡ ended by_kill board)

next-Ends :
    (again : Ledger → RunEnd) (n : ℕ)
    → ((b : Ledger) → waiting b < n → Ends (again b))
    → (p : Bool × Ledger) → waiting p.1 < n
    → Ends (next_round again p)
unfolding next_round
next-Ends again n ih (true, board) fewer = (true, board, refl)
next-Ends again n ih (false, board) fewer = ih board fewer

ltb_one : (n : ℕ) → ltb (suc n) 1 ≡ false
ltb_one n = ground arith

module _ (turn : Ticket → List Ticket → Turn) (is_active : Ledger → Bool) where
  round-Ends :
      (again : Ledger → RunEnd) (fuel size : ℕ) (ready : List Ticket) (board : Ledger)
      → ((b : Ledger) → waiting b < fuel → Ends (again b))
      → compute_ready_batch board.tickets ≡ ready
      → 1 ≤ size
      → waiting board < suc fuel
      → Ends (run_round turn is_active again size ready board)
  unfolding run_round run_ready chunk chunks compute_ready_batch
  round-Ends again fuel size [] board ih e one enough = (false, board, refl)
  round-Ends again fuel zero (t ∷ ts) board ih e one enough = absurd (omega arith)
  round-Ends again fuel (suc size) (t ∷ ts) board ih e one enough = rw (ltb_one size) (
      next-Ends again fuel ih
        (run_chunks turn ((t ∷ take size ts) ∷ chunks (length ts) (suc size) (drop size ts)) board)
        (omega (
          arith,
          round-count turn t (take size ts) (chunks (length ts) (suc size) (drop size ts)) board
              (ready_waits board.tickets board.tickets t ts e),
        )))

  -- The loop over batches ends, by the kill switch or with nothing ready, when it is given one round more
  -- than there are pending tickets, for any turns of the sub-agents and a chunk size of at least one.
  pub run_batches_ends :
      (fuel size : ℕ) (board : Ledger)
      → 1 ≤ size
      → waiting board < fuel
      → (by_kill : Bool) × (end : Ledger) × (run_batches turn is_active fuel size board
          ≡ ended by_kill end)
  unfolding run_batches
  run_batches_ends zero size board one enough = absurd (omega arith)
  run_batches_ends (suc fuel) size board one enough = elim (Bool-cases (is_active board)) [
    | inl active ↦ (true, board, rw active refl)
    | inr inactive ↦
        let rounds = (λ (b : Ledger) (h : waiting b < fuel). run_batches_ends fuel size b one h) in
        let (by_kill, end, e) =
          round-Ends (run_batches turn is_active fuel size) fuel size
            (compute_ready_batch board.tickets) board rounds refl one enough in
        (by_kill, end, rw inactive e)
  ]
