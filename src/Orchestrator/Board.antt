-- ===== src/Orchestrator/Board.antt =====
-- src/agent/orchestrator.types.ts: the tickets of a run, and the updates of one ticket by its id.
use jin_core.Base.{
  [], ◌∷◌, count, not, filter, ◌++◌, ℕ, String, Bool, true, false, Option, none, some, List, map,
  str_eq, if◌then◌else◌,
}

pub data TicketStatus : Type 0 where
  pending in_progress done failed blocked : TicketStatus

abbrev pub is_pending : TicketStatus → Bool
is_pending pending = true
is_pending _ = false

pub record Ticket : Type 0 where
  pub id : String
  pub run_id : String
  pub description : String
  pub status : TicketStatus
  pub assigned_sub_agent_id : Option String
  pub allowed_tools : List String
  pub depends_on : List String
  pub result : Option String

pub data RiskLevel : Type 0 where
  low material : RiskLevel

pub record ReconciliationConflict : Type 0 where
  pub ticket_ids : List String
  pub summary : String
  pub risk_level : RiskLevel
  pub proposed_resolution : String

pub data RunStatus : Type 0 where
  running run_blocked run_done run_failed killed : RunStatus

abbrev pub waits : Ticket → Bool
waits t = is_pending t.status

-- `UPDATE agent_tickets SET ... WHERE id = ...`, with the result when there is one
abbrev pub with_status : String → TicketStatus → Option String → Ticket → Ticket
with_status id s none t = if str_eq t.id id then record t { status = s } else t
with_status id s (some r) t = if str_eq t.id id then record t { status = s; result = some r } else t

unfoldable pub update_ticket_status :
    String → TicketStatus → Option String → List Ticket → List Ticket
update_ticket_status id s r board = map (with_status id s r) board

-- `assignSubAgent`
abbrev pub with_sub_agent : String → String → Ticket → Ticket
with_sub_agent id agent t =
    if str_eq t.id id then record t { assigned_sub_agent_id = some agent } else t

unfoldable pub assign_sub_agent : String → String → List Ticket → List Ticket
assign_sub_agent id agent board = map (with_sub_agent id agent) board

abbrev pub is_done_sibling : String → Ticket → Bool
is_done_sibling id t = elim t.status [ done ↦ not (str_eq t.id id) | _ ↦ false ]

-- `getCompletedSiblings`
unfoldable pub get_completed_siblings : String → List Ticket → List Ticket
get_completed_siblings id board = filter (is_done_sibling id) board

pub data AuthorType : Type 0 where
  orchestrator sub_agent owner : AuthorType

-- `answer` is 'result'
pub data CommentKind : Type 0 where
  note answer conflict resolution : CommentKind

pub record TicketComment : Type 0 where
  pub ticket_id : String
  pub author_type : AuthorType
  pub author_id : Option String
  pub kind : CommentKind
  pub body : String

-- the tickets and the comments of a run
pub record Ledger : Type 0 where
  pub tickets : List Ticket
  pub comments : List TicketComment

unfoldable pub add_comment : TicketComment → Ledger → Ledger
add_comment c l = record l { comments = l.comments ++ c ∷ [] }

-- how many tickets have not started
abbrev pub waiting : Ledger → ℕ
waiting l = count waits l.tickets
