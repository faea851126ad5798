-- ===== src/Hitl/Pending.antt =====
-- The table `pending_approvals` (src/db/schema.ts) and the statements that
-- src/hitl/dual-confirm.service.ts and src/hitl/timeout.service.ts send to it, each as one function
-- on the list of rows: a statement is atomic in the database. `request_id` is the primary key.
use jin_core.Base.{
  ℕ, ◌*◌, String, Bool, ◌&&◌, ◌||◌, Option, none, some, List, [], ◌∷◌, ◌++◌, str_eq, ltb,
  if◌then◌else◌, is_none, any, find,
}
use jin_core.Hitl.Payload.{Payload}

pub record Row : Type 0 where
  pub request_id : String
  pub tool_name : String
  pub level : String
  pub inputs_hash : String
  pub plan_summary : Option String
  pub actor : Option String
  pub external_inputs_summary : Option String
  pub payload : Option Payload
  pub created_at : ℕ
  pub first_approved_at : Option ℕ
  pub first_approver : Option String
  pub available_at : Option ℕ
  pub escalated_at : Option ℕ
  pub executing_at : Option ℕ
  pub execution_error : Option String

abbrev pub Table : Type 0
Table = List Row

-- `eq(pendingApprovals.requestId, requestId)`
abbrev pub has_id : String → Row → Bool
has_id rid r = str_eq r.request_id rid

-- `UPDATE ... SET f WHERE p`
unfoldable pub update_where : (Row → Bool) → (Row → Row) → Table → Table
update_where p f [] = []
update_where p f (r ∷ t) = (if p r then f r else r) ∷ update_where p f t

-- the rows that `RETURNING` gives back
unfoldable pub returning_where : (Row → Bool) → (Row → Row) → Table → List Row
returning_where p f [] = []
returning_where p f (r ∷ t) = let rest = returning_where p f t in if p r then f r ∷ rest else rest

-- `DELETE ... WHERE p`
unfoldable pub delete_where : (Row → Bool) → Table → Table
delete_where p [] = []
delete_where p (r ∷ t) = let rest = delete_where p t in if p r then rest else r ∷ rest

-- `getPending`
unfoldable pub select : String → Table → Option Row
select rid t = find (has_id rid) t

-- `none` when the key is taken
unfoldable pub insert : Row → Table → Option Table
insert r t = if any (has_id r.request_id) t then none else some (t ++ r ∷ [])

abbrev pub awaits_first : String → Row → Bool
awaits_first rid r = has_id rid r && is_none r.first_approved_at

abbrev pub approve_first : String → ℕ → ℕ → Row → Row
approve_first approver now available r = record r {
  first_approved_at = some now;
  first_approver = some approver;
  available_at = some available;
}

abbrev pub is_open : String → Row → Bool
is_open rid r = has_id rid r && is_none r.executing_at

abbrev pub claim_row : ℕ → Row → Row
claim_row now r = record r { executing_at = some now; execution_error = none }

abbrev pub release_row : Option String → Row → Row
release_row e r = record r { executing_at = none; execution_error = e }

abbrev pub escalate_row : ℕ → Row → Row
escalate_row now r = record r { escalated_at = some now }

abbrev pub stuck_claim_after_ms : ℕ
stuck_claim_after_ms = 15 * 60 * 1000

-- `executing_at < stuckBefore`, which a NULL does not satisfy
abbrev pub claimed_before : ℕ → Option ℕ → Bool
claimed_before stuck_before none = Bool.false
claimed_before stuck_before (some t) = ltb t stuck_before

-- the condition of `removeIfNotExecuting`
abbrev pub is_idle_or_stuck : String → ℕ → Row → Bool
is_idle_or_stuck rid stuck_before r =
    has_id rid r && (is_none r.executing_at || claimed_before stuck_before r.executing_at)
