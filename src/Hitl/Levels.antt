-- ===== src/Hitl/Levels.antt =====
-- src/hitl/types.ts: the four levels in increasing order of restriction, and a tool call's decision.
use jin_core.Base.{
  ℕ, ◌≡◌, ◌≤◌, refl, String, Bool, true, false, Option, none, some, str_eq, if◌then◌else◌, arith,
}

pub data HitlLevel : Type 0 where
  auto notify confirm dual_confirm : HitlLevel

-- `hitlLevelOrdinal`: the index in `HITL_LEVELS`
unfoldable pub hitl_level_ordinal : HitlLevel → ℕ
hitl_level_ordinal auto = 0
hitl_level_ordinal notify = 1
hitl_level_ordinal confirm = 2
hitl_level_ordinal dual_confirm = 3

unfoldable pub approvals_required_for : HitlLevel → ℕ
approvals_required_for auto = 0
approvals_required_for notify = 0
approvals_required_for confirm = 1
approvals_required_for dual_confirm = 2

-- `level === 'notify'` and the other tests on a level
abbrev pub is_level : HitlLevel → HitlLevel → Bool
is_level auto auto = true
is_level notify notify = true
is_level confirm confirm = true
is_level dual_confirm dual_confirm = true
is_level _ _ = false

pub record HitlDecision : Type 0 where
  pub request_id : String
  pub tool_name : String
  pub level : HitlLevel
  pub approvals_required : ℕ
  pub notify_after_execution : Bool
  pub relaxed_by : Option String

-- `PendingApprovalLevelSchema`: the two levels that wait for a human
pub data PendingLevel : Type 0 where
  confirm_once confirm_twice : PendingLevel

-- `z.enum(['confirm', 'dual-confirm']).parse`; `none` is the ZodError
unfoldable pub parse_level : String → Option PendingLevel
parse_level s =
    if str_eq s "confirm"
    then some confirm_once
    else if str_eq s "dual-confirm"
    then some confirm_twice
    else none

abbrev pub level_text : PendingLevel → String
level_text confirm_once = "confirm"
level_text confirm_twice = "dual-confirm"

pub parse_level-level_text : (l : PendingLevel) → parse_level (level_text l) ≡ some l
unfolding parse_level
parse_level-level_text confirm_once = refl
parse_level-level_text confirm_twice = refl

-- A stricter level never asks for fewer approvals.
pub approvals_required_for_mono :
    (a b : HitlLevel)
    → hitl_level_ordinal a ≤ hitl_level_ordinal b
    → approvals_required_for a ≤ approvals_required_for b
unfolding hitl_level_ordinal approvals_required_for
approvals_required_for_mono a b h = ground arith
