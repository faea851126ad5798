-- ===== src/Hitl/Payload.antt =====
-- What an approval carries for its executor (`pending_approvals.payload`, typed `unknown`): the two
-- shapes that the repository builds itself, and the JSON text of any other tool's arguments.
use jin_core.Base.{ℕ, String}
use jin_core.Hitl.Levels.{HitlLevel}

pub data Payload : Type 0 where
  arguments : String → Payload
  -- `FeatureFlagHitlOverridePayload`
  level_override : String → HitlLevel → Payload
  -- `ApprovedChangePayloadSchema`: mode, hours, the approval's id
  mode_change : String → ℕ → String → Payload
