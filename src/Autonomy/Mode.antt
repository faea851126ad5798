-- ===== src/Autonomy/Mode.antt =====
-- src/autonomy/autonomy.types.ts and the table `autonomy_mode_state` of src/db/schema.ts.
use jin_core.Base.{
  ℕ, ◌≡◌, refl, String, Bool, true, false, not, ◌&&◌, Option, none, some, str_eq, leb,
  if◌then◌else◌,
}

-- in increasing order of freedom
pub data AutonomyMode : Type 0 where
  supervised semi_auto auto : AutonomyMode

-- `autonomyOrdinal`
unfoldable pub autonomy_ordinal : AutonomyMode → ℕ
autonomy_ordinal supervised = 0
autonomy_ordinal semi_auto = 1
autonomy_ordinal auto = 2

abbrev pub is_supervised : AutonomyMode → Bool
is_supervised supervised = true
is_supervised _ = false

abbrev pub is_semi_auto : AutonomyMode → Bool
is_semi_auto semi_auto = true
is_semi_auto _ = false

unfoldable pub requires_dual_confirm : AutonomyMode → AutonomyMode → Bool
unfolding autonomy_ordinal
requires_dual_confirm current target =
    not (is_supervised target) && leb (autonomy_ordinal current) (autonomy_ordinal target)

abbrev pub mode_text : AutonomyMode → String
mode_text supervised = "supervised"
mode_text semi_auto = "semi-auto"
mode_text auto = "auto"

-- `AutonomyModeSchema.safeParse`
unfoldable pub parse_mode : String → Option AutonomyMode
parse_mode s =
    if str_eq s "supervised"
    then some supervised
    else if str_eq s "semi-auto"
    then some semi_auto
    else if str_eq s "auto"
    then some auto
    else none

-- the row with the fixed id 1
pub record ModeRow : Type 0 where
  pub mode : String
  pub expires_at : Option ℕ
  pub set_by : String
  pub approval_request_id : Option String
  pub changed_at : ℕ
  pub relaxed_count : ℕ
  pub window_started_at : ℕ

-- `AutonomyState`: the mode in force now
pub record AutonomyState : Type 0 where
  pub mode : AutonomyMode
  pub expires_at : Option ℕ
  pub set_by : String
  pub changed_at : ℕ

pub parse_mode-mode_text : (m : AutonomyMode) → parse_mode (mode_text m) ≡ some m
unfolding parse_mode
parse_mode-mode_text supervised = refl
parse_mode-mode_text semi_auto = refl
parse_mode-mode_text auto = refl
