-- ===== src/Autonomy/Counter.antt =====
-- The statements on the row of `autonomy_mode_state` (src/autonomy/autonomy.service.ts): the write of
-- a mode and the count of relaxed actions in a window of an hour. There is one row at most.
use jin_core.Base.{ℕ, ◌+◌, ◌*◌, Option, none, some, ltb, if◌then◌else◌}
use jin_core.Autonomy.Mode.{ModeRow}

abbrev pub hour_ms : ℕ
hour_ms = 60 * 60 * 1000

-- `UPDATE ... SET <every column> WHERE id = 1`
unfoldable pub write_row : ModeRow → Option ModeRow → Option ModeRow
write_row new none = none
write_row new (some _) = some new

-- the two `CASE` expressions of `bumpRelaxedCounter`: `windowStartedAt < now() - interval '1 hour'`
unfoldable pub bump_row : ℕ → ModeRow → ModeRow
bump_row now r =
    if ltb (r.window_started_at + hour_ms) now
    then record r { relaxed_count = 1; window_started_at = now }
    else record r { relaxed_count = r.relaxed_count + 1 }

-- the same `UPDATE` on the table, and what its `RETURNING` gives
unfoldable pub bump : ℕ → Option ModeRow → Option ModeRow
unfolding bump_row
bump now none = none
bump now (some r) = some (bump_row now r)

unfoldable pub bumped_count : Option ModeRow → Option ℕ
bumped_count none = none
bumped_count (some r) = some r.relaxed_count
