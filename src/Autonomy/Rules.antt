-- ===== src/Autonomy/Rules.antt =====
-- The rules of src/autonomy/autonomy.logic.ts and of the mode in force (`getState`).
use jin_core.Autonomy.Mode.{AutonomyMode, supervised, semi_auto, auto, ModeRow, parse_mode}
use jin_core.Autonomy.Logic.{
  ModeLimits, relax_decision, relaxed, clamp_hours, decides_for_human, is_guarded,
}
use jin_core.Autonomy.Service.{Change, written_row, state_of, state_of_mode, unless_expired}
use jin_core.Autonomy.Counter.{hour_ms}
use jin_core.Hitl.Levels.{HitlDecision, confirm, is_level}
use jin_core.Tools.Definition.{ToolDefinition}
use jin_core.Base.{
  ℕ, ◌≡◌, ◌≢◌, ◌≤◌, ◌<◌, ◌+◌, ◌*◌, refl, true, false, Option, none, some, arith, ◌↔◌,
}

-- the condition under which a mode relaxes a decision
abbrev pub MayRelax : HitlDecision → AutonomyMode → Option ToolDefinition → Type 0
MayRelax d supervised tool = ⊥
MayRelax d semi_auto tool =
    (is_level d.level confirm ≡ true) × (decides_for_human tool ≡ false) × (is_guarded tool ≡ false)
MayRelax d auto tool = (is_level d.level confirm ≡ true) × (decides_for_human tool ≡ false)

-- A mode relaxes a decision exactly when the decision is at `confirm`, the tool does not decide for a
-- human, and the mode is auto, or semi-auto with a tool that is not guarded; the result is at `notify`.
pub relax_decision-MayRelax :
    (d : HitlDecision) (mode : AutonomyMode) (tool : Option ToolDefinition)
    → (relax_decision d mode tool ≡ some (relaxed d mode)) ↔ MayRelax d mode tool
unfolding relax_decision
relax_decision-MayRelax d supervised tool = (λ e. absurd (cc), λ e. absurd e)
relax_decision-MayRelax d semi_auto tool = ground arith
relax_decision-MayRelax d auto tool = ground arith

-- The bound on the hours holds for any request: at least one, at most the maximum of the configuration.
pub clamp_hours_bounds :
    (requested : Option ℕ) (limits : ModeLimits)
    → 1 ≤ limits.max_hours
    → (1 ≤ clamp_hours requested limits) × (clamp_hours requested limits ≤ limits.max_hours)
unfolding clamp_hours
clamp_hours_bounds requested limits h = (omega arith, omega arith)

fresh_until :
    (now : ℕ) (m : AutonomyMode) (row : ModeRow) (x : Option ℕ)
    → (unless_expired now m row x).mode ≢ supervised
    → (t : ℕ) × (x ≡ some t) × (now < t) × (some m ≡ some (unless_expired now m row x).mode)
fresh_until now m row none free = absurd (free refl)
fresh_until now m row (some t) free = (t, refl, ground arith, ground arith)

fresh_row :
    (now : ℕ) (row : ModeRow) (o : Option AutonomyMode)
    → (state_of_mode now row o).mode ≢ supervised
    → (t : ℕ) × (row.expires_at ≡ some t) × (now < t) × (o ≡ some (state_of_mode now row o).mode)
fresh_row now row none free = absurd (free refl)
fresh_row now row (some supervised) free = absurd (free refl)
fresh_row now row (some semi_auto) free = fresh_until now semi_auto row row.expires_at free
fresh_row now row (some auto) free = fresh_until now auto row row.expires_at free

-- A mode in force other than supervised stands in a stored row that names it and has not expired.
pub state_of_fresh :
    (now : ℕ) (stored : Option ModeRow)
    → (state_of now stored).mode ≢ supervised
    → (row : ModeRow) × (t : ℕ) × (stored ≡ some row)
      × (row.expires_at ≡ some t)
      × (now < t)
      × (parse_mode row.mode ≡ some (state_of now stored).mode)
unfolding state_of
state_of_fresh now none free = absurd (free refl)
state_of_fresh now (some row) free =
    let (t, e, l, m) = fresh_row now row (parse_mode row.mode) free in (row, t, refl, e, l, m)

lasts :
    (m : AutonomyMode) (c : Change) (now later : ℕ)
    → let row = some (written_row now (record c { mode = m })) in
      (later < now + c.hours * hour_ms → (state_of later row).mode ≡ m)
      × (now + c.hours * hour_ms ≤ later → (state_of later row).mode ≡ supervised)
unfolding state_of parse_mode
lasts supervised c now later = (λ _. refl, λ _. refl)
lasts semi_auto c now later = (λ h. ground arith, λ h. ground arith)
lasts auto c now later = (λ h. ground arith, λ h. ground arith)

-- A mode that a change wrote is in force until its hours are over, and from then on it is supervised.
pub written_mode_lasts :
    (c : Change) (now later : ℕ)
    → (later < now + c.hours * hour_ms → (state_of later (some (written_row now c))).mode ≡ c.mode)
      × (now + c.hours * hour_ms ≤ later
          → (state_of later (some (written_row now c))).mode ≡ supervised)
written_mode_lasts c now later = lasts c.mode c now later
