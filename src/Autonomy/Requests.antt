-- ===== src/Autonomy/Requests.antt =====
-- The owner's requests and the emergency brake in src/autonomy/autonomy.service.ts.
use jin_core.Autonomy.Rules.{relax_decision-MayRelax, MayRelax}
use jin_core.Tools.Definition.{ToolDefinition}
use jin_core.Audit.Service.{append_row, record_tool_call}
use jin_core.Hitl.DualConfirm.{create_pending_approval}
use jin_core.Autonomy.Mode.{
  semi_auto, autonomy_ordinal, AutonomyMode, ModeRow, supervised, requires_dual_confirm,
}
use jin_core.Autonomy.Logic.{relaxed, AutonomyConfig, relax_decision, clamp_hours, limits_for}
use jin_core.Autonomy.Service.{
  audit_change, get_state, Change, state_of, relax, relax_with, brake, get_state,
  apply_restrictive_change, written_row, audit_guarded, announce, write_state, apply_change,
}
use jin_core.Autonomy.Owner.{ModeChangeResult, request_mode_change, request_by, ask_approval}
use jin_core.Autonomy.Changes.{Quiet, Quiet-run, audit_guarded-Quiet, announce-Quiet}
use jin_core.Autonomy.Counter.{hour_ms, bump_row, bump, bumped_count, write_row}
use jin_core.Runtime.Program.{
  ask, throw, catch, settle, Prog, Answer, ok, err, Error, ret, ◌>>=◌, ◌>>◌, clock, mode_select,
  circuit_breaker,
}
use jin_core.Runtime.World.{
  Host, World, run, respond, perform, Outcome, done, first_outcome, later_outcomes,
}
use jin_core.Runtime.Always.{Asks, Asks-bind}
use jin_core.Hitl.Levels.{HitlDecision}
use jin_core.Base.{
  [], ◌+◌, ◌≤◌, ◌∙◌, ap, arith, ◌≡◌, ◌<◌, ◌⊎◌, inl, inr, refl, true, false, Option, none, some,
  List, ◌∷◌, ℕ, String,
}

-- The requests that a human must approve, by the mode in force and the mode that is wanted: less
-- protection, or the same relaxed mode again.
pub data LowersProtection : AutonomyMode → AutonomyMode → Type 0 where
  to_semi_auto : LowersProtection supervised semi_auto
  to_auto : LowersProtection supervised AutonomyMode.auto
  on_to_auto : LowersProtection semi_auto AutonomyMode.auto
  semi_auto_again : LowersProtection semi_auto semi_auto
  auto_again : LowersProtection AutonomyMode.auto AutonomyMode.auto

lowers-requires : {m n : AutonomyMode} → LowersProtection m n → requires_dual_confirm m n ≡ true
unfolding requires_dual_confirm autonomy_ordinal
lowers-requires to_semi_auto = refl
lowers-requires to_auto = refl
lowers-requires on_to_auto = refl
lowers-requires semi_auto_again = refl
lowers-requires auto_again = refl

module _ (h : Host) where
  ask_approval-Quiet :
      (mode : AutonomyMode) (hours : ℕ) (requested_by : String)
      → Asks Quiet (ask_approval h mode hours requested_by)
  unfolding ask_approval create_pending_approval record_tool_call append_row
  ask_approval-Quiet mode hours requested_by = (
    refl,
    elim [
      | ok rid ↦ (
        refl,
        elim [
          | ok _ ↦ (
            refl,
            elim [
              | ok true ↦ tt
              | ok false ↦
                  (refl, elim [ ok _ ↦ (refl, elim [ ok _ ↦ tt | err _ ↦ tt ]) | err _ ↦ tt ])
              | err _ ↦ tt
            ],
          )
          | err _ ↦ tt
        ],
      )
      | err _ ↦ tt
    ],
  )

  -- the clock always answers, the row is read or the read fails
  clock_answers : (x : Outcome) (w : World) → respond h x clock w ≡ (ok w.now, w)
  unfolding respond perform
  clock_answers done w = refl
  clock_answers Outcome.failed w = refl
  clock_answers Outcome.lost w = refl

  row_or_error :
      (x : Outcome) (w : World)
      → (respond h x mode_select w ≡ (ok w.mode_row, w))
        ⊎ ((e : Error) × (respond h x mode_select w ≡ (err e, w)))
  unfolding respond perform
  row_or_error done w = inl refl
  row_or_error Outcome.failed w = inr (_, refl)
  row_or_error Outcome.lost w = inr (_, refl)

  module _ (config : AutonomyConfig) (mode : AutonomyMode) (hours : Option ℕ)
      (requested_by : String) where
    -- what `requestModeChange` does with the row as read
    abbrev decided : ℕ → Answer (Option ModeRow) → Prog ModeChangeResult
    decided now a = (settle a >>= λ row. ret (state_of now row)) >>= λ current.
        request_by h config (requires_dual_confirm current.mode mode) mode hours requested_by

    decided_waits :
        (script : List Outcome) (w : World)
        → requires_dual_confirm (state_of w.now w.mode_row).mode mode ≡ true
        → (run h script (decided w.now (ok w.mode_row)) w).1.mode_row ≡ w.mode_row
    unfolding request_by
    decided_waits script w lowers = rw lowers (
        Quiet-run h script
          (ask_approval h mode (clamp_hours hours (limits_for config mode)) requested_by) w
          (ask_approval-Quiet mode (clamp_hours hours (limits_for config mode)) requested_by))

    read_waits :
        (x : Outcome) (script : List Outcome) (w : World)
        → requires_dual_confirm (state_of w.now w.mode_row).mode mode ≡ true
        → (respond h x mode_select w ≡ (ok w.mode_row, w))
          ⊎ ((e : Error) × (respond h x mode_select w ≡ (err e, w)))
        → (run h script
            (decided w.now (respond h x mode_select w).0)
            (respond h x mode_select w).1).1.mode_row
          ≡ w.mode_row
    unfolding run
    read_waits x script w lowers (inl read) = rw read (decided_waits script w lowers)
    read_waits x script w lowers (inr (e, lost)) = rw lost refl

    -- A request for a mode with less protection than the one in force, or for the same relaxed mode again,
    -- leaves the stored mode as it is, under any script of failures.
    pub lower_protection_waits :
        (script : List Outcome) (w : World)
        → LowersProtection (state_of w.now w.mode_row).mode mode
        → (run h script (request_mode_change h config mode hours requested_by) w).1.mode_row
          ≡ w.mode_row
    unfolding request_mode_change get_state run
    lower_protection_waits script w lowers =
        let x = first_outcome (later_outcomes script) in
        ap
          (λ (q : Answer ℕ × World).
            (run h (later_outcomes script)
              (settle q.0 >>= λ now. get_state now >>= λ current.
                request_by h config (requires_dual_confirm current.mode mode) mode hours
                  requested_by)
              q.1).1.mode_row)
          (clock_answers (first_outcome script) w)
        ∙ read_waits x (later_outcomes (later_outcomes script)) w (lowers-requires lowers)
            (row_or_error x w)

  -- the brake's change, and how it ends
  abbrev pub brake_change : Change
  brake_change = record {
    mode = supervised;
    hours = 0;
    set_by = "system:circuit-breaker";
    reason = circuit_breaker;
    approval_request_id = none;
    audit_before_apply = false;
  }

  emitted_answers :
      {A : Type 0} (script : List Outcome) (now : ℕ) (previous : AutonomyMode) (a : A) (w : World)
      → (run h script (announce h now previous brake_change >> ret a) w).0 ≡ ok a
  unfolding announce run respond perform
  emitted_answers [] now previous a w = refl
  emitted_answers (done ∷ script) now previous a w = refl
  emitted_answers (Outcome.failed ∷ script) now previous a w = refl
  emitted_answers (Outcome.lost ∷ script) now previous a w = refl

  -- behind an audit entry that is caught, the event is emitted and the answer is given
  caught_answers :
      {A : Type 0} (script : List Outcome) (p : Prog (Unit {0})) (now : ℕ) (previous : AutonomyMode)
      (a : A) (w : World)
      → (run h script
          ((catch p (λ _. ret tt) >> announce h now previous brake_change) >> ret a)
          w).0
        ≡ ok a
  unfolding run
  caught_answers script (ret _) now previous a w = emitted_answers script now previous a w
  caught_answers script (throw _) now previous a w = emitted_answers script now previous a w
  caught_answers script (ask o k) now previous a w =
      let x = first_outcome script in
      caught_answers (later_outcomes script) (k (respond h x o w).0) now previous a
        (respond h x o w).1

  module _ (config : AutonomyConfig) (decision : HitlDecision) (tool : Option ToolDefinition)
      (script : List Outcome) (w : World) (row : ModeRow) where
    -- the row that the brake leaves
    abbrev tripped_row : ModeRow
    tripped_row = record {
      mode = "supervised";
      expires_at = none;
      set_by = "system:circuit-breaker";
      approval_request_id = none;
      changed_at = w.now;
      relaxed_count = 0;
      window_started_at = w.now;
    }

    abbrev stored_world : World
    stored_world = record w { mode_row = some row }

    abbrev bumped_world : World
    bumped_world = record w { mode_row = some (bump_row w.now row) }

    to_relax :
        run h
          (done ∷ done ∷ done ∷ done ∷ done ∷ done ∷ script)
          (relax h config decision tool)
          stored_world
        ≡ run h
            (done ∷ done ∷ done ∷ done ∷ script)
            (relax_with h config decision
              (relax_decision decision (state_of w.now (some row)).mode tool))
            stored_world
    unfolding relax get_state run respond perform
    to_relax = refl

    to_brake :
        (relaxed : HitlDecision)
        → run h
            (done ∷ done ∷ done ∷ done ∷ script)
            (relax_with h config decision (some relaxed))
            stored_world
          ≡ run h
              (done ∷ done ∷ done ∷ script)
              (brake h config decision relaxed (bump_row w.now row).relaxed_count)
              bumped_world
    unfolding relax_with run respond perform bump bumped_count
    to_brake relaxed = refl

    counted :
        w.now ≤ row.window_started_at + hour_ms
        → config.max_relaxed_actions_per_hour ≤ row.relaxed_count
        → config.max_relaxed_actions_per_hour < (bump_row w.now row).relaxed_count
    unfolding bump_row
    counted same_hour many = ground arith

    to_change :
        (relaxed : HitlDecision)
        → config.max_relaxed_actions_per_hour < (bump_row w.now row).relaxed_count
        → brake h config decision relaxed (bump_row w.now row).relaxed_count ≡ (
            apply_restrictive_change h supervised "system:circuit-breaker" circuit_breaker 0
            >> ret decision)
    unfolding brake
    to_change relaxed many = ground arith

    changed :
        (run h
          (done ∷ done ∷ done ∷ script)
          (apply_restrictive_change h supervised "system:circuit-breaker" circuit_breaker 0
            >> ret decision)
          bumped_world).1.mode_row
        ≡ some (written_row w.now brake_change)
    unfolding apply_restrictive_change write_state get_state apply_change run respond perform
        write_row
    changed =
        let previous = (state_of w.now (some (bump_row w.now row))).mode in
        let tail =
          audit_guarded h w.now previous brake_change >> announce h w.now previous brake_change in
        Quiet-run h script (tail >> ret decision)
          (record w { mode_row = some (written_row w.now brake_change) })
          (Asks-bind Quiet tail (λ _. ret decision)
            (Asks-bind Quiet (audit_guarded h w.now previous brake_change)
              (λ _. announce h w.now previous brake_change)
              (audit_guarded-Quiet h w.now previous brake_change refl)
              (λ _. announce-Quiet h w.now previous brake_change))
            (λ _. tt))

    answered :
        (run h
          (done ∷ done ∷ done ∷ script)
          (apply_restrictive_change h supervised "system:circuit-breaker" circuit_breaker 0
            >> ret decision)
          bumped_world).0
        ≡ ok decision
    unfolding apply_restrictive_change write_state get_state apply_change run respond perform
        write_row audit_guarded
    answered =
        let previous = (state_of w.now (some (bump_row w.now row))).mode in
        caught_answers script (audit_change h w.now previous brake_change) w.now previous decision
          (record w { mode_row = some (written_row w.now brake_change) })

    to_restrict :
        w.mode_row ≡ some row
        → MayRelax decision (state_of w.now (some row)).mode tool
        → w.now ≤ row.window_started_at + hour_ms
        → config.max_relaxed_actions_per_hour ≤ row.relaxed_count
        → run h (done ∷ done ∷ done ∷ done ∷ done ∷ done ∷ script) (relax h config decision tool) w
          ≡ run h
              (done ∷ done ∷ done ∷ script)
              (apply_restrictive_change h supervised "system:circuit-breaker" circuit_breaker 0
                >> ret decision)
              bumped_world
    to_restrict stored may same_hour many =
        let as_relaxed = relaxed decision (state_of w.now (some row)).mode in
        ap
          (λ m.
            run h (done ∷ done ∷ done ∷ done ∷ done ∷ done ∷ script) (relax h config decision tool)
              (record w { mode_row = m }))
          stored
        ∙ to_relax
        ∙ ap
            (λ r.
              run h (done ∷ done ∷ done ∷ done ∷ script) (relax_with h config decision r)
                stored_world)
            ((relax_decision-MayRelax decision (state_of w.now (some row)).mode tool).1 may)
        ∙ to_brake as_relaxed
        ∙ ap (λ p. run h (done ∷ done ∷ done ∷ script) p bumped_world)
            (to_change as_relaxed (counted same_hour many))

    -- When the mode in force by the stored row would relax a decision, but the row's window of an hour is
    -- not over and its count of relaxed actions has reached the limit, then, once the questions up to the
    -- write of the mode are answered, and whatever happens to the audit entry and the event behind it,
    -- the decision is answered as it was, not relaxed, and the stored mode is supervised with a count of 0.
    pub brake_trips :
        w.mode_row ≡ some row
        → MayRelax decision (state_of w.now (some row)).mode tool
        → w.now ≤ row.window_started_at + hour_ms
        → config.max_relaxed_actions_per_hour ≤ row.relaxed_count
        → let e =
            run h
              (done ∷ done ∷ done ∷ done ∷ done ∷ done ∷ script)
              (relax h config decision tool)
              w in
          (e.0 ≡ ok decision) × (e.1.mode_row ≡ some tripped_row)
    brake_trips stored may same_hour many =
        let same = to_restrict stored may same_hour many in
        (ap (λ e. e.0) same ∙ answered, ap (λ e. e.1.mode_row) same ∙ changed)
