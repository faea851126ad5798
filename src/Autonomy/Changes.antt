-- ===== src/Autonomy/Changes.antt =====
-- What a change of mode in src/autonomy/autonomy.service.ts leaves of the row: a change to a stricter mode is in force even when the audit log refuses it.
use jin_core.Autonomy.Counter.{write_row}
use jin_core.Audit.Service.{append_row, record_tool_call}
use jin_core.Autonomy.Mode.{AutonomyMode, ModeRow}
use jin_core.Autonomy.Service.{
  Change, write_state, apply_change, audit_change, audit_guarded, announce, written_row, state_of,
  get_state, apply_restrictive_change,
}
use jin_core.Runtime.Program.{
  ChangeReason, pending_insert, Op, Prog, ok, err, mode_update, mode_bump, ret, ◌>>◌,
}
use jin_core.Runtime.World.{Host, World, run, respond, respond_keeps, perform, Outcome, done}
use jin_core.Runtime.Always.{Asks, Asks-bind, Asks-catch, run_Asks}
use jin_core.Base.{arith, ◌∙◌, ◌≡◌, refl, Bool, true, false, none, some, List, ◌∷◌, ℕ, String}

-- whether a question writes or counts in the row of the mode
abbrev pub writes_mode : Op → Bool
writes_mode (mode_update _) = true
writes_mode mode_bump = true
writes_mode _ = false

abbrev pub Quiet : Op → Type 0
Quiet o = writes_mode o ≡ false

module _ (h : Host) where
  pub Quiet-perform : (o : Op) (w : World) → Quiet o → (perform h o w).1.mode_row ≡ w.mode_row
  unfolding perform
  Quiet-perform (mode_update _) w q = absurd (cc)
  Quiet-perform mode_bump w q = absurd (cc)
  Quiet-perform (pending_insert r) w q = ground arith
  Quiet-perform o w q = refl

  -- a program that asks no such question leaves the row as it is
  pub Quiet-run :
      {A : Type 0} (script : List Outcome) (p : Prog A) (w : World)
      → Asks Quiet p
      → (run h script p w).1.mode_row ≡ w.mode_row
  Quiet-run script p w d =
      run_Asks Quiet h (λ v. v.mode_row ≡ w.mode_row)
        (λ x o v q i.
          respond_keeps h (λ u. u.mode_row ≡ w.mode_row) x o v i (Quiet-perform o v q ∙ i))
        script p w d refl

  -- the entry of a change that needs no approval
  audit_change-Quiet :
      (now : ℕ) (previous : AutonomyMode) (c : Change)
      → c.approval_request_id ≡ none
      → Asks Quiet (audit_change h now previous c)
  unfolding audit_change record_tool_call append_row
  audit_change-Quiet now previous c given = rw given (
    refl,
    elim [
      | ok rid ↦ (
        refl,
        elim [ ok true ↦ tt | ok false ↦ (refl, elim [ ok _ ↦ tt | err _ ↦ tt ]) | err _ ↦ tt ],
      )
      | err _ ↦ tt
    ],
  )

  pub audit_guarded-Quiet :
      (now : ℕ) (previous : AutonomyMode) (c : Change)
      → c.approval_request_id ≡ none
      → Asks Quiet (audit_guarded h now previous c)
  unfolding audit_guarded
  audit_guarded-Quiet now previous c given =
      Asks-catch Quiet (audit_change h now previous c) (λ _. ret tt)
        (audit_change-Quiet now previous c given) (λ _. tt)

  pub announce-Quiet :
      (now : ℕ) (previous : AutonomyMode) (c : Change) → Asks Quiet (announce h now previous c)
  unfolding announce
  announce-Quiet now previous c = (refl, elim [ ok _ ↦ tt | err _ ↦ tt ])

  -- A change to a stricter mode is in force once the clock, the row and the write are answered, whatever
  -- then happens to the audit entry, refused by a locked chain or failed.
  pub restrictive_change_applies :
      (script : List Outcome) (mode : AutonomyMode) (set_by : String) (reason : ChangeReason)
      (hours : ℕ) (w : World) (row : ModeRow)
      → w.mode_row ≡ some row
      → (run h
          (done ∷ done ∷ done ∷ script)
          (apply_restrictive_change h mode set_by reason hours)
          w).1.mode_row
        ≡ some (
            written_row w.now (record {
              mode = mode;
              hours = hours;
              set_by = set_by;
              reason = reason;
              approval_request_id = none;
              audit_before_apply = false;
            }))
  unfolding apply_restrictive_change write_state get_state apply_change run respond perform
      write_row
  restrictive_change_applies script mode set_by reason hours w row stored =
      Quiet-run script
        (audit_guarded h w.now (state_of w.now w.mode_row).mode c
          >> announce h w.now (state_of w.now w.mode_row).mode c)
        (record w { mode_row = write_row (written_row w.now c) w.mode_row })
        (Asks-bind Quiet (audit_guarded h w.now (state_of w.now w.mode_row).mode c) _
          (audit_guarded-Quiet w.now (state_of w.now w.mode_row).mode c refl)
          (λ _. announce-Quiet w.now (state_of w.now w.mode_row).mode c))
      ∙ written stored
    where
      c : Change
      c = record {
        mode = mode;
        hours = hours;
        set_by = set_by;
        reason = reason;
        approval_request_id = none;
        audit_before_apply = false;
      }

      written :
          w.mode_row ≡ some row
          → write_row (written_row w.now c) w.mode_row ≡ some (written_row w.now c)
      written e = rw e refl
