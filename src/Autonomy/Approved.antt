-- ===== src/Autonomy/Approved.antt =====
-- The order of an approved change in src/autonomy/autonomy.service.ts: on record, then in force.
use jin_core.Audit.Service.{append_row, record_tool_call}
use jin_core.Autonomy.Mode.{parse_mode, AutonomyMode}
use jin_core.Autonomy.Service.{
  Change, write_state, apply_change, audit_change, announce, written_row, state_of, get_state,
}
use jin_core.Autonomy.Logic.{AutonomyConfig}
use jin_core.Autonomy.Owner.{approved_change, apply_approved_change, apply_parsed}
use jin_core.Hitl.Payload.{mode_change, level_override, arguments, Payload}
use jin_core.Runtime.Monitor.{
  Obeys-weaken, Monitor, Any, Obeys, run_keeps, Obeys-bind, Obeys-of_free, Then,
}
use jin_core.Runtime.Program.{
  pending_insert, Op, Prog, Answer, ok, err, Reply, mode_update, audit_append, ret, query, ◌>>◌,
}
use jin_core.Runtime.World.{
  Host, World, run, respond, respond_keeps, perform, Outcome, done, next_audit_row,
}
use jin_core.Base.{
  length-append, Bool-cases, ◌&&◌, ltb, arith, ◌∙◌, ◌≡◌, ◌≤◌, ◌<◌, ◌⊎◌, inl, inr, refl, Bool, true,
  false, Option, none, some, List, [], ◌∷◌, ℕ, length, String,
}
use jin_core.Autonomy.Changes.{Quiet, Quiet-perform}

-- An approved change waits for its audit entry.
abbrev MayWrite : Bool → Op → Type 0
MayWrite true o = Unit
MayWrite false o = Quiet o

abbrev noted : Bool → (o : Op) → Answer (Reply o) → Bool
noted s (audit_append _) (ok _) = true
noted s _ _ = s

abbrev record_first : Monitor
record_first = record { State = Bool; May = MayWrite; move = noted }

abbrev Recorded : {A : Type 0} → Bool → Answer A → Type 0
Recorded s (ok _) = s ≡ true
Recorded s (err _) = Unit

after_record : {A : Type 0} (p : Prog A) (s : Bool) → s ≡ true → Obeys record_first s p Any
after_record p s e = Obeys-of_free record_first (λ s. s ≡ true) may stay p Any s (λ _ _ _. tt) e
  where
    may : (s : Bool) (o : Op) → s ≡ true → MayWrite s o
    may true o e = tt
    may false o e = absurd (cc)

    stay : (s : Bool) (o : Op) (a : Answer (Reply o)) → s ≡ true → noted s o a ≡ true
    stay s (audit_append _) (ok _) e = refl
    stay s _ _ e = e

module _ (h : Host) where
  audit_change-Recorded :
      (rid : String) (now : ℕ) (previous : AutonomyMode) (c : Change)
      → c.approval_request_id ≡ some rid
      → Obeys record_first false (audit_change h now previous c) Recorded
  unfolding audit_change record_tool_call append_row
  audit_change-Recorded rid now previous c given = rw given (
    refl,
    elim [ ok true ↦ tt | ok false ↦ (refl, elim [ ok _ ↦ refl | err _ ↦ tt ]) | err _ ↦ tt ],
  )

  -- An approved change is in the audit log before it is in force.
  apply_change-Obeys :
      (rid : String) (now : ℕ) (previous : AutonomyMode) (c : Change)
      → c.approval_request_id ≡ some rid
      → Obeys record_first false (apply_change h true now previous c) Any
  unfolding apply_change
  apply_change-Obeys rid now previous c given =
      Obeys-bind record_first (audit_change h now previous c) _ Any false (
        Obeys-weaken record_first (audit_change h now previous c) Recorded _ false ended
          (audit_change-Recorded rid now previous c given))
    where
      ended :
          (s : Bool) (a : Answer (Unit {0}))
          → Recorded s a
          → Then record_first
              (λ _. query (mode_update (written_row now c)) >> announce h now previous c)
              Any
              s
              a
      ended s (ok _) e =
          after_record (query (mode_update (written_row now c)) >> announce h now previous c) s e
      ended s (err _) _ = tt

  then_done :
      (a : String) (now : ℕ) (previous : AutonomyMode) (rid : String) (c : Change)
      → c.approval_request_id ≡ some rid
      → Obeys record_first false (apply_change h true now previous c >> ret a) Any
  then_done a now previous rid c given =
      Obeys-bind record_first (apply_change h true now previous c) (λ _. ret a) Any false
        (Obeys-weaken record_first (apply_change h true now previous c) Any _ false ended
          (apply_change-Obeys rid now previous c given))
    where
      ended : (s : Bool) (x : Answer (Option ℕ)) → Unit {0} → Then record_first (λ _. ret a) Any s x
      ended s (ok _) _ = tt
      ended s (err _) _ = tt

  apply_parsed-Obeys :
      (config : AutonomyConfig) (mode : AutonomyMode) (hours : ℕ) (rid : String) (b : Bool)
      → ltb 0 hours && h.is_uuid rid ≡ b
      → Obeys record_first false (apply_parsed h config (some mode) hours rid) Any
  unfolding apply_parsed write_state get_state
  apply_parsed-Obeys config mode hours rid true checked = rw checked (
    refl,
    elim [
      | ok now ↦ (
        refl,
        elim [
          | ok row ↦
              then_done "{\"ok\":true}" now (state_of now row).mode rid
                (approved_change config mode hours rid) refl
          | err _ ↦ tt
        ],
      )
      | err _ ↦ tt
    ],
  )
  apply_parsed-Obeys config mode hours rid false checked = rw checked tt

  parsed-Obeys :
      (config : AutonomyConfig) (m : Option AutonomyMode) (hours : ℕ) (rid : String)
      → Obeys record_first false (apply_parsed h config m hours rid) Any
  unfolding apply_parsed
  parsed-Obeys config none hours rid = tt
  parsed-Obeys config (some mode) hours rid =
      apply_parsed-Obeys config mode hours rid (ltb 0 hours && h.is_uuid rid) refl

  apply_approved_change-Obeys :
      (config : AutonomyConfig) (p : Option Payload)
      → Obeys record_first false (apply_approved_change h config p) Any
  unfolding apply_approved_change
  apply_approved_change-Obeys config none = tt
  apply_approved_change-Obeys config (some (arguments _)) = tt
  apply_approved_change-Obeys config (some (level_override _ _)) = tt
  apply_approved_change-Obeys config (some (mode_change mode hours rid)) =
      parsed-Obeys config (parse_mode mode) hours rid

  grows-perform : (o : Op) (w : World) → length w.audit ≤ length (perform h o w).1.audit
  unfolding perform
  grows-perform (audit_append e) w =
      omega (arith, length-append w.audit (next_audit_row h e w ∷ []))
  grows-perform (pending_insert r) w = ground arith
  grows-perform o w = omega arith

  grows : (x : Outcome) (o : Op) (w : World) → length w.audit ≤ length (respond h x o w).1.audit
  grows x o w =
      respond_keeps h (λ v. length w.audit ≤ length v.audit) x o w (omega arith) (grows-perform o w)

  noted_grows :
      (x : Outcome) (s : Bool) (o : Op) (w : World)
      → noted s o (respond h x o w).0 ≡ true
      → (s ≡ true) ⊎ (length w.audit < length (respond h x o w).1.audit)
  unfolding respond perform
  noted_grows done s (audit_append e) w a =
      inr (omega (arith, length-append w.audit (next_audit_row h e w ∷ [])))
  noted_grows Outcome.failed s (audit_append e) w a = inl a
  noted_grows Outcome.lost s (audit_append e) w a = inl a
  noted_grows x s o w a = inl a

  still-respond :
      (x : Outcome) (s : Bool) (o : Op) (v : World)
      → MayWrite s o
      → s ≡ false
      → (respond h x o v).1.mode_row ≡ v.mode_row
  still-respond x true o v may e = absurd (cc)
  still-respond x false o v may e =
      respond_keeps h (λ u. u.mode_row ≡ v.mode_row) x o v refl (Quiet-perform h o v may)

  noted_stays : (s : Bool) (o : Op) (a : Answer (Reply o)) → s ≡ true → noted s o a ≡ true
  noted_stays s (audit_append _) (ok _) e = refl
  noted_stays s _ _ e = e

  -- What the monitor knows: the row of the mode is as before, or the log has grown.
  abbrev Noted : World → Bool → World → Type 0
  Noted w s v =
      (s ≡ false → v.mode_row ≡ w.mode_row)
      × (length w.audit ≤ length v.audit)
      × (s ≡ true → length w.audit < length v.audit)

  Noted-respond :
      (w : World) (x : Outcome) (s : Bool) (o : Op) (v : World)
      → MayWrite s o
      → Noted w s v
      → Noted w (noted s o (respond h x o v).0) (respond h x o v).1
  Noted-respond w x s o v may (quiet, more, known) =
      (still (Bool-cases s), omega (arith, grows x o v), λ a. longer (noted_grows x s o v a))
    where
      still :
          (s ≡ true) ⊎ (s ≡ false)
          → noted s o (respond h x o v).0 ≡ false
          → (respond h x o v).1.mode_row ≡ w.mode_row
      still (inl loud) a = absurd (cc (noted_stays s o (respond h x o v).0 loud, a))
      still (inr silent) a = still-respond x s o v may silent ∙ quiet silent

      longer :
          (s ≡ true) ⊎ (length v.audit < length (respond h x o v).1.audit)
          → length w.audit < length (respond h x o v).1.audit
      longer (inl loud) = omega (arith, known loud, grows x o v)
      longer (inr new) = omega arith

  -- Under any script of failures, if the executor of an approved change altered the mode, then the audit
  -- log has a row more than before.
  pub approved_change_on_record :
      (config : AutonomyConfig) (script : List Outcome) (p : Option Payload) (w : World)
      → let v = (run h script (apply_approved_change h config p) w).1 in
        (v.mode_row ≡ w.mode_row) ⊎ (length w.audit < length v.audit)
  approved_change_on_record config script p w =
      let (s, known, _) =
        run_keeps record_first h (Noted w) (Noted-respond w) script
          (apply_approved_change h config p) Any false w (apply_approved_change-Obeys config p)
          (λ _. refl, omega arith, λ a. absurd (cc)) in
      decided s (run h script (apply_approved_change h config p) w).1 (Bool-cases s) known
    where
      decided :
          (s : Bool) (v : World)
          → (s ≡ true) ⊎ (s ≡ false)
          → Noted w s v
          → (v.mode_row ≡ w.mode_row) ⊎ (length w.audit < length v.audit)
      decided s v (inl loud) (quiet, more, known) = inr (known loud)
      decided s v (inr silent) (quiet, more, known) = inl (quiet silent)
