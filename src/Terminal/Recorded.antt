-- ===== src/Terminal/Recorded.antt =====
-- src/terminal/terminal-pty.service.ts, fail-closed: what reaches the shell, against the audit log.
use mathlib.Core.Path.{subst}
use jin_core.Audit.Service.{append_row, record_tool_call}
use jin_core.Runtime.World.{run, next_audit_row, Outcome, perform, respond, Host, World}
use jin_core.Terminal.Chunks.{audited-append, prepended, audited}
use jin_core.Terminal.Session.{audit_line, forward_after, process, line_summary}
use jin_core.Audit.Chain.{AuditRow}
use jin_core.Terminal.Gate.{PtyInputStep}
use jin_core.Runtime.Monitor.{run_keeps, Obeys-weaken, Obeys-bind, Obeys, Monitor}
use jin_core.Runtime.Program.{
  random_uuid, audit_locked, err, audit_append, ok, pty_input, Reply, Answer, Op,
}
use mathlib.Core.List.{append_assoc, append-nil, map-append}
use jin_core.Base.{
  suc, inr, sym, inl, ◌∙◌, refl, some, true, ◌⊎◌, ap, none, false, [], ◌≡◌, map, ℕ, Option, ◌++◌,
  Bool, ◌∷◌, List, String,
}

-- what stands in the terminals once the steps reached them, newest first
abbrev pub reached : List PtyInputStep → List (List ℕ) → List (List ℕ)
reached [] typed = typed
reached (s ∷ ss) typed = reached ss (s.bytes ∷ typed)

reached-append :
    (ss : List PtyInputStep) (s : PtyInputStep) (typed : List (List ℕ))
    → reached (ss ++ s ∷ []) typed ≡ s.bytes ∷ reached ss typed
reached-append [] s typed = refl
reached-append (x ∷ ss) s typed = reached-append ss s (x.bytes ∷ typed)

abbrev pub summaries : List AuditRow → List (Option String)
summaries [] = []
summaries (r ∷ rs) = r.content.entry.plan_summary ∷ summaries rs

summaries-append : (rs ts : List AuditRow) → summaries (rs ++ ts) ≡ summaries rs ++ summaries ts
summaries-append [] ts = refl
summaries-append (r ∷ rs) ts = ap (λ l. r.content.entry.plan_summary ∷ l) (summaries-append rs ts)

module _ (redact : String → String) where
  abbrev pub recorded : List PtyInputStep → List (Option String)
  recorded ss = map (line_summary redact) (audited ss)

  -- the steps that are left, and whether the line of the first one is recorded
  data Stage : Type 0 where
    at : List PtyInputStep → Bool → Stage
    over : Stage

  abbrev MayFollow : Stage → Op → Type 0
  MayFollow (at (s ∷ left) noted) (pty_input _ _ bytes) =
      (bytes ≡ s.bytes) × ((s.line ≡ none) ⊎ (noted ≡ true))
  MayFollow (at (s ∷ left) false) (audit_append e) =
      (line : String) × (s.line ≡ some line) × (e.plan_summary ≡ line_summary redact line)
  MayFollow (at _ _) audit_locked = Unit
  MayFollow (at _ _) random_uuid = Unit
  MayFollow _ _ = ⊥

  abbrev next_stage : Stage → (o : Op) → Answer (Reply o) → Stage
  next_stage (at (s ∷ left) noted) (pty_input _ _ _) (ok _) = at left false
  next_stage (at left noted) (audit_append _) (ok _) = at left true
  next_stage stage o (ok _) = stage
  next_stage stage o (err _) = over

  abbrev keys : Monitor
  keys = record { State = Stage; May = MayFollow; move = λ s o a. next_stage s o a }

  -- a line that is recorded before its step went on
  abbrev pub noted_line : List PtyInputStep → Bool → List (Option String)
  noted_line (s ∷ left) true = map (line_summary redact) (prepended s.line [])
  noted_line _ _ = []

  no_line : (ss : List PtyInputStep) → [] ≡ noted_line ss false
  no_line [] = refl
  no_line (s ∷ ss) = refl

  -- What reached the terminal are the first steps, whole and in their order, and the audit log has grown by
  -- the entries of their lines, in the same order, and perhaps by more behind them.
  pub record Recorded (steps : List PtyInputStep) (w v : World) : Type 0 where
    pub sent : List PtyInputStep
    pub left : List PtyInputStep
    pub extra : List (Option String)
    pub parts : sent ++ left ≡ steps
    pub shell : v.typed ≡ reached sent w.typed
    pub log : summaries v.audit ≡ summaries w.audit ++ (recorded sent ++ extra)

  module _ (steps : List PtyInputStep) (w : World) where
    Midway : Stage → World → Type 0
    Midway (at left noted) v =
        (r : Recorded steps w v) × (r.left ≡ left) × (r.extra ≡ noted_line left noted)
    Midway over v = Recorded steps w v

    start : Midway (at steps false) w
    unfolding Midway
    start = (
      record {
        sent = [];
        left = steps;
        extra = [];
        parts = refl;
        shell = refl;
        log = sym (append-nil (summaries w.audit));
      },
      refl,
      no_line steps,
    )

    to_over : (s : Stage) (v : World) → Midway s v → Recorded steps w v
    unfolding Midway
    to_over (at left noted) v m = m.0
    to_over over v m = m

  recorded-append :
      (ss : List PtyInputStep) (s : PtyInputStep)
      → recorded (ss ++ s ∷ []) ≡ recorded ss ++ map (line_summary redact) (prepended s.line [])
  recorded-append ss s =
      ap (map (line_summary redact)) (audited-append ss (s ∷ []))
      ∙ map-append (line_summary redact) (audited ss) (prepended s.line [])

  noted_first :
      (s : PtyInputStep) (left : List PtyInputStep) (noted : Bool)
      → (s.line ≡ none) ⊎ (noted ≡ true)
      → noted_line (s ∷ left) noted ≡ map (line_summary redact) (prepended s.line [])
  noted_first s left true may = refl
  noted_first s left false (inl e) = rw e refl
  noted_first s left false (inr e) = absurd (cc)

  module _ (steps : List PtyInputStep) (w v : World) (s : PtyInputStep)
      (left : List PtyInputStep) where
    one_sent :
        (noted : Bool) (bytes : List ℕ)
        → bytes ≡ s.bytes
        → (s.line ≡ none) ⊎ (noted ≡ true)
        → Midway steps w (at (s ∷ left) noted) v
        → Midway steps w (at left false) (record v { typed = bytes ∷ v.typed })
    unfolding Midway
    one_sent noted bytes same may (r, r_left, r_extra) = (
      record {
        sent = r.sent ++ s ∷ [];
        left = left;
        extra = [];
        parts = append_assoc r.sent (s ∷ []) left ∙ ap (λ l. r.sent ++ l) (sym r_left) ∙ r.parts;
        shell =
            ap (λ b. b ∷ v.typed) same
            ∙ ap (λ t. s.bytes ∷ t) r.shell
            ∙ sym (reached-append r.sent s w.typed);
        log =
            r.log
            ∙ ap (λ l. summaries w.audit ++ l)
                (ap (λ l. recorded r.sent ++ l) (r_extra ∙ noted_first s left noted may)
                  ∙ sym (recorded-append r.sent s)
                  ∙ sym (append-nil _));
      },
      refl,
      no_line left,
    )

    one_noted :
        (row : AuditRow) (ids : ℕ) (line : String)
        → s.line ≡ some line
        → row.content.entry.plan_summary ≡ line_summary redact line
        → Midway steps w (at (s ∷ left) false) v
        → Midway steps w
            (at (s ∷ left) true)
            (record v { audit = v.audit ++ row ∷ []; audit_ids = ids })
    unfolding Midway
    one_noted row ids line here same (r, r_left, r_extra) = (
      record {
        sent = r.sent;
        left = r.left;
        extra = line_summary redact line ∷ [];
        parts = r.parts;
        shell = r.shell;
        log =
            summaries-append v.audit (row ∷ [])
            ∙ ap (λ l. l ++ row.content.entry.plan_summary ∷ [])
                (r.log ∙ ap (λ x. summaries w.audit ++ (recorded r.sent ++ x)) r_extra)
            ∙ append_assoc (summaries w.audit) _ _
            ∙ ap (λ l. summaries w.audit ++ l) (append_assoc (recorded r.sent) [] _)
            ∙ ap (λ x. summaries w.audit ++ (recorded r.sent ++ x ∷ [])) same;
      },
      r_left,
      sym (ap (λ o. map (line_summary redact) (prepended o [])) here),
    )

  abbrev Forwarded : List PtyInputStep → Stage → Answer (Unit {0}) → Type 0
  Forwarded ss stage (ok _) = stage ≡ at ss false
  Forwarded ss stage (err _) = Unit

  forward_keys :
      (command_hash : String → String → String) (workspace pty : String) (s : PtyInputStep)
      (ss : List PtyInputStep) (o : Option String)
      → s.line ≡ o
      → Obeys keys
          (at (s ∷ ss) false)
          (forward_after redact command_hash workspace pty s.bytes o)
          (Forwarded ss)
  unfolding forward_after audit_line record_tool_call append_row
  forward_keys command_hash workspace pty s ss none e =
      ((refl, inl e), elim [ ok _ ↦ refl | err _ ↦ tt ])
  forward_keys command_hash workspace pty s ss (some line) e = (
    tt,
    elim [
      | err _ ↦ tt
      | ok rid ↦ (
        tt,
        elim [
          | err _ ↦ tt
          | ok true ↦ tt
          | ok false ↦ (
            (line, e, refl),
            elim [ err _ ↦ tt | ok row ↦ ((refl, inr refl), elim [ ok _ ↦ refl | err _ ↦ tt ]) ],
          )
        ],
      )
    ],
  )

  keys_of_process :
      (command_hash : String → String → String) (workspace pty : String) (ss : List PtyInputStep)
      → Obeys keys (at ss false) (process redact command_hash workspace pty ss) (Forwarded [])
  unfolding process
  keys_of_process command_hash workspace pty [] = refl
  keys_of_process command_hash workspace pty (s ∷ ss) =
      Obeys-bind keys (forward_after redact command_hash workspace pty s.bytes s.line) _ _ _ (
        Obeys-weaken keys (forward_after redact command_hash workspace pty s.bytes s.line)
          (Forwarded ss) _ _
          (λ t. elim [
            | err _ ↦ λ _. tt
            | ok _ ↦ λ e.
                subst
                  (λ t. Obeys keys t (process redact command_hash workspace pty ss) (Forwarded []))
                  (sym e) (keys_of_process command_hash workspace pty ss)
          ])
          (forward_keys command_hash workspace pty s ss s.line refl))

  module _ (h : Host) (steps : List PtyInputStep) (w : World) where
    drawn : (v : World) → Recorded steps w v → Recorded steps w (record v { uuids = suc v.uuids })
    drawn v r = record {
      sent = r.sent;
      left = r.left;
      extra = r.extra;
      parts = r.parts;
      shell = r.shell;
      log = r.log;
    }

    finished :
        (t : Stage) (a : Answer (Unit {0})) (v : World)
        → Midway steps w t v
        → Forwarded [] t a
        → (r : Recorded steps w v) × ((a ≡ ok tt) → r.left ≡ [])
    unfolding Midway
    finished t (err e) v i q = (to_over steps w t v i, λ same. absurd (cc))
    finished t (ok _) v i q = let m = subst (λ t. Midway steps w t v) q i in (m.0, λ _. m.1)

    keep :
        (x : Outcome) (s : Stage) (o : Op) (v : World)
        → MayFollow s o
        → Midway steps w s v
        → Midway steps w (next_stage s o (respond h x o v).0) (respond h x o v).1
    unfolding respond perform Midway drawn
    keep Outcome.done (at (s ∷ left) noted) (pty_input _ _ bytes) v (same, may) m =
        one_sent steps w v s left noted bytes same may m
    keep Outcome.failed (at (s ∷ left) noted) (pty_input _ _ bytes) v (same, may) m = m.0
    keep Outcome.lost (at (s ∷ left) noted) (pty_input _ _ bytes) v (same, may) m =
        (one_sent steps w v s left noted bytes same may m).0
    keep Outcome.done (at (s ∷ left) false) (audit_append e) v (line, here, same) m =
        one_noted steps w v s left _ _ line here same m
    keep Outcome.failed (at (s ∷ left) false) (audit_append e) v (line, here, same) m = m.0
    keep Outcome.lost (at (s ∷ left) false) (audit_append e) v (line, here, same) m =
        (one_noted steps w v s left (next_audit_row h e v) _ line here same m).0
    keep Outcome.done (at left noted) audit_locked v may m = m
    keep Outcome.failed (at left noted) audit_locked v may m = m.0
    keep Outcome.lost (at left noted) audit_locked v may m = m.0
    keep Outcome.done (at left noted) random_uuid v may (r, r_left, r_extra) =
        (drawn v r, r_left, r_extra)
    keep Outcome.failed (at left noted) random_uuid v may (r, r_left, r_extra) =
        (drawn v r, r_left, r_extra)
    keep Outcome.lost (at left noted) random_uuid v may (r, r_left, r_extra) =
        (drawn v r, r_left, r_extra)
    keep x s o v may m = absurd may

    -- However the database and the executor fail, and wherever the process of a message ends, the shell got
    -- some first steps of the message, whole and in their order, and the audit log has grown by the entries
    -- of their lines, in the same order, and perhaps by more behind them. A message that is processed with
    -- success reached the shell as a whole.
    pub process-Recorded :
        (script : List Outcome) (command_hash : String → String → String) (workspace pty : String)
        → (r : Recorded steps w
            (run h script (process redact command_hash workspace pty steps) w).1)
          × (((run h script (process redact command_hash workspace pty steps) w).0 ≡ ok tt)
              → r.left ≡ [])
    process-Recorded script command_hash workspace pty =
        let (t, i, q) =
          run_keeps keys h (Midway steps w) keep script
            (process redact command_hash workspace pty steps) (Forwarded []) (at steps false) w
            (keys_of_process command_hash workspace pty steps) (start steps w) in
        finished t _ _ i q
