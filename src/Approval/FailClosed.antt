-- ===== src/Approval/FailClosed.antt =====
-- No execution without a record of its approval, under any script of failures.
use jin_core.Runtime.Monitor.{Any, run_keeps}
use jin_core.Hitl.Execution.{resolve_and_execute}
use jin_core.Hitl.Executors.{Registry}
use jin_core.Approval.Order.{nothing_seen, protocol, stays, Permit, advance, Seen}
use jin_core.Approval.Protocol.{resolve_and_execute-protocol}
use jin_core.Runtime.Program.{
  clock, pending_claim, pending_select, ok, Reply, Answer, pending_insert, invoke, audit_append, Op,
}
use jin_core.Approval.NeverRuns.{is_approval_row}
use jin_core.Runtime.World.{
  done, run, next_audit_row, respond_keeps, is_invoke, perform, Outcome, respond, World, Host,
}
use jin_core.Base.{
  some, Bool-cases, ◌∙◌, count-append, ℕ, ◌≤◌, ◌<◌, ◌≡◌, ◌⊎◌, inl, inr, refl, String, Bool, true,
  false, List, [], ◌∷◌, count, arith,
}

-- how many approvals are on record
abbrev pub approvals : World → ℕ
approvals w = count is_approval_row w.audit

-- only the audit's own question turns the monitor to `audited`
abbrev is_append : Op → Bool
is_append (audit_append _) = true
is_append _ = false

kept :
    (s : Seen) (o : Op) (a : Answer (Reply o))
    → is_append o ≡ false
    → (advance s o a).audited ≡ true
    → s.audited ≡ true
kept s (audit_append _) a i e = absurd (cc)
kept s clock (ok _) i e = e
kept s (pending_select _) (ok _) i e = e
kept s (pending_claim _ _) (ok (some _)) i e = e
kept s _ _ i e = e

module _ (h : Host) where
  approvals-perform : (o : Op) (w : World) → approvals w ≤ approvals (perform h o w).1
  unfolding perform
  approvals-perform (audit_append e) w =
      omega (arith, count-append is_approval_row w.audit (next_audit_row h e w ∷ []))
  approvals-perform (pending_insert r) w = ground arith
  approvals-perform o w = omega arith

  approvals-respond :
      (x : Outcome) (o : Op) (w : World) → approvals w ≤ approvals (respond h x o w).1
  approvals-respond x o w =
      respond_keeps h (λ v. approvals w ≤ approvals v) x o w (omega arith) (approvals-perform o w)

  invoked-perform :
      (o : Op) (w : World) → is_invoke o ≡ false → (perform h o w).1.invoked ≡ w.invoked
  unfolding perform
  invoked-perform (invoke _ _ _) w i = absurd (cc)
  invoked-perform (pending_insert r) w i = ground arith
  invoked-perform o w i = refl

  -- a call without the record asks for no tool
  silent-invoked :
      (x : Outcome) (s : Seen) (o : Op) (w : World)
      → Permit s.audited s o
      → s.audited ≡ false
      → (respond h x o w).1.invoked ≡ w.invoked
  silent-invoked x s (invoke _ _ _) w may silent = absurd (rw silent at may)
  silent-invoked x s o w may silent =
      respond_keeps h (λ v. v.invoked ≡ w.invoked) x o w refl (invoked-perform o w refl)

  -- the monitor takes an approval for recorded only when it is
  recorded :
      (x : Outcome) (s : Seen) (o : Op) (w : World)
      → (advance s o (respond h x o w).0).audited ≡ true
      → (s.audited ≡ true) ⊎ (approvals w < approvals (respond h x o w).1)
  unfolding respond perform
  recorded done s (audit_append e) w a =
      ground (arith, count-append is_approval_row w.audit (next_audit_row h e w ∷ []))
  recorded Outcome.failed s (audit_append e) w a = inl a
  recorded Outcome.lost s (audit_append e) w a = inl a
  recorded x s o w a = inl (kept s o (respond h x o w).0 refl a)

  -- What the monitor knows of the world: nothing ran without a record.
  abbrev OnRecord : World → Seen → World → Type 0
  OnRecord w s v =
      (s.audited ≡ false → v.invoked ≡ w.invoked)
      × (approvals w ≤ approvals v)
      × (s.audited ≡ true → approvals w < approvals v)

  OnRecord-respond :
      (w : World) (x : Outcome) (s : Seen) (o : Op) (v : World)
      → Permit s.audited s o
      → OnRecord w s v
      → OnRecord w (advance s o (respond h x o v).0) (respond h x o v).1
  OnRecord-respond w x s o v may (quiet, more, known) = (
    still (Bool-cases s.audited),
    omega (arith, approvals-respond x o v),
    λ a. grows (recorded x s o v a),
  )
    where
      still :
          (s.audited ≡ true) ⊎ (s.audited ≡ false)
          → (advance s o (respond h x o v).0).audited ≡ false
          → (respond h x o v).1.invoked ≡ w.invoked
      still (inl loud) a = absurd (cc (stays s o (respond h x o v).0 loud, a))
      still (inr silent) a = silent-invoked x s o v may silent ∙ quiet silent

      grows :
          (s.audited ≡ true) ⊎ (approvals v < approvals (respond h x o v).1)
          → approvals w < approvals (respond h x o v).1
      grows (inl loud) = omega (arith, known loud, approvals-respond x o v)
      grows (inr new) = omega arith

  -- Under any script of failures and with any executors, if a call of `resolveAndExecute` made a tool run,
  -- then the audit log holds one approval more than before.
  pub runs_only_on_record :
      (reg : Registry) (script : List Outcome) (rid approver : String) (w : World)
      → let v = (run h script (resolve_and_execute h reg rid approver) w).1 in
        (v.invoked ≡ w.invoked) ⊎ (approvals w < approvals v)
  runs_only_on_record reg script rid approver w =
      let (s, known, _) =
        run_keeps protocol h (OnRecord w) (OnRecord-respond w) script
          (resolve_and_execute h reg rid approver) Any nothing_seen w
          (resolve_and_execute-protocol h reg rid approver)
          (λ _. refl, omega arith, λ a. absurd (cc)) in
      decided s (run h script (resolve_and_execute h reg rid approver) w).1 (Bool-cases s.audited)
        known
    where
      decided :
          (s : Seen) (v : World)
          → (s.audited ≡ true) ⊎ (s.audited ≡ false)
          → OnRecord w s v
          → (v.invoked ≡ w.invoked) ⊎ (approvals w < approvals v)
      decided s v (inl loud) (quiet, more, known) = inr (known loud)
      decided s v (inr silent) (quiet, more, known) = inl (quiet silent)
