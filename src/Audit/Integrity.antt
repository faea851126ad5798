-- ===== src/Audit/Integrity.antt =====
-- The audit log under src/audit/audit.service.ts and src/audit/hash-chain.ts: what the chain detects,
-- and that the repository's own writes keep it whole.
use jin_core.Audit.Jobs.{append_row-refused, behind_jobs-SameAndLocked, behind_jobs, Job}
use jin_core.Audit.Service.{append_row, lock_if_broken, verify_daily}
use jin_core.Runtime.Program.{
  Error, err, ok, ask, throw, pending_insert, ret, audit_append, Prog, Op,
}
use jin_core.Runtime.World.{
  respond_keeps, later_outcomes, first_outcome, Outcome, respond, World, next_audit_row, perform,
  run, last_hash, Host,
}
use jin_core.Audit.Chain.{
  ChainVerificationResult, Codec, Entry, HashableRow, AuditRow, genesis_hash, compute_row_hash,
  verify_from, verify_chain, valid, broken_at,
}
use jin_core.Base.{ℕ, ◌↔◌, String, true, List, [], ◌∷◌, ◌++◌, ◌≡◌, refl, ap, ◌∙◌, sym, arith}
use text.Mathlib.TextEquality.{eq_iff}

-- the hash that the next row must name
abbrev pub tip : String → List AuditRow → String
tip p [] = p
tip p (row ∷ rows) = tip row.current_hash rows

module _ (c : Codec) where
  abbrev pub Fits : String → AuditRow → Type 0
  Fits p row =
      (row.prev_hash ≡ p) × (compute_row_hash c row.prev_hash row.content ≡ row.current_hash)

  -- every row names the hash before it and carries the hash of its own content
  abbrev pub Linked : String → List AuditRow → Type 0
  Linked p [] = Unit
  Linked p (row ∷ rows) = Fits p row × Linked row.current_hash rows

  pub first-Fits :
      (p : String) (row : AuditRow) (rest : List AuditRow)
      → Fits p row
      → verify_from c p (row ∷ rest) ≡ verify_from c row.current_hash rest
  unfolding verify_from
  first-Fits p row rest (before, own) = ground (
    arith,
    eq_iff row.prev_hash p,
    eq_iff (compute_row_hash c row.prev_hash row.content) row.current_hash,
  )

  first_misfits :
      (p : String) (row : AuditRow) (rest : List AuditRow)
      → ¬ Fits p row
      → verify_from c p (row ∷ rest) ≡ broken_at row.id
  unfolding verify_from
  first_misfits p row rest bad = ground (
    arith,
    eq_iff row.prev_hash p,
    eq_iff (compute_row_hash c row.prev_hash row.content) row.current_hash,
  )

  Fits-of :
      (p : String) (row : AuditRow) (rest : List AuditRow)
      → verify_from c p (row ∷ rest) ≡ valid
      → Fits p row
  unfolding verify_from
  Fits-of p row rest v = ground (
    arith,
    eq_iff row.prev_hash p,
    eq_iff (compute_row_hash c row.prev_hash row.content) row.current_hash,
  )

  pub verify_from-Linked :
      (p : String) (rows rest : List AuditRow)
      → Linked p rows
      → verify_from c p (rows ++ rest) ≡ verify_from c (tip p rows) rest
  verify_from-Linked p [] rest linked = refl
  verify_from-Linked p (row ∷ rows) rest (fits, linked) =
      first-Fits p row (rows ++ rest) fits ∙ verify_from-Linked row.current_hash rows rest linked

  pub Linked-of : (p : String) (rows : List AuditRow) → verify_from c p rows ≡ valid → Linked p rows
  Linked-of p [] v = tt
  Linked-of p (row ∷ rows) v =
      let fits = Fits-of p row rows v in
      (fits, Linked-of row.current_hash rows (sym (first-Fits p row rows fits) ∙ v))

  split-Linked :
      (p : String) (rows rest : List AuditRow)
      → Linked p (rows ++ rest)
      → Linked p rows × Linked (tip p rows) rest
  split-Linked p [] rest linked = (tt, linked)
  split-Linked p (row ∷ rows) rest (fits, linked) =
      let (front, back) = split-Linked row.current_hash rows rest linked in ((fits, front), back)

  valid_of : (p : String) (rows : List AuditRow) → Linked p rows → verify_from c p rows ≡ valid
  unfolding verify_from
  valid_of p [] linked = refl
  valid_of p (row ∷ rows) (fits, linked) =
      first-Fits p row rows fits ∙ valid_of row.current_hash rows linked

  -- `verifyChain` answers valid exactly for the logs in which every row names the hash of the row before
  -- it (the first the genesis hash) and carries the hash of its own fields.
  pub verify_chain-Linked :
      (rows : List AuditRow) → (verify_chain c rows ≡ valid) ↔ Linked genesis_hash rows
  unfolding verify_chain
  verify_chain-Linked rows = (Linked-of genesis_hash rows, valid_of genesis_hash rows)

  -- A log whose rows fit up to one that does not is reported broken at that row.
  broken_there :
      (front : List AuditRow) (row : AuditRow) (back : List AuditRow)
      → Linked genesis_hash front
      → ¬ Fits (tip genesis_hash front) row
      → verify_chain c (front ++ row ∷ back) ≡ broken_at row.id
  unfolding verify_chain
  broken_there front row back linked bad =
      verify_from-Linked genesis_hash front (row ∷ back) linked
      ∙ first_misfits (tip genesis_hash front) row back bad

  -- If the fields of one row of a valid log are changed, and the digest of the new fields differs from
  -- the stored one, `verifyChain` reports the log broken at that row.
  pub edited_row_is_found :
      (front : List AuditRow) (row : AuditRow) (back : List AuditRow) (content : HashableRow)
      → verify_chain c (front ++ row ∷ back) ≡ valid
      → ¬ (compute_row_hash c row.prev_hash content ≡ row.current_hash)
      → verify_chain c (front ++ (record row { content = content }) ∷ back) ≡ broken_at row.id
  edited_row_is_found front row back content v differs =
      let linked = (verify_chain-Linked (front ++ row ∷ back)).0 v in
      broken_there front (record row { content = content }) back
        (split-Linked genesis_hash front (row ∷ back) linked).0 (λ fits. differs fits.1)

  -- If a row that is not the last is removed from a valid log, and its hash differs from the one before
  -- it, `verifyChain` reports the log broken at the row that followed.
  pub removed_row_is_found :
      (front : List AuditRow) (row next : AuditRow) (back : List AuditRow)
      → verify_chain c (front ++ row ∷ next ∷ back) ≡ valid
      → ¬ (row.current_hash ≡ row.prev_hash)
      → verify_chain c (front ++ next ∷ back) ≡ broken_at next.id
  removed_row_is_found front row next back v differs =
      let linked = (verify_chain-Linked (front ++ row ∷ next ∷ back)).0 v in
      let (before, pair) = split-Linked genesis_hash front (row ∷ next ∷ back) linked in
      broken_there front next back before (λ fits. differs (sym pair.1.0.0 ∙ fits.0 ∙ sym pair.0.0))

-- the newest hash that an append reads is the one that the verification expects
last_hash-tip_after :
    (row : AuditRow) (rows : List AuditRow) → last_hash (row ∷ rows) ≡ tip row.current_hash rows
last_hash-tip_after row [] = refl
last_hash-tip_after row (x ∷ rows) = last_hash-tip_after x rows

last_hash-tip : (rows : List AuditRow) → last_hash rows ≡ tip genesis_hash rows
last_hash-tip [] = refl
last_hash-tip (row ∷ rows) = last_hash-tip_after row rows

module _ (h : Host) where
  abbrev IsWhole : World → Type 0
  IsWhole w = verify_chain h.codec w.audit ≡ valid

  appended :
      (e : Entry) (w : World)
      → IsWhole w
      → verify_chain h.codec (w.audit ++ next_audit_row h e w ∷ []) ≡ valid
  unfolding verify_chain next_audit_row
  appended e w v =
      verify_from-Linked h.codec genesis_hash w.audit (next_audit_row h e w ∷ [])
        (Linked-of h.codec genesis_hash w.audit v)
      ∙ first-Fits h.codec (tip genesis_hash w.audit) (next_audit_row h e w) []
          (last_hash-tip w.audit, refl)

  IsWhole-perform : (o : Op) (w : World) → IsWhole w → IsWhole (perform h o w).1
  unfolding perform
  IsWhole-perform (audit_append e) w v = appended e w v
  IsWhole-perform (pending_insert r) w v = ground arith
  IsWhole-perform o w v = v

  -- A log that verifies still verifies when any program has run, whatever it asks and wherever its
  -- questions fail.
  pub log_stays_valid :
      {A : Type 0} (script : List Outcome) (p : Prog A) (w : World)
      → verify_chain h.codec w.audit ≡ valid
      → verify_chain h.codec (run h script p w).1.audit ≡ valid
  unfolding run
  log_stays_valid script (ret a) w v = v
  log_stays_valid script (throw e) w v = v
  log_stays_valid script (ask o k) w v =
      let x = first_outcome script in
      log_stays_valid (later_outcomes script) (k (respond h x o w).0) (respond h x o w).1
        (respond_keeps h IsWhole x o w v (IsWhole-perform o w v))

  locks :
      (w : World) (id : ℕ)
      → verify_chain h.codec w.audit ≡ broken_at id
      → run h [] (verify_daily h.codec) w ≡ (ok (broken_at id), record w { chain_locked = true })
  unfolding run respond perform verify_daily lock_if_broken
  locks w id broken = ap (λ v. run h [] (lock_if_broken v) w) broken

  breaks :
      (w : World) (r : ChainVerificationResult)
      → verify_chain h.codec w.audit ≡ r
      → ¬ Linked h.codec genesis_hash w.audit
      → (id : ℕ) × (verify_chain h.codec w.audit ≡ broken_at id)
  breaks w valid found broken = absurd (broken ((verify_chain-Linked h.codec w.audit).0 found))
  breaks w (broken_at id) found broken = (id, found)

  -- When the chain of the log is broken, the daily verification, if all its questions are answered,
  -- reports a row and locks the chain. Whatever entries are then appended and verifications run, one
  -- after another and each with any failures, no row is added and the chain stays locked, and an append
  -- begun after them is answered with an error and changes nothing, whatever fails.
  pub broken_log_refuses :
      (w : World) (jobs : List (List Outcome × Job)) (script : List Outcome) (e : Entry)
      → ¬ Linked h.codec genesis_hash w.audit
      → let checked = run h [] (verify_daily h.codec) w in
        let later = behind_jobs h jobs checked.1 in
        ((id : ℕ) × (checked ≡ (ok (broken_at id), record w { chain_locked = true })))
        × (later.audit ≡ w.audit)
        × (later.chain_locked ≡ true)
        × ((x : Error) × (run h script (append_row e) later ≡ (err x, later)))
  broken_log_refuses w jobs script e broken =
      let (id, found) = breaks w (verify_chain h.codec w.audit) refl broken in
      let locked = locks w id found in
      let (same, still) =
        behind_jobs-SameAndLocked h jobs (record w { chain_locked = true }) refl in
      rw locked (
        (id, refl),
        same,
        still,
        append_row-refused h script e (behind_jobs h jobs (record w { chain_locked = true })) still,
      )
