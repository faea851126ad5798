-- ===== src/Audit/Jobs.antt =====
-- What is done with the log one after another (src/audit/audit.service.ts and
-- src/audit/chain-verification.service.ts): an entry is appended, or the chain is verified.
use jin_core.Audit.Chain.{Entry, valid, broken_at, ChainVerificationResult, verify_chain}
use jin_core.Audit.Service.{append_row, verify_daily, lock_if_broken}
use jin_core.Runtime.Program.{err, Error}
use jin_core.Runtime.World.{Host, World, Outcome, run, respond, perform, done}
use jin_core.Audit.Chain.{AuditRow}
use jin_core.Runtime.Program.{Answer, audit_chain_locked, database_error}
use mathlib.Core.Path.{subst}
use jin_core.Base.{sym, List, [], ◌∷◌, ◌≡◌, ◌∙◌, refl, true}

pub data Job : Type 0 where
  appends : Entry → Job
  verifies : Job

module _ (h : Host) where
  -- each job has a script of its own
  abbrev pub behind_job : List Outcome → Job → World → World
  behind_job script (appends e) w = (run h script (append_row e) w).1
  behind_job script verifies w = (run h script (verify_daily h.codec) w).1

  abbrev pub behind_jobs : List (List Outcome × Job) → World → World
  behind_jobs [] w = w
  behind_jobs ((script, j) ∷ jobs) w = behind_jobs jobs (behind_job script j w)

  -- no row is added and the chain is locked
  abbrev pub SameAndLocked : World → World → Type 0
  SameAndLocked w v = (v.audit ≡ w.audit) × (v.chain_locked ≡ true)

  -- under a lock an append is answered with an error, under any script
  pub append_row-refused :
      (script : List Outcome) (e : Entry) (w : World)
      → w.chain_locked ≡ true
      → (x : Error) × (run h script (append_row e) w ≡ (err x, w))
  unfolding run respond perform append_row
  append_row-refused [] e w locked = (audit_chain_locked, rw locked refl)
  append_row-refused (done ∷ script) e w locked = (audit_chain_locked, rw locked refl)
  append_row-refused (Outcome.failed ∷ script) e w locked = (database_error, refl)
  append_row-refused (Outcome.lost ∷ script) e w locked = (database_error, refl)

  lock_if_broken-SameAndLocked :
      (script : List Outcome) (r : ChainVerificationResult) (w : World)
      → w.chain_locked ≡ true
      → SameAndLocked w (run h script (lock_if_broken r) w).1
  unfolding run respond perform lock_if_broken
  lock_if_broken-SameAndLocked script valid w locked = (refl, locked)
  lock_if_broken-SameAndLocked [] (broken_at id) w locked = (refl, refl)
  lock_if_broken-SameAndLocked (done ∷ script) (broken_at id) w locked = (refl, refl)
  lock_if_broken-SameAndLocked (Outcome.failed ∷ script) (broken_at id) w locked = (refl, locked)
  lock_if_broken-SameAndLocked (Outcome.lost ∷ script) (broken_at id) w locked = (refl, refl)

  verify_daily-SameAndLocked :
      (script : List Outcome) (w : World)
      → w.chain_locked ≡ true
      → SameAndLocked w (run h script (verify_daily h.codec) w).1
  unfolding run respond perform verify_daily
  verify_daily-SameAndLocked [] w locked =
      lock_if_broken-SameAndLocked [] (verify_chain h.codec w.audit) w locked
  verify_daily-SameAndLocked (done ∷ script) w locked =
      lock_if_broken-SameAndLocked script (verify_chain h.codec w.audit) w locked
  verify_daily-SameAndLocked (Outcome.failed ∷ script) w locked = (refl, locked)
  verify_daily-SameAndLocked (Outcome.lost ∷ script) w locked = (refl, locked)

  behind_job-SameAndLocked :
      (script : List Outcome) (j : Job) (w : World)
      → w.chain_locked ≡ true
      → SameAndLocked w (behind_job script j w)
  behind_job-SameAndLocked script (appends e) w locked =
      let (x, refused) = append_row-refused script e w locked in
      subst (λ (p : Answer AuditRow × World). SameAndLocked w p.1) (sym refused) (refl, locked)
  behind_job-SameAndLocked script verifies w locked = verify_daily-SameAndLocked script w locked

  pub behind_jobs-SameAndLocked :
      (jobs : List (List Outcome × Job)) (w : World)
      → w.chain_locked ≡ true
      → SameAndLocked w (behind_jobs jobs w)
  behind_jobs-SameAndLocked [] w locked = (refl, locked)
  behind_jobs-SameAndLocked ((script, j) ∷ jobs) w locked =
      let (same, still) = behind_job-SameAndLocked script j w locked in
      let (same_later, locked_later) =
        behind_jobs-SameAndLocked jobs (behind_job script j w) still in
      (same_later ∙ same, locked_later)
