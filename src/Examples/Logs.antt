-- ===== src/Examples/Logs.antt =====
-- Examples of the audit log: the theorems of Audit at a log of two rows.
use jin_core.Audit.Jobs.{verifies, appends, behind_jobs}
use jin_core.Examples.Data.{codec, host, mail, world, tools}
use jin_core.Audit.Chain.{
  Entry, HashableRow, AuditRow, verify_chain, verify_from, compute_row_hash, compute_hash,
  canonicalize_row, genesis_hash, valid, broken_at,
}
use jin_core.Audit.Service.{append_row, verify_daily}
use jin_core.Audit.Integrity.{
  verify_chain-Linked, edited_row_is_found, removed_row_is_found, log_stays_valid,
  broken_log_refuses, Linked,
}
use jin_core.Approval.Executes.{approval_entry}
use jin_core.Hitl.Execution.{resolve_and_execute}
use jin_core.Runtime.Program.{Error, ok, err}
use jin_core.Runtime.World.{World, run, next_audit_row, done}
use jin_core.Base.{ℕ, ◌≡◌, ◌↔◌, refl, true, false, some, [], ◌∷◌, decimal, eq_iff, decimal, eq_iff}

abbrev entry : Entry
entry = approval_entry "r1" "owner" mail

abbrev first : AuditRow
first = next_audit_row host entry world

abbrev second : AuditRow
second = next_audit_row host entry (record world { audit = first ∷ []; audit_ids = 1 })

-- the approver is changed afterwards
abbrev forged : HashableRow
forged = record { entry = record entry { approver = some "nobody" }; timestamp = 5000 }

abbrev forged_world : World
forged_world = record world { audit = (record first { content = forged }) ∷ []; audit_ids = 1 }

false-true : false ≡ true → ⊥
false-true e = absurd (cc)

verify_chain-Linked_example :
    (verify_chain codec (first ∷ second ∷ []) ≡ valid)
    ↔ Linked codec genesis_hash (first ∷ second ∷ [])
verify_chain-Linked_example = verify_chain-Linked codec (first ∷ second ∷ [])

edited_row_is_found_example :
    verify_chain codec ((record first { content = forged }) ∷ second ∷ []) ≡ broken_at 1
unfolding next_audit_row verify_chain verify_from compute_row_hash compute_hash canonicalize_row
    decimal
edited_row_is_found_example =
    edited_row_is_found codec [] first (second ∷ []) forged refl
      (λ e. false-true ((eq_iff _ _).1 e))

removed_row_is_found_example : verify_chain codec (second ∷ []) ≡ broken_at 2
unfolding next_audit_row verify_chain verify_from compute_row_hash compute_hash canonicalize_row
    decimal
removed_row_is_found_example =
    removed_row_is_found codec [] first second [] refl (λ e. false-true ((eq_iff _ _).1 e))

log_stays_valid_example :
    verify_chain codec
      (run host (done ∷ []) (resolve_and_execute host tools "r1" "owner") world).1.audit
    ≡ valid
unfolding verify_chain verify_from
log_stays_valid_example =
    log_stays_valid host (done ∷ []) (resolve_and_execute host tools "r1" "owner") world refl

broken_log_refuses_example :
    let checked = run host [] (verify_daily codec) forged_world in
    let later = behind_jobs host (([], appends entry) ∷ ([], verifies) ∷ []) checked.1 in
    ((id : ℕ) × (checked ≡ (ok (broken_at id), record forged_world { chain_locked = true })))
    × (later.audit ≡ forged_world.audit)
    × (later.chain_locked ≡ true)
    × ((x : Error) × (run host [] (append_row entry) later ≡ (err x, later)))
unfolding next_audit_row compute_row_hash compute_hash canonicalize_row decimal
broken_log_refuses_example =
    broken_log_refuses host forged_world (([], appends entry) ∷ ([], verifies) ∷ []) [] entry
      (λ linked. false-true ((eq_iff _ _).1 linked.0.1))
