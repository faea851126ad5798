-- ===== src/Pool/Effects.antt =====
-- The bound on the tokens of a request, and that every question keeps it, however it ends.
use jin_core.Budget.Tables.{session_set, session_get}
use jin_core.Pool.Tokens.{
  open_release_other, count_open-le, claim_moves, count-update_where, count-delete_where,
}
use jin_core.Hitl.Payload.{Payload}
use jin_core.Pool.Discipline.{Needs, Holds, after}
use jin_core.Hitl.Pending.{
  is_idle_or_stuck, escalate_row, approve_first, awaits_first, release_row, claim_row, update_where,
  is_open, has_id, insert, delete_where, Row,
}
use jin_core.Runtime.Program.{
  random_nonce, usage, sleep, random_uuid, clock, emit, pending_remove_idle, pending_remove,
  pending_escalate, pending_first_approval, err, pending_release, pending_insert, invoke, Error,
  pending_claim, Op,
}
use jin_core.Runtime.World.{
  fault, done, Outcome, respond, is_invoke, perform, Invocation, World, Host,
}
use jin_core.Base.{
  eq_iff, inr, [], inl, ◌∷◌, Bool-cases, count-append, arith, false, str_eq, Option, Bool, count, ℕ,
  ◌+◌, ◌≤◌, ◌≡◌, refl, String,
}

-- the tools that ran for a request
abbrev pub for_request : String → Invocation → Bool
for_request r i = str_eq i.request r

-- One row of `r` at most; and the tokens in hand, the open rows and the runs are one at most together.
pub record Bounded (r : String) (k : ℕ) (w : World) : Type 0 where
  pub one_row : count (has_id r) w.pending ≤ 1
  pub one_token : k + count (is_open r) w.pending + count (for_request r) w.invoked ≤ 1

-- What an answered question leaves, and what it leaves when its answer is lost.
abbrev pub Leaves : Host → String → Op → World → ℕ → ℕ → Type 0
Leaves h r o w n m =
    Bounded r (after r o n (perform h o w).0 + m) (perform h o w).1
    × ((e : Error) → is_invoke o ≡ false → Bounded r (after r o n (err e) + m) (perform h o w).1)

module _ (h : Host) (r : String) (w : World) (n m : ℕ) (b : Bounded r (n + m) w) where
  claim-Leaves : (rid : String) (now : ℕ) → Leaves h r (pending_claim rid now) w n m
  unfolding perform
  claim-Leaves rid now = ground (
    arith,
    count-update_where (has_id r) (is_open rid) (claim_row now) w.pending (λ row. refl),
    claim_moves r rid now w.pending,
  )

  release-Leaves :
      (rid : String) (e : Option String) → Holds r rid n → Leaves h r (pending_release rid e) w n m
  unfolding perform
  release-Leaves rid e holds = elim (Bool-cases (str_eq rid r)) [
    | inl same ↦ ground (
      arith,
      holds same,
      count-update_where (has_id r) (has_id rid) (release_row e) w.pending (λ row. refl),
      count_open-le r (update_where (has_id rid) (release_row e) w.pending),
    )
    | inr other ↦ ground (
      arith,
      count-update_where (has_id r) (has_id rid) (release_row e) w.pending (λ row. refl),
      open_release_other r rid e w.pending (λ e. cc ((eq_iff rid r).1 e, other)),
    )
  ]

  insert-Leaves :
      (row : Row) → str_eq row.request_id r ≡ false → Leaves h r (pending_insert row) w n m
  unfolding perform insert
  insert-Leaves row fresh = ground (
    arith,
    count-append (has_id r) w.pending ((record row { created_at = w.now }) ∷ []),
    count-append (is_open r) w.pending ((record row { created_at = w.now }) ∷ []),
  )

  update-Leaves :
      (p : Row → Bool) (f : Row → Row)
      → ((row : Row) → has_id r (f row) ≡ has_id r row)
      → ((row : Row) → is_open r (f row) ≡ is_open r row)
      → Bounded r (n + m) (record w { pending = update_where p f w.pending })
  update-Leaves p f same_id same_open = ground (
    arith,
    count-update_where (has_id r) p f w.pending same_id,
    count-update_where (is_open r) p f w.pending same_open,
  )

  delete-Leaves :
      (p : Row → Bool) → Bounded r (n + m) (record w { pending = delete_where p w.pending })
  delete-Leaves p =
      ground (
        arith,
        count-delete_where (has_id r) p w.pending,
        count-delete_where (is_open r) p w.pending,
      )

  invoke-Leaves :
      (tool : String) (payload : Option Payload) (rid : String)
      → Holds r rid n
      → Bounded r
          (after r (invoke tool payload rid) n (perform h (invoke tool payload rid) w).0 + m)
          (perform h (invoke tool payload rid) w).1
  unfolding perform
  invoke-Leaves tool payload rid holds = ground (arith, holds)

  -- a statement that touches neither the approvals nor the tools
  other-Leaves :
      (w' : World) → w'.pending ≡ w.pending → w'.invoked ≡ w.invoked → Bounded r (n + m) w'
  other-Leaves w' same_pending same_invoked = record {
    one_row = rw same_pending b.one_row;
    one_token = rw (same_pending, same_invoked) b.one_token;
  }

  perform-Leaves : (o : Op) → Needs r o n → is_invoke o ≡ false → Leaves h r o w n m
  unfolding perform
  perform-Leaves (invoke _ _ _) _ i = absurd (cc)
  perform-Leaves (pending_insert row) fresh _ = insert-Leaves row fresh
  perform-Leaves (pending_first_approval rid approver now available) _ _ =
      let u =
        update-Leaves (awaits_first rid) (approve_first approver now available) (λ _. refl)
          (λ _. refl) in
      (u, λ _ _. u)
  perform-Leaves (pending_claim rid now) _ _ = claim-Leaves rid now
  perform-Leaves (pending_release rid e) holds _ = release-Leaves rid e holds
  perform-Leaves (pending_escalate rid now) _ _ =
      let u = update-Leaves (has_id rid) (escalate_row now) (λ _. refl) (λ _. refl) in (u, λ _ _. u)
  perform-Leaves (pending_remove rid) _ _ = let u = delete-Leaves (has_id rid) in (u, λ _ _. u)
  perform-Leaves (pending_remove_idle rid stuck_before) _ _ =
      let u = delete-Leaves (is_idle_or_stuck rid stuck_before) in (u, λ _ _. u)
  perform-Leaves o _ _ = let u = other-Leaves (perform h o w).1 refl refl in (u, λ _ _. u)

  -- However a question ends, the bound is kept.
  pub respond-Bounded :
      (x : Outcome) (o : Op)
      → Needs r o n
      → Bounded r (after r o n (respond h x o w).0 + m) (respond h x o w).1
  unfolding respond
  respond-Bounded done (invoke tool payload rid) need = invoke-Leaves tool payload rid need
  respond-Bounded done o need = (perform-Leaves o need refl).0
  respond-Bounded Outcome.failed clock need = (perform-Leaves clock tt refl).0
  respond-Bounded Outcome.failed random_uuid need = (perform-Leaves random_uuid tt refl).0
  respond-Bounded Outcome.failed (emit e) need = (perform-Leaves (emit e) tt refl).0
  respond-Bounded Outcome.failed random_nonce need = (perform-Leaves random_nonce tt refl).0
  respond-Bounded Outcome.failed (sleep ms) need = (perform-Leaves (sleep ms) tt refl).0
  respond-Bounded Outcome.failed (usage (session_get sid)) need =
      (perform-Leaves (usage (session_get sid)) tt refl).0
  respond-Bounded Outcome.failed (usage (session_set sid u)) need =
      (perform-Leaves (usage (session_set sid u)) tt refl).0
  respond-Bounded Outcome.failed (pending_release rid e) need = ground (arith, b)
  respond-Bounded Outcome.failed o need = b
  respond-Bounded Outcome.lost (invoke tool payload rid) need = b
  respond-Bounded Outcome.lost clock need = (perform-Leaves clock tt refl).0
  respond-Bounded Outcome.lost random_uuid need = (perform-Leaves random_uuid tt refl).0
  respond-Bounded Outcome.lost (emit e) need = (perform-Leaves (emit e) tt refl).0
  respond-Bounded Outcome.lost random_nonce need = (perform-Leaves random_nonce tt refl).0
  respond-Bounded Outcome.lost (sleep ms) need = (perform-Leaves (sleep ms) tt refl).0
  respond-Bounded Outcome.lost (usage (session_get sid)) need =
      (perform-Leaves (usage (session_get sid)) tt refl).0
  respond-Bounded Outcome.lost (usage (session_set sid u)) need =
      (perform-Leaves (usage (session_set sid u)) tt refl).0
  respond-Bounded Outcome.lost o need = (perform-Leaves o need refl).1 (fault o) refl
