-- ===== src/Approval/Outcomes.antt =====
-- What a call of `resolveAndExecute` does when every question is answered, by the state of the row.
use jin_core.Approval.Order.{clears_twice, clears}
use jin_core.Runtime.Steps.{run_ret, run-ask}
use jin_core.Hitl.DualConfirm.{resolved, record_approval, approve_level, approve_twice}
use jin_core.Runtime.Program.{
  throw, ret, clock, pending_first_approval, ◌>>=◌, pending_select, second_approval_too_early, err,
  ok,
}
use jin_core.Hitl.Levels.{confirm_once, PendingLevel, confirm_twice, parse_level}
use jin_core.Hitl.Timing.{can_accept_second_approval, compute_available_at}
use jin_core.Hitl.Execution.{claim_and_run, after_approval, awaits, resolve_and_execute}
use jin_core.Hitl.Executors.{Registry}
use jin_core.Runtime.World.{perform, run, World, Host}
use jin_core.Hitl.Pending.{
  approve_first, update_where, awaits_first, is_open, Table, Row, returning_where, select,
}
use jin_core.Base.{
  if◌then◌else◌, ap, ◌∙◌, leb, ◌<◌, or_else, arith, ◌∷◌, head?, ℕ, ◌+◌, ◌≡◌, refl, String, true,
  false, Option, none, some, [],
}

-- a row with its first approval, the second one open 30 seconds later
abbrev pub approved_once : String → ℕ → Row → Row
approved_once approver now r = record r {
  first_approved_at = some now;
  first_approver = some approver;
  available_at = some (now + 30000);
}

-- The row that the lookup finds is the first that the conditional writes meet.
returning_first :
    (rid : String) (f : Row → Row) (t : Table) (row : Row)
    → select rid t ≡ some row
    → row.first_approved_at ≡ none
    → head? (returning_where (awaits_first rid) f t) ≡ some (f row)
unfolding select returning_where
returning_first rid f [] row found free = cc
returning_first rid f (x ∷ t) row found free = ground (arith, returning_first rid f t row)

pub returning_open :
    (rid : String) (f : Row → Row) (t : Table) (row : Row)
    → select rid t ≡ some row
    → row.executing_at ≡ none
    → head? (returning_where (is_open rid) f t) ≡ some (f row)
unfolding select returning_where
returning_open rid f [] row found free = cc
returning_open rid f (x ∷ t) row found free = ground (arith, returning_open rid f t row)

module _ (h : Host) (reg : Registry) (rid approver : String) (w : World) (row : Row)
    (found : select rid w.pending ≡ some row) where
  found_row : perform h (pending_select rid) w ≡ (ok (some row), w)
  unfolding perform
  found_row = rw found

  -- the call up to the row's level: two lookups and a look at the clock
  to_level :
      run h [] (resolve_and_execute h reg rid approver) w
      ≡ run h []
          (approve_level
              (record_approval 1 rid approver w.now)
              rid
              approver
              w.now
              row
              (parse_level row.level)
            >>= after_approval h reg rid approver)
          w
  unfolding resolve_and_execute record_approval perform
  to_level =
      run-ask h (pending_select rid) _ w found_row
      ∙ run-ask h clock _ w refl
      ∙ run-ask h (pending_select rid) _ w found_row

  to_second :
      parse_level row.level ≡ some confirm_twice
      → run h [] (resolve_and_execute h reg rid approver) w
        ≡ run h []
            (approve_twice
                (record_approval 1 rid approver w.now)
                rid
                approver
                w.now
                row.available_at
                row.first_approved_at
              >>= after_approval h reg rid approver)
            w
  unfolding approve_level
  to_second twice =
      to_level
      ∙ ap
          (λ l.
            run h []
              (approve_level (record_approval 1 rid approver w.now) rid approver w.now row l
                >>= after_approval h reg rid approver)
              w)
          twice

  -- The first approval of a `dual-confirm` executes nothing: it only records who and when, and opens
  -- the second one 30 seconds later.
  pub first_approval_waits :
      parse_level row.level ≡ some confirm_twice
      → row.first_approved_at ≡ none
      → run h [] (resolve_and_execute h reg rid approver) w ≡ (
        ok awaits,
        record w {
          pending = update_where (awaits_first rid) (approved_once approver w.now) w.pending;
        },
      )
  unfolding approve_twice perform compute_available_at after_approval
  first_approval_waits twice free =
      to_second twice
      ∙ ap
          (λ f.
            run h []
              (approve_twice (record_approval 1 rid approver w.now) rid approver w.now
                  row.available_at f
                >>= after_approval h reg rid approver)
              w)
          free
      ∙ run-ask h (pending_first_approval rid approver w.now (w.now + 30000)) _ w recorded
      ∙ run_ret h awaits _
    where
      recorded : perform h (pending_first_approval rid approver w.now (w.now + 30000)) w ≡ (
        ok true,
        record w {
          pending =
              update_where
                (awaits_first rid)
                (approve_first approver w.now (w.now + 30000))
                w.pending;
        },
      )
      recorded = rw (
          returning_first rid (approve_first approver w.now (w.now + 30000)) w.pending row found
            free)

  -- A second approval that comes before the row's `availableAt` is refused and changes nothing.
  pub early_second_approval_refused :
      (first : ℕ)
      → parse_level row.level ≡ some confirm_twice
      → row.first_approved_at ≡ some first
      → w.now < or_else row.available_at (first + 30000)
      → run h [] (resolve_and_execute h reg rid approver) w
        ≡ (err (second_approval_too_early rid (or_else row.available_at (first + 30000))), w)
  unfolding approve_twice can_accept_second_approval compute_available_at run
  early_second_approval_refused first twice one early =
      to_second twice
      ∙ ap
          (λ f.
            run h []
              (approve_twice (record_approval 1 rid approver w.now) rid approver w.now
                  row.available_at f
                >>= after_approval h reg rid approver)
              w)
          one
      ∙ ap
          (λ b.
            run h []
              ((if b
                  then ret resolved
                  else throw
                      (second_approval_too_early rid (or_else row.available_at (first + 30000))))
                >>= after_approval h reg rid approver)
              w)
          too_early
    where
      too_early : leb (or_else row.available_at (first + 30000)) w.now ≡ false
      too_early = ground arith

  -- an approval that clears goes on to the claim
  pub to_claim :
      clears (some row) (some w.now) ≡ true
      → run h [] (resolve_and_execute h reg rid approver) w
        ≡ run h [] (claim_and_run h reg rid approver) w
  unfolding approve_level approve_twice can_accept_second_approval compute_available_at
      after_approval
  to_claim clear = to_level ∙ cleared (parse_level row.level) refl
    where
      by_first :
          parse_level row.level ≡ some confirm_twice
          → (f : Option ℕ) → row.first_approved_at ≡ f
          → run h []
              (approve_twice
                  (record_approval 1 rid approver w.now)
                  rid
                  approver
                  w.now
                  row.available_at
                  f
                >>= after_approval h reg rid approver)
              w
            ≡ run h [] (claim_and_run h reg rid approver) w
      by_first e none q =
          let never : clears_twice none row.available_at w.now ≡ true = rw (e, q) at clear in
          absurd (cc never)
      by_first e (some first) q =
          let accepted : leb (or_else row.available_at (first + 30000)) w.now ≡ true =
            rw (e, q) at clear in
          ap
            (λ b.
              run h []
                ((if b
                    then ret resolved
                    else throw
                        (second_approval_too_early rid (or_else row.available_at (first + 30000))))
                  >>= after_approval h reg rid approver)
                w)
            accepted

      cleared :
          (l : Option PendingLevel)
          → parse_level row.level ≡ l
          → run h []
              (approve_level (record_approval 1 rid approver w.now) rid approver w.now row l
                >>= after_approval h reg rid approver)
              w
            ≡ run h [] (claim_and_run h reg rid approver) w
      cleared none e = absurd (cc)
      cleared (some confirm_once) e = refl
      cleared (some confirm_twice) e = by_first e row.first_approved_at refl
