-- ===== src/Approval/Fuel.antt =====
-- Why two lookups are enough for `recordApproval` of src/hitl/dual-confirm.service.ts.
use jin_core.Hitl.Timing.{can_accept_second_approval, compute_available_at}
use jin_core.Hitl.Levels.{confirm_twice, confirm_once, parse_level, PendingLevel}
use jin_core.Hitl.Pending.{returning_where, update_where, approve_first, awaits_first, select, Row}
use jin_core.Approval.Among.{
  lost_race, acts_stay_marked, updated, later-NoneCreates, first_acts, interfered, later_acts,
  found_marked, NoneCreates, run_among,
}
use jin_core.Hitl.DualConfirm.{
  awaiting_second, approval_fuel, ApprovalOutcome, get_pending, record_approval, approve_twice,
  approve_level,
}
use jin_core.Base.{
  refl, true, arith, inr, inl, head?, or_else, is_some, Bool-cases, ◌≢◌, is_none, if◌then◌else◌,
  false, some, ◌≡◌, count, Option, List, Bool, ℕ, String,
}
use jin_core.Runtime.World.{
  done, later_outcomes, first_outcome, World, Outcome, perform, respond, Host,
}
use jin_core.Base.{none, some}
use jin_core.Runtime.Program.{
  pending_approval_not_found, throw, out_of_fuel, err, ret, pending_first_approval, pending_select,
  ◌>>=◌, settle, Op, Prog, Answer, ok,
}

module _ (h : Host) (rid approver : String) (now : ℕ) where
  -- what `record_approval` does behind its lookup
  abbrev looked_up : ℕ → Answer (Option Row) → Prog ApprovalOutcome
  looked_up fuel a = settle a >>= λ pending. elim pending [
    | none ↦ throw (pending_approval_not_found rid)
    | some row ↦
        approve_level (record_approval fuel rid approver now) rid approver now row
          (parse_level row.level)
  ]

  -- a first approval that stands asks nothing more
  marked-answers :
      (script : List Outcome) (others : List (List Op)) (again : Prog ApprovalOutcome)
      (available : Option ℕ) (first : ℕ) (w : World)
      → (run_among h script others
          (approve_twice again rid approver now available (some first))
          w).0
        ≢ err out_of_fuel
  unfolding approve_twice run_among
  marked-answers script others again available first w e =
      elim (Bool-cases
        (can_accept_second_approval (or_else available (compute_available_at first)) now)) [
          | inl late ↦ absurd (let bad = rw late at e in cc)
          | inr early ↦ absurd (let bad = rw early at e in cc)
        ]

  level-answers :
      (script : List Outcome) (others : List (List Op)) (again : Prog ApprovalOutcome) (row : Row)
      (level : Option PendingLevel) (first : Option ℕ) (w : World)
      → row.first_approved_at ≡ first
      → is_none first ≡ false
      → (run_among h script others (approve_level again rid approver now row level) w).0
        ≢ err out_of_fuel
  unfolding approve_level run_among
  level-answers script others again row level none w same marked e = absurd (cc)
  level-answers script others again row none (some first) w same marked e = absurd (cc)
  level-answers script others again row (some confirm_once) (some first) w same marked e =
      absurd (cc)
  level-answers script others again row (some confirm_twice) (some first) w same marked e =
      marked-answers script others again row.available_at first w (rw same at e)

  behind_lookup-answers :
      (script : List Outcome) (others : List (List Op)) (fuel : ℕ) (v : World) (o : Option Row)
      → select rid v.pending ≡ o
      → count (awaits_first rid) v.pending ≡ 0
      → (run_among h script others (looked_up fuel (ok o)) v).0 ≢ err out_of_fuel
  unfolding run_among
  behind_lookup-answers script others fuel v none found none_open = λ e. absurd (cc)
  behind_lookup-answers script others fuel v (some row) found none_open =
      level-answers script others (record_approval fuel rid approver now) row
        (parse_level row.level) row.first_approved_at v refl
        (found_marked h rid v.pending row none_open found)

  -- the lookup behind a lost race
  lookup_again-answers :
      (x : Outcome) (script : List Outcome) (others : List (List Op)) (v : World)
      → count (awaits_first rid) v.pending ≡ 0
      → (run_among h script others
          (looked_up 0 (respond h x (pending_select rid) v).0)
          (respond h x (pending_select rid) v).1).0
        ≢ err out_of_fuel
  unfolding respond perform run_among
  lookup_again-answers done script others v none_open =
      behind_lookup-answers script others 0 v (select rid v.pending) refl none_open
  lookup_again-answers Outcome.failed script others v none_open = λ e. absurd (cc)
  lookup_again-answers Outcome.lost script others v none_open = λ e. absurd (cc)

  again-answers :
      (script : List Outcome) (others : List (List Op)) (w : World)
      → NoneCreates h rid others
      → count (awaits_first rid) w.pending ≡ 0
      → (run_among h script others (record_approval 1 rid approver now) w).0 ≢ err out_of_fuel
  unfolding run_among record_approval get_pending
  again-answers script others w calm none_open =
      lookup_again-answers (first_outcome script) (later_outcomes script) (later_acts others)
        (interfered h (first_acts others) w) (acts_stay_marked h rid others w calm none_open)

  -- the update of the first approval, and what follows a lost race
  abbrev behind_race : Answer Bool → Prog ApprovalOutcome
  behind_race a =
      settle a >>= λ won. if won then ret awaiting_second else record_approval 1 rid approver now

  decided-answers :
      (script : List Outcome) (others : List (List Op)) (v : World) (won : Bool)
      → (won ≡ false → count (awaits_first rid) v.pending ≡ 0)
      → NoneCreates h rid others
      → (run_among h script others (behind_race (ok won)) v).0 ≢ err out_of_fuel
  unfolding run_among
  decided-answers script others v true lost calm = λ e. absurd (cc)
  decided-answers script others v false lost calm = again-answers script others v calm (lost refl)

  raced-answers :
      (x : Outcome) (script : List Outcome) (others : List (List Op)) (v : World)
      → NoneCreates h rid others
      → let o = pending_first_approval rid approver now (compute_available_at now) in
        (run_among h script others (behind_race (respond h x o v).0) (respond h x o v).1).0
        ≢ err out_of_fuel
  unfolding respond perform run_among
  raced-answers done script others v calm =
      let f = approve_first approver now (compute_available_at now) in
      decided-answers script others
        (record v { pending = update_where (awaits_first rid) f v.pending })
        (is_some (head? (returning_where (awaits_first rid) f v.pending)))
        (λ lost.
          updated rid (awaits_first rid) f v.pending (λ r e. ground (arith, e))
            (lost_race h rid f v.pending lost))
        calm
  raced-answers Outcome.failed script others v calm = λ e. absurd (cc)
  raced-answers Outcome.lost script others v calm = λ e. absurd (cc)

  first_level-answers :
      (script : List Outcome) (others : List (List Op)) (row : Row) (level : Option PendingLevel)
      (first : Option ℕ) (w : World)
      → row.first_approved_at ≡ first
      → NoneCreates h rid others
      → (run_among h script others
          (approve_level (record_approval 1 rid approver now) rid approver now row level)
          w).0
        ≢ err out_of_fuel
  unfolding approve_level approve_twice run_among
  first_level-answers script others row none first w same calm = λ e. absurd (cc)
  first_level-answers script others row (some confirm_once) first w same calm = λ e. absurd (cc)
  first_level-answers script others row (some confirm_twice) (some first) w same calm = λ e.
      marked-answers script others (record_approval 1 rid approver now) row.available_at first w
        (rw same at e)
  first_level-answers script others row (some confirm_twice) none w same calm = λ e.
      raced-answers (first_outcome script) (later_outcomes script) (later_acts others)
        (interfered h (first_acts others) w) (later-NoneCreates h rid others calm) (rw same at e)

  first_lookup-answers :
      (x : Outcome) (script : List Outcome) (others : List (List Op)) (v : World)
      → NoneCreates h rid others
      → (run_among h script others
          (looked_up 1 (respond h x (pending_select rid) v).0)
          (respond h x (pending_select rid) v).1).0
        ≢ err out_of_fuel
  unfolding respond perform run_among
  first_lookup-answers done script others v calm = found_or_not (select rid v.pending)
    where
      found_or_not :
          (o : Option Row) → (run_among h script others (looked_up 1 (ok o)) v).0 ≢ err out_of_fuel
      found_or_not none = λ e. absurd (cc)
      found_or_not (some row) =
          first_level-answers script others row (parse_level row.level) row.first_approved_at v refl
            calm
  first_lookup-answers Outcome.failed script others v calm = λ e. absurd (cc)
  first_lookup-answers Outcome.lost script others v calm = λ e. absurd (cc)

  -- `recordApproval` calls itself at most once: whatever others do to the tables before each of its
  -- questions, as long as they do not create a row of the request, and wherever its own questions fail,
  -- a fuel of 2 lookups does not run out.
  pub record_approval_fuel :
      (script : List Outcome) (others : List (List Op)) (w : World)
      → NoneCreates h rid others
      → (run_among h script others (record_approval approval_fuel rid approver now) w).0
        ≢ err out_of_fuel
  unfolding run_among record_approval get_pending
  record_approval_fuel script others w calm =
      first_lookup-answers (first_outcome script) (later_outcomes script) (later_acts others)
        (interfered h (first_acts others) w) (later-NoneCreates h rid others calm)
