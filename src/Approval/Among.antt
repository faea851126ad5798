-- ===== src/Approval/Among.antt =====
-- A call of src/hitl/dual-confirm.service.ts among others: what they may do to the table of the approvals
-- before each of its questions, and that a lost race stays lost.
use jin_core.Runtime.World.{later_outcomes, first_outcome, respond, World, Outcome, perform, Host}
use jin_core.Hitl.Pending.{
  is_idle_or_stuck, escalate_row, release_row, claim_row, is_open, has_id, approve_first,
  awaits_first, insert, Table, Row, select, returning_where, update_where, delete_where,
}
use jin_core.Base.{
  refl, inr, or_else, ap, inl, count-append, Bool-cases, is_none, str_eq, false, arith, some, head?,
  count, [], ◌≡◌, is_some, Bool, ◌∷◌, All, String, List,
}
use jin_core.Runtime.Program.{
  pending_remove_idle, pending_remove, pending_escalate, pending_release, pending_claim, ask, err,
  throw, pending_first_approval, ret, pending_insert, Answer, Prog, Op, ok,
}

-- the creation of a row of the request
abbrev pub creates : String → Op → Bool
creates rid (pending_insert r) = str_eq r.request_id rid
creates rid _ = false

-- an update that gives no row back its missing approval
pub updated :
    (rid : String) (p : Row → Bool) (f : Row → Row) (t : Table)
    → ((r : Row) → awaits_first rid r ≡ false → awaits_first rid (f r) ≡ false)
    → count (awaits_first rid) t ≡ 0
    → count (awaits_first rid) (update_where p f t) ≡ 0
unfolding update_where
updated rid p f [] keep none_open = none_open
updated rid p f (r ∷ t) keep none_open = ground (arith, keep r, updated rid p f t keep)

deleted :
    (rid : String) (p : Row → Bool) (t : Table)
    → count (awaits_first rid) t ≡ 0
    → count (awaits_first rid) (delete_where p t) ≡ 0
unfolding delete_where
deleted rid p [] none_open = none_open
deleted rid p (r ∷ t) none_open = ground (arith, deleted rid p t)

abbrev pub first_acts : List (List Op) → List Op
first_acts [] = []
first_acts (os ∷ _) = os

abbrev pub later_acts : List (List Op) → List (List Op)
later_acts [] = []
later_acts (_ ∷ others) = others

module _ (h : Host) where
  -- What others do to the world between two questions of a call.
  abbrev pub interfered : List Op → World → World
  interfered [] w = w
  interfered (o ∷ os) w = interfered os (perform h o w).1

  -- A run of a program where others act before each of its questions.
  unfoldable pub run_among :
      {A : Type 0} → List Outcome → List (List Op) → Prog A → World → Answer A × World
  run_among s others (ret a) w = (ok a, w)
  run_among s others (throw e) w = (err e, w)
  run_among s others (ask o k) w =
      let (a, v) = respond h (first_outcome s) o (interfered (first_acts others) w) in
      run_among (later_outcomes s) (later_acts others) (k a) v

module _ (h : Host) (rid : String) where
  -- When no row of a request waits for its first approval, none does after any question but the creation
  -- of a row of that request: a lost race stays lost.
  pub marked_stays :
      (o : Op) (w : World)
      → creates rid o ≡ false
      → count (awaits_first rid) w.pending ≡ 0
      → count (awaits_first rid) (perform h o w).1.pending ≡ 0
  unfolding perform insert
  marked_stays (pending_first_approval r a n v) w other none_open =
      updated rid (awaits_first r) (approve_first a n v) w.pending (λ x e. ground arith) none_open
  marked_stays (pending_insert r) w other none_open =
      ground
        (arith, count-append (awaits_first rid) w.pending (record r { created_at = w.now } ∷ []))
  marked_stays (pending_claim r n) w other none_open =
      updated rid (is_open r) (claim_row n) w.pending (λ x e. e) none_open
  marked_stays (pending_release r e) w other none_open =
      updated rid (has_id r) (release_row e) w.pending (λ x e. e) none_open
  marked_stays (pending_escalate r n) w other none_open =
      updated rid (has_id r) (escalate_row n) w.pending (λ x e. e) none_open
  marked_stays (pending_remove r) w other none_open = deleted rid (has_id r) w.pending none_open
  marked_stays (pending_remove_idle r n) w other none_open =
      deleted rid (is_idle_or_stuck r n) w.pending none_open
  marked_stays o w other none_open = none_open

  -- nobody creates a row of the request
  abbrev pub NoneCreates : List (List Op) → Type 0
  NoneCreates others = All (λ os. All (λ o. creates rid o ≡ false) os) others

  stays_marked :
      (os : List Op) (w : World)
      → All (λ o. creates rid o ≡ false) os
      → count (awaits_first rid) w.pending ≡ 0
      → count (awaits_first rid) (interfered h os w).pending ≡ 0
  stays_marked [] w others none_open = none_open
  stays_marked (o ∷ os) w (other, others) none_open =
      stays_marked os (perform h o w).1 others (marked_stays o w other none_open)

  pub acts_stay_marked :
      (others : List (List Op)) (w : World)
      → NoneCreates others
      → count (awaits_first rid) w.pending ≡ 0
      → count (awaits_first rid) (interfered h (first_acts others) w).pending ≡ 0
  acts_stay_marked [] w calm none_open = none_open
  acts_stay_marked (os ∷ others) w (first, later) none_open = stays_marked os w first none_open

  pub later-NoneCreates :
      (others : List (List Op)) → NoneCreates others → NoneCreates (later_acts others)
  later-NoneCreates [] calm = tt
  later-NoneCreates (os ∷ others) (first, later) = later

  -- the row that a lookup finds has its first approval, when none waits for it
  pub found_marked :
      (t : Table) (row : Row)
      → count (awaits_first rid) t ≡ 0
      → select rid t ≡ some row
      → is_none row.first_approved_at ≡ false
  unfolding select
  found_marked [] row none_open found = absurd (cc)
  found_marked (r ∷ t) row none_open found = elim (Bool-cases (has_id rid r)) [
    | inl same ↦
        let first : r ≡ row = ap (λ o. or_else o row) (rw same at found) in
        ground (arith, first, same, none_open)
    | inr other ↦ found_marked t row (ground (arith, none_open, other)) (rw other at found)
  ]

  pub lost_race :
      (f : Row → Row) (t : Table)
      → is_some (head? (returning_where (awaits_first rid) f t)) ≡ false
      → count (awaits_first rid) t ≡ 0
  unfolding returning_where
  lost_race f [] lost = refl
  lost_race f (r ∷ t) lost = ground (arith, lost_race f t)
