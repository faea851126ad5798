-- ===== src/Approval/Order.antt =====
-- The order of an execution: the row is read and clears, the claim is won, the approval is on record,
-- and only then the tool runs. A monitor states it apart from the code, for any answers.
use jin_core.Approval.NeverRuns.{is_approval}
use jin_core.Hitl.Levels.{confirm_once, confirm_twice, parse_level, PendingLevel}
use jin_core.Hitl.Pending.{Row}
use jin_core.Runtime.Monitor.{Obeys-of_free, Any, Obeys, Monitor}
use jin_core.Runtime.Program.{
  clock, invoke, pending_select, ok, audit_append, Reply, pending_claim, Answer, Op, Prog,
}
use jin_core.Base.{
  arith, ◌+◌, false, some, true, Option, Bool, none, ℕ, ◌≡◌, if◌then◌else◌, leb, or_else,
}

-- what a call has seen and won so far
pub record Seen : Type 0 where
  pub row : Option Row  -- the row as last read
  pub at : Option ℕ  -- the clock as first read
  pub won : Bool
  pub audited : Bool

-- the second approval of a row, 30 seconds after the first
abbrev pub clears_twice : Option ℕ → Option ℕ → ℕ → Bool
clears_twice none available now = false
clears_twice (some first) available now = leb (or_else available (first + 30000)) now

abbrev pub clears_level : Option PendingLevel → Row → ℕ → Bool
clears_level none row now = false
clears_level (some confirm_once) row now = true
clears_level (some confirm_twice) row now = clears_twice row.first_approved_at row.available_at now

-- whether an approval at `now` of the row as read is the last that it needs
abbrev pub clears : Option Row → Option ℕ → Bool
clears none at = false
clears (some row) none = false
clears (some row) (some now) = clears_level (parse_level row.level) row now

-- what may be asked before the approval is on record
abbrev pub Before : Seen → Op → Type 0
Before s (pending_claim _ _) = clears s.row s.at ≡ true
Before s (audit_append e) = is_approval e.approval_status ≡ true → s.won ≡ true
Before s (invoke _ _ _) = ⊥
Before s _ = Unit

abbrev pub Permit : Bool → Seen → Op → Type 0
Permit true s o = Unit
Permit false s o = Before s o

abbrev pub or_first : Option ℕ → ℕ → Option ℕ
or_first none t = some t
or_first (some u) t = some u

abbrev pub advance : Seen → (o : Op) → Answer (Reply o) → Seen
advance s clock (ok t) = record s { at = or_first s.at t }
advance s (pending_select _) (ok r) = record s { row = r }
advance s (pending_claim _ _) (ok (some _)) = record s { won = true }
advance s (audit_append e) (ok _) = record s {
  audited = if is_approval e.approval_status then true else s.audited;
}
advance s _ _ = s

abbrev pub protocol : Monitor
protocol = record { State = Seen; May = λ s o. Permit s.audited s o; move = advance }

abbrev pub nothing_seen : Seen
nothing_seen = record { row = none; at = none; won = false; audited = false }

abbrev pub seen : Option Row → ℕ → Seen
seen r now = record { row = r; at = some now; won = false; audited = false }

pub stays :
    (s : Seen) (o : Op) (a : Answer (Reply o)) → s.audited ≡ true → (advance s o a).audited ≡ true
stays s clock (ok _) e = e
stays s (pending_select _) (ok _) e = e
stays s (pending_claim _ _) (ok (some _)) e = e
stays s (audit_append x) (ok _) e = ground arith
stays s _ _ e = e

-- Once the approval is on record, any program keeps the order.
pub on_record : {A : Type 0} (p : Prog A) (s : Seen) → s.audited ≡ true → Obeys protocol s p Any
on_record p s e =
    Obeys-of_free protocol (λ s. s.audited ≡ true) may (λ s o a e. stays s o a e) p Any s
      (λ _ _ _. tt) e
  where
    may : (s : Seen) (o : Op) → s.audited ≡ true → Permit s.audited s o
    may s o e = rw e tt
