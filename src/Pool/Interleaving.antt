-- ===== src/Pool/Interleaving.antt =====
-- The calls in flight at once, over one world. At each step a call arrives, a call's question is
-- answered in one of the three ways, a call is lost with its process, or time passes.
use jin_core.Audit.Service.{verify_daily}
use jin_core.Hitl.Timeouts.{sweep}
use jin_core.Hitl.Execution.{resolve_rejection, resolve_and_execute}
use jin_core.Runtime.Program.{ask, ret, Reply, ◌>>◌, Answer, Op, Prog}
use jin_core.Hitl.Executors.{Registry}
use jin_core.Runtime.World.{respond, Outcome, Host, World}
use jin_core.Hitl.DualConfirm.{create_pending_approval, CreatePendingApprovalInput}
use jin_core.Base.{ℕ, ◌+◌, ◌≡◌, String, false, List, ◌∷◌, ◌++◌, str_eq}

pub data Call : Type 0 where
  approve reject : String → String → Call  -- the request and who answers
  run_sweep : Call
  verify : Call
  create : CreatePendingApprovalInput → Call

-- the body of a call
unfoldable pub enter : Host → Registry → Call → Prog (Unit {0})
enter h reg (approve rid approver) = resolve_and_execute h reg rid approver >> ret tt
enter h reg (reject rid approver) = resolve_rejection rid approver
enter h reg run_sweep = sweep
enter h reg verify = verify_daily h.codec >> ret tt
enter h reg (create i) = create_pending_approval i

-- UUIDs are not drawn twice: no call creates `r` anew.
abbrev pub Admits : String → Call → Type 0
Admits r (create i) = str_eq i.request_id r ≡ false
Admits r _ = Unit

abbrev pub Config : Type 0
Config = World × List (Prog (Unit {0}))

pub data Step (h : Host) (reg : Registry) (r : String) : Config → Config → Type 0 where
  arrive :
      (w : World) (ps : List (Prog (Unit {0}))) (call : Call)
      → Admits r call
      → Step h reg r (w, ps) (w, enter h reg call ∷ ps)
  answer :
      (w : World) (before after : List (Prog (Unit {0}))) (o : Op)
      (k : Answer (Reply o) → Prog (Unit {0})) (x : Outcome)
      → Step h reg r
          (w, before ++ ask o k ∷ after)
          ((respond h x o w).1, before ++ k (respond h x o w).0 ∷ after)
  crash :
      (w : World) (before after : List (Prog (Unit {0}))) (p : Prog (Unit {0}))
      → Step h reg r (w, before ++ p ∷ after) (w, before ++ after)
  tick :
      (w : World) (ps : List (Prog (Unit {0}))) (ms : ℕ)
      → Step h reg r (w, ps) (record w { now = w.now + ms }, ps)

pub data Reach (h : Host) (reg : Registry) (r : String) (c : Config) : Config → Type 0 where
  here : Reach h reg r c c
  next : {d e : Config} → Reach h reg r c d → Step h reg r d e → Reach h reg r c e
