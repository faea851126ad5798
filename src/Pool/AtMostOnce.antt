-- ===== src/Pool/AtMostOnce.antt =====
-- An approved action is executed at most once, whatever calls arrive at once and whatever fails.
use jin_core.Runtime.Monitor.{Obeys-weaken, Obeys-bind, Then, Any}
use jin_core.Audit.Service.{verify_daily}
use jin_core.Pool.Background.{
  create_pending_approval-Disciplined, verify_daily-Disciplined, sweep-Disciplined,
}
use jin_core.Hitl.Pending.{is_open, has_id}
use jin_core.Pool.Calls.{resolve_rejection-Disciplined, resolve_and_execute-Disciplined}
use jin_core.Hitl.Execution.{resolve_and_execute}
use jin_core.Pool.Services.{IsDisciplined}
use jin_core.Hitl.Executors.{Registry}
use jin_core.Pool.Effects.{for_request, respond-Bounded, Bounded}
use jin_core.Pool.Discipline.{tokens, Disciplined}
use jin_core.Runtime.World.{respond, World, Host}
use jin_core.Pool.Interleaving.{
  verify, run_sweep, create, reject, here, next, approve, Reach, tick, crash, Admits, answer, Call,
  arrive, enter, Step, Config,
}
use jin_core.Runtime.Program.{err, ok, Answer, ret, ◌>>◌, ask, Prog}
use jin_core.Pool.Discipline
use jin_core.Base.{count, ℕ, ◌+◌, ◌≤◌, ◌≡◌, refl, String, List, [], ◌∷◌, ◌++◌, arith}

-- The programs in flight are disciplined, with `k` tokens in hand together.
abbrev pub HoldAll : String → ℕ → List (Prog (Unit {0})) → Type 0
HoldAll r k [] = k ≡ 0
HoldAll r k (p ∷ ps) = (n : ℕ) × (m : ℕ) × (k ≡ n + m) × Disciplined r n p Any × HoldAll r m ps

-- what `HoldAll` says of one program in the middle: its tokens, the others', and how to replace it
abbrev Split :
    String → ℕ → List (Prog (Unit {0})) → Prog (Unit {0}) → List (Prog (Unit {0})) → Type 0
Split r k before p after =
    (n : ℕ) × (m : ℕ) × (k ≡ n + m)
    × Disciplined r n p Any
    × HoldAll r m (before ++ after)
    × ((n' : ℕ) (p' : Prog (Unit {0}))
        → Disciplined r n' p' Any
        → HoldAll r (n' + m) (before ++ p' ∷ after))

split :
    (r : String) (k : ℕ) (before : List (Prog (Unit {0}))) (p : Prog (Unit {0}))
    (after : List (Prog (Unit {0})))
    → HoldAll r k (before ++ p ∷ after)
    → Split r k before p after
split r k [] p after (n, m, e, d, rest) = (n, m, e, d, rest, λ n' p' d'. (n', m, refl, d', rest))
split r k (q ∷ before) p after (n, m, e, d, rest) =
    let (n₁, m₁, e₁, d₁, others, replace) = split r m before p after rest in
    (
      n₁,
      n + m₁,
      omega arith,
      d₁,
      (n, m₁, refl, d, others),
      λ n' p' d'. (n, n' + m₁, omega arith, d, replace n' p' d'),
    )

-- The invariant of the whole system.
pub record Exclusive (r : String) (c : Config) : Type 0 where
  pub in_hand : ℕ
  pub hold : HoldAll r in_hand c.1
  pub bounded : Bounded r in_hand c.0

module _ (r : String) where
  to_unit : {A : Type 0} (m : Prog A) → Disciplined r 0 m Any → Disciplined r 0 (m >> ret tt) Any
  to_unit m d =
      Obeys-bind (tokens r) m _ Any 0 (Obeys-weaken (tokens r) m Any _ 0 (λ k a _. ended k a) d)
    where
      ended :
          {A : Type 0} (k : ℕ) (a : Answer A)
          → Then (tokens r) (λ _. ret tt) (Any {A = Unit {0}}) k a
      ended k (ok x) = tt
      ended k (err e) = tt

module _ (h : Host) (reg : Registry) (r : String) (d : IsDisciplined r reg) where
  enter-Disciplined : (call : Call) → Admits r call → Disciplined r 0 (enter h reg call) Any
  unfolding enter
  enter-Disciplined (approve rid approver) _ =
      to_unit r (resolve_and_execute h reg rid approver)
        (resolve_and_execute-Disciplined r h reg rid approver 0 d)
  enter-Disciplined (reject rid approver) _ = resolve_rejection-Disciplined r rid approver 0
  enter-Disciplined run_sweep _ = sweep-Disciplined r 0
  enter-Disciplined verify _ =
      to_unit r (verify_daily h.codec) (verify_daily-Disciplined r h.codec 0)
  enter-Disciplined (create i) fresh = create_pending_approval-Disciplined r i 0 fresh

  Step-Exclusive : {c c' : Config} → Step h reg r c c' → Exclusive r c → Exclusive r c'
  Step-Exclusive (arrive w ps call fresh) s = record {
    in_hand = s.in_hand;
    hold = (0, s.in_hand, omega arith, enter-Disciplined call fresh, s.hold);
    bounded = s.bounded;
  }
  Step-Exclusive (answer w before after o k x) s =
      let (n, m, e, p, others, replace) = split r s.in_hand before (ask o k) after s.hold in
      let a = (respond h x o w).0 in
      record {
        in_hand = Discipline.after r o n a + m;
        hold = replace (Discipline.after r o n a) (k a) (p.1 a);
        bounded = respond-Bounded h r w n m (rw e at s.bounded) x o p.0;
      }
  Step-Exclusive (crash w before after p) s =
      let (n, m, e, _, others, _) = split r s.in_hand before p after s.hold in
      record {
        in_hand = m;
        hold = others;
        bounded = record { one_row = s.bounded.one_row; one_token = omega (arith, s.bounded) };
      }
  Step-Exclusive (tick w ps ms) s = record {
    in_hand = s.in_hand;
    hold = s.hold;
    bounded = record { one_row = s.bounded.one_row; one_token = s.bounded.one_token };
  }

  Reach-Exclusive : {c c' : Config} → Exclusive r c → Reach h reg r c c' → Exclusive r c'
  Reach-Exclusive s here = s
  Reach-Exclusive s (next path step) = Step-Exclusive step (Reach-Exclusive s path)

  -- Let every executor of the registry execute a request only with its token in hand (`IsDisciplined`),
  -- and start from a world with at most one row of the request, and at most one of an open row and a
  -- run of its tool. After any interleaving of approvals, rejections, sweeps, verifications and
  -- creations of other requests, with any questions failing or losing their answers and any processes
  -- dying, the tool of the request has returned at most once.
  pub executes_at_most_once :
      (w : World) {c : Config}
      → count (has_id r) w.pending ≤ 1
      → count (is_open r) w.pending + count (for_request r) w.invoked ≤ 1
      → Reach h reg r (w, []) c
      → count (for_request r) c.0.invoked ≤ 1
  executes_at_most_once w rows tokens path =
      let start : Exclusive r (w, []) = record {
        in_hand = 0;
        hold = refl;
        bounded = record { one_row = rows; one_token = omega arith };
      } in
      omega (arith, (Reach-Exclusive start path).bounded)
