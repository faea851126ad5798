-- ===== src/Pool/Services.antt =====
-- Every call of the approval services is disciplined, whatever the database, the audit and the tools
-- answer.
use jin_core.Runtime.Monitor.{Obeys-catch, Obeys-bind, Obeys-weaken, Then, Else, Post, Any}
use mathlib.Core.Path.{subst}
use jin_core.Base.{
  refl, ℕ, ◌≡◌, String, true, false, Option, none, some, [], ◌∷◌, str_eq, arith, Bool-cases, inl,
  inr,
}
use jin_core.Hitl.Payload.{Payload}
use jin_core.Hitl.Pending.{Row}
use jin_core.Hitl.Executors.{
  Registry, Executor, lookup_executor, execute_with, execute, integration,
}
use jin_core.Hitl.Execution.{report_failure, call_executor, run_claimed}
use jin_core.Audit.Chain.{Entry}
use jin_core.Audit.Service.{append_row}
use jin_core.Runtime.Program.{
  Prog, ret, Answer, ok, err, ◌>>=◌, ◌>>◌, Error, catch, audit_chain_locked,
}
use jin_core.Runtime.World.{Host}
use jin_core.Pool.Discipline.{tokens, Holds, claimed, given, Disciplined}

-- An executor that fails leaves the token in hand.
abbrev pub Kept : {A : Type 0} → String → String → ℕ → Answer A → Type 0
Kept r rid n (ok _) = Unit
Kept r rid n (err _) = Holds r rid n

abbrev pub Executes : String → Executor → Type 0
Executes r e =
    (payload : Option Payload) (rid : String) (n : ℕ)
    → Holds r rid n
    → Disciplined r n (e payload rid) (Kept r rid)

abbrev pub IsDisciplined : String → Registry → Type 0
IsDisciplined r [] = Unit
IsDisciplined r ((_, e) ∷ reg) = Executes r e × IsDisciplined r reg

pub integration-Executes : (r tool : String) → Executes r (integration tool)
integration-Executes r tool payload rid n holds = (holds, elim [ ok _ ↦ tt | err _ ↦ holds ])

pub claimed-Holds : (r rid : String) (n : ℕ) → Holds r rid (claimed r rid n)
claimed-Holds r rid n e = rw e (omega arith)

module _ (r : String) where
  lookup-Executes :
      (reg : Registry) (tool : String) (e : Executor)
      → IsDisciplined r reg
      → lookup_executor tool reg ≡ some e
      → Executes r e
  unfolding lookup_executor
  lookup-Executes [] tool e d found = absurd (cc)
  lookup-Executes ((name, x) ∷ reg) tool e d found = elim (Bool-cases (str_eq name tool)) [
    | inl here ↦ let same : x ≡ e = cc (rw here at found) in subst (Executes r) same d.0
    | inr there ↦ lookup-Executes reg tool e d.1 (rw there at found)
  ]

  execute_found :
      (o : Option Executor) (tool : String) (payload : Option Payload) (rid : String) (n : ℕ)
      → ((e : Executor) → o ≡ some e → Executes r e)
      → Holds r rid n
      → Disciplined r n (execute_with o tool payload rid) (Kept r rid)
  unfolding execute_with
  execute_found none tool payload rid n d holds = holds
  execute_found (some e) tool payload rid n d holds = d e refl payload rid n holds

  execute-Kept :
      (reg : Registry) (tool : String) (payload : Option Payload) (rid : String) (n : ℕ)
      → IsDisciplined r reg
      → Holds r rid n
      → Disciplined r n (execute reg tool payload rid) (Kept r rid)
  unfolding execute
  execute-Kept reg tool payload rid n d holds =
      execute_found (lookup_executor tool reg) tool payload rid n
        (λ e found. lookup-Executes reg tool e d found) holds

  -- An audited part with a handler, and what follows.
  pub audit_guarded :
      {B : Type 0} (e : Entry) (h : Error → Prog (Unit {0})) (g : Unit {0} → Prog B)
      (Q : Post (tokens r) B) (n : ℕ)
      → Disciplined r n (g tt) Q
      → ((x : Error) → Disciplined r n (h x >>= g) Q)
      → Disciplined r n (catch (append_row e >> ret tt) h >>= g) Q
  unfolding append_row
  audit_guarded e h g Q n good bad = (
    tt,
    elim [
      | ok true ↦ bad audit_chain_locked
      | ok false ↦ (tt, elim [ ok _ ↦ good | err x ↦ bad x ])
      | err x ↦ bad x
    ],
  )

  after_failure :
      (h : Host) (rid : String) (row : Row) (n : ℕ) (e : Error)
      → Holds r rid n
      → Disciplined r n (report_failure h rid row e) Any
  unfolding report_failure
  after_failure h rid row n e holds =
      (holds, elim [ ok _ ↦ audit_guarded _ _ _ Any (given r rid n) tt (λ _. tt) | err _ ↦ tt ])

  call_executor-Disciplined :
      {B : Type 0} (h : Host) (reg : Registry) (rid : String) (row : Row) (f : String → Prog B)
      (n : ℕ)
      → IsDisciplined r reg
      → Holds r rid n
      → ((k : ℕ) (x : String) → Disciplined r k (f x) Any)
      → Disciplined r n (call_executor h reg rid row >>= f) Any
  unfolding call_executor
  call_executor-Disciplined h reg rid row f n d holds rest = Obeys-bind (tokens r) _ f Any n (
      Obeys-catch (tokens r) (execute reg row.tool_name row.payload rid) (report_failure h rid row)
        (Then (tokens r) f Any) n
        (Obeys-weaken (tokens r) _ (Kept r rid) _ n ended
          (execute-Kept reg row.tool_name row.payload rid n d holds)))
    where
      ended :
          (k : ℕ) (a : Answer String)
          → Kept r rid k a
          → Else (tokens r) (report_failure h rid row) (Then (tokens r) f Any) k a
      ended k (ok x) _ = rest k x
      ended k (err e) kept =
          Obeys-weaken (tokens r) (report_failure h rid row e) Any (Then (tokens r) f Any) k
            finished (after_failure h rid row k e kept)
        where
          finished : (j : ℕ) (a : Answer String) → Any j a → Then (tokens r) f Any j a
          finished j (ok x) _ = rest j x
          finished j (err e) _ = tt

  pub run_claimed-Disciplined :
      (h : Host) (reg : Registry) (rid approver : String) (row : Row) (n : ℕ)
      → IsDisciplined r reg
      → Holds r rid n
      → Disciplined r n (run_claimed h reg rid approver row) Any
  unfolding run_claimed
  run_claimed-Disciplined h reg rid approver row n d holds =
      audit_guarded _ _ _ Any n
        (call_executor-Disciplined h reg rid row _ n d holds
          λ k x. (tt, elim [ ok _ ↦ tt | err _ ↦ tt ]))
        (λ _. (holds, elim [ ok _ ↦ tt | err _ ↦ tt ]))
