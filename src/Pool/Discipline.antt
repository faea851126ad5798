-- ===== src/Pool/Discipline.antt =====
-- The right to execute one request `r`, as a token. It lies in the open row of the table; a won claim
-- takes it, a release gives it back, a tool that returns uses it up. `Disciplined r n p Q`: with `n`
-- tokens in hand, and whatever answers it gets, the program `p` releases and executes `r` only while
-- it has one, and ends with `Q` of the tokens that are left and its result.
use jin_core.Runtime.Monitor.{Monitor, Obeys}
use jin_core.Base.{ℕ, suc, ◌-◌, ◌<◌, ◌≡◌, String, true, false, some, str_eq, if◌then◌else◌}
use jin_core.Runtime.Program.{
  Prog, Answer, ok, Op, Reply, pending_insert, pending_claim, pending_release, invoke,
}

abbrev pub Holds : String → String → ℕ → Type 0
Holds r rid n = str_eq rid r ≡ true → 0 < n

abbrev pub Needs : String → Op → ℕ → Type 0
Needs r (pending_insert row) n = str_eq row.request_id r ≡ false
Needs r (pending_release rid _) n = Holds r rid n
Needs r (invoke _ _ rid) n = Holds r rid n
Needs r _ n = Unit

abbrev pub claimed : String → String → ℕ → ℕ
claimed r rid n = if str_eq rid r then suc n else n

abbrev pub given : String → String → ℕ → ℕ
given r rid n = if str_eq rid r then n - 1 else n

-- the tokens in hand behind an answer
abbrev pub after : String → (o : Op) → ℕ → Answer (Reply o) → ℕ
after r (pending_claim rid _) n (ok (some _)) = claimed r rid n
after r (pending_release rid _) n a = given r rid n
after r (invoke _ _ rid) n (ok _) = given r rid n
after r _ n _ = n

abbrev pub tokens : String → Monitor
tokens r = record { State = ℕ; May = λ n o. Needs r o n; move = λ n o a. after r o n a }

abbrev pub Disciplined : {A : Type 0} → String → ℕ → Prog A → (ℕ → Answer A → Type 0) → Type 0
Disciplined r n p Q = Obeys (tokens r) n p Q
