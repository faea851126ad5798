-- ===== src/Runtime/Always.antt =====
-- Programs that ask only questions of one kind, whatever they are answered: the monitor with one state.
use jin_core.Runtime.World.{run, respond, Outcome, World, Host}
use jin_core.Runtime.Monitor.{
  Obeys-weaken, run_keeps, Obeys-bind, Obeys-catch, Then, Else, Any, Obeys, Monitor,
}
use jin_core.Runtime.Program.{
  settle, settled, ask, throw, ret, err, Answer, catch, ok, ◌>>=◌, Error, Prog, query, Op,
}
use jin_core.Base.{List}

abbrev pub always : (Op → Type 0) → Monitor
always P = record { State = Unit {0}; May = λ _ o. P o; move = λ _ _ _. tt }

abbrev pub Asks : (Op → Type 0) → {A : Type 0} → Prog A → Type 0
Asks P p = Obeys (always P) tt p Any

module _ (P : Op → Type 0) where
  pub Asks-query : (o : Op) → P o → Asks P (query o)
  Asks-query o h = (h, elim [ ok _ ↦ tt | err _ ↦ tt ])

  pub Asks-bind :
      {A B : Type 0} (p : Prog A) (f : A → Prog B)
      → Asks P p
      → ((a : A) → Asks P (f a))
      → Asks P (p >>= f)
  Asks-bind p f d e = Obeys-bind (always P) p f Any tt (Obeys-weaken (always P) p Any _ tt ended d)
    where
      ended : (t : Unit {0}) (a : Answer _) → Unit {0} → Then (always P) f Any t a
      ended t (ok a) _ = e a
      ended t (err _) _ = tt

  pub Asks-catch :
      {A : Type 0} (p : Prog A) (h : Error → Prog A)
      → Asks P p
      → ((e : Error) → Asks P (h e))
      → Asks P (catch p h)
  Asks-catch p h d e =
      Obeys-catch (always P) p h Any tt (Obeys-weaken (always P) p Any _ tt ended d)
    where
      ended : (t : Unit {0}) (a : Answer _) → Unit {0} → Else (always P) h Any t a
      ended t (ok _) _ = tt
      ended t (err x) _ = e x

  -- What every allowed question keeps of the world holds when the program has run.
  pub run_Asks :
      {A : Type 0} (h : Host) (I : World → Type 0)
      → ((x : Outcome) (o : Op) (w : World) → P o → I w → I (respond h x o w).1)
      → (script : List Outcome) (p : Prog A) (w : World) → Asks P p
      → I w
      → I (run h script p w).1
  run_Asks h I keep script p w d i =
      (run_keeps (always P) h (λ _ w. I w) (λ x _ o w may i. keep x o w may i) script p Any tt w d
        i).1

-- What asks only such questions asks only wider ones.
pub Asks-imply :
    (P Q : Op → Type 0) → ((o : Op) → P o → Q o) → {A : Type 0} (p : Prog A) → Asks P p → Asks Q p
Asks-imply P Q wider (ret a) d = tt
Asks-imply P Q wider (throw e) d = tt
Asks-imply P Q wider (ask o k) d = (wider o d.0, λ a. Asks-imply P Q wider (k a) (d.1 a))

-- What a program ends with, whatever it asks, it ends with under any such restriction.
pub Asks-ends :
    (P : Op → Type 0) {A : Type 0} (p : Prog A) (Q : Unit {0} → Answer A → Type 0)
    → Asks P p
    → Obeys (always (λ _. Unit)) tt p Q
    → Obeys (always P) tt p Q
Asks-ends P (ret a) Q d q = q
Asks-ends P (throw e) Q d q = q
Asks-ends P (ask o k) Q d q = (d.0, λ a. Asks-ends P (k a) Q (d.1 a) (q.1 a))

pub Asks-settle : (P : Op → Type 0) {A : Type 0} (a : Answer A) → Asks P (settle a)
Asks-settle P (ok a) = tt
Asks-settle P (err e) = tt

pub Asks-settled : (P : Op → Type 0) {A : Type 0} (p : Prog A) → Asks P p → Asks P (settled p)
Asks-settled P p d =
    Asks-catch P (p >>= λ a. ret (ok a)) (λ e. ret (err e)) (Asks-bind P p _ d (λ _. tt)) (λ _. tt)
