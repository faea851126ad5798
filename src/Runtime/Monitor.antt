-- ===== src/Runtime/Monitor.antt =====
-- A monitor watches the questions of a program and their answers, and says in each of its states which
-- questions are allowed. `Obeys m s p Q`: from the state `s`, whatever answers it gets, the program `p`
-- asks only what is allowed, and ends in a state and with a result that satisfy `Q`.
use jin_core.Base.{List}
use jin_core.Runtime.Program.{
  Prog, ret, throw, ask, Answer, ok, err, Error, Op, Reply, ◌>>=◌, catch,
}
use jin_core.Runtime.World.{Host, World, Outcome, respond, run, first_outcome, later_outcomes}

pub record Monitor : Type 1 where
  pub State : Type 0
  pub May : State → Op → Type 0
  pub move : State → (o : Op) → Answer (Reply o) → State

abbrev pub Post : Monitor → Type 0 → Type 1
Post m A = m.State → Answer A → Type 0

abbrev pub Any : {S A : Type 0} → S → Answer A → Type 0
Any _ _ = Unit

abbrev pub Obeys : (m : Monitor) {A : Type 0} → m.State → Prog A → Post m A → Type 0
Obeys m s (ret a) Q = Q s (ok a)
Obeys m s (throw e) Q = Q s (err e)
Obeys m s (ask o k) Q = m.May s o × ((a : Answer (Reply o)) → Obeys m (m.move s o a) (k a) Q)

module _ (m : Monitor) where
  -- what the first part of a program must end with
  abbrev pub Then : {A B : Type 0} → (A → Prog B) → Post m B → Post m A
  Then f Q s (ok a) = Obeys m s (f a) Q
  Then f Q s (err e) = Q s (err e)

  abbrev pub Else : {A : Type 0} → (Error → Prog A) → Post m A → Post m A
  Else h Q s (ok a) = Q s (ok a)
  Else h Q s (err e) = Obeys m s (h e) Q

  pub Obeys-bind :
      {A B : Type 0} (p : Prog A) (f : A → Prog B) (Q : Post m B) (s : m.State)
      → Obeys m s p (Then f Q)
      → Obeys m s (p >>= f) Q
  Obeys-bind (ret a) f Q s d = d
  Obeys-bind (throw e) f Q s d = d
  Obeys-bind (ask o k) f Q s d = (d.0, λ a. Obeys-bind (k a) f Q (m.move s o a) (d.1 a))

  pub Obeys-catch :
      {A : Type 0} (p : Prog A) (h : Error → Prog A) (Q : Post m A) (s : m.State)
      → Obeys m s p (Else h Q)
      → Obeys m s (catch p h) Q
  Obeys-catch (ret a) h Q s d = d
  Obeys-catch (throw e) h Q s d = d
  Obeys-catch (ask o k) h Q s d = (d.0, λ a. Obeys-catch (k a) h Q (m.move s o a) (d.1 a))

  pub Obeys-weaken :
      {A : Type 0} (p : Prog A) (P Q : Post m A) (s : m.State)
      → ((t : m.State) (a : Answer A) → P t a → Q t a)
      → Obeys m s p P
      → Obeys m s p Q
  Obeys-weaken (ret a) P Q s w d = w s (ok a) d
  Obeys-weaken (throw e) P Q s w d = w s (err e) d
  Obeys-weaken (ask o k) P Q s w d = (d.0, λ a. Obeys-weaken (k a) P Q (m.move s o a) w (d.1 a))

  -- In a state that allows everything and is never left, any program will do.
  pub Obeys-of_free :
      {A : Type 0} (Free : m.State → Type 0)
      → ((s : m.State) (o : Op) → Free s → m.May s o)
      → ((s : m.State) (o : Op) (a : Answer (Reply o)) → Free s → Free (m.move s o a))
      → (p : Prog A) (Q : Post m A) (s : m.State) → ((t : m.State) (a : Answer A) → Free t → Q t a)
      → Free s
      → Obeys m s p Q
  Obeys-of_free Free may stay (ret a) Q s q f = q s (ok a) f
  Obeys-of_free Free may stay (throw e) Q s q f = q s (err e) f
  Obeys-of_free Free may stay (ask o k) Q s q f =
      (may s o f, λ a. Obeys-of_free Free may stay (k a) Q (m.move s o a) q (stay s o a f))

  -- A relation of the monitor's state and the world that every allowed question keeps holds when the
  -- program has run, under any script of failures.
  pub run_keeps :
      {A : Type 0} (h : Host) (I : m.State → World → Type 0)
      → ((x : Outcome) (s : m.State) (o : Op) (w : World)
          → m.May s o
          → I s w
          → I (m.move s o (respond h x o w).0) (respond h x o w).1)
      → (script : List Outcome) (p : Prog A) (Q : Post m A) (s : m.State) (w : World)
      → Obeys m s p Q
      → I s w
      → (t : m.State) × I t (run h script p w).1 × Q t (run h script p w).0
  unfolding run
  run_keeps h I keep script (ret a) Q s w d i = (s, i, d)
  run_keeps h I keep script (throw e) Q s w d i = (s, i, d)
  run_keeps h I keep script (ask o k) Q s w d i =
      let x = first_outcome script in
      let a = (respond h x o w).0 in
      run_keeps h I keep (later_outcomes script) (k a) Q (m.move s o a) (respond h x o w).1 (d.1 a)
        (keep x s o w d.0 i)
