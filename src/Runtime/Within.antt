-- ===== src/Runtime/Within.antt =====
-- How many calls of a model a program makes at most. `Within limit k p`: whenever `k` more calls stay within
-- the limit, `p` makes at most `k`, whatever it is answered.
use jin_core.Runtime.World.{
  pending_insert_keeps, respond_keeps, respond, run, perform, Outcome, World, Host,
}
use mathlib.Core.Path.{subst}
use jin_core.Runtime.Always.{Asks}
use jin_core.Runtime.Monitor.{
  run_keeps, Obeys-bind, Obeys-catch, Then, Else, Obeys, Obeys-weaken, Monitor,
}
use jin_core.Runtime.Program.{
  pending_insert, ask, err, throw, ok, ret, ◌>>=◌, catch, model_stream, Error, settled,
  model_complete, Answer, Prog, Op,
}
use jin_core.Base.{length, List, sym, arith, ◌<◌, suc, ◌≤◌, ◌+◌, ◌≡◌, ℕ, refl}

-- what is no call of a model
abbrev pub Free : Op → Type 0
Free (model_complete _ _) = ⊥
Free (model_stream _ _) = ⊥
Free _ = Unit

abbrev pub MayCall : ℕ → ℕ → Op → Type 0
MayCall limit n (model_complete _ _) = n < limit
MayCall limit n (model_stream _ _) = n < limit
MayCall limit n _ = Unit

abbrev pub called : ℕ → Op → ℕ
called n (model_complete _ _) = suc n
called n (model_stream _ _) = suc n
called n _ = n

abbrev pub calls : ℕ → Monitor
calls limit = record { State = ℕ; May = λ n o. MayCall limit n o; move = λ n o _. called n o }

abbrev pub AtMost : {A : Type 0} → ℕ → ℕ → Answer A → Type 0
AtMost bound n _ = n ≤ bound

abbrev pub Within : ℕ → ℕ → {A : Type 0} → Prog A → Type 0
Within limit k p = (n : ℕ) → n + k ≤ limit → Obeys (calls limit) n p (AtMost (n + k))

module _ (limit : ℕ) where
  Free-MayCall : (n : ℕ) (o : Op) → Free o → MayCall limit n o
  Free-MayCall n (model_complete _ _) f = absurd f
  Free-MayCall n (model_stream _ _) f = absurd f
  Free-MayCall n o f = tt

  Free-called : (n : ℕ) (o : Op) → Free o → called n o ≡ n
  Free-called n (model_complete _ _) f = absurd f
  Free-called n (model_stream _ _) f = absurd f
  Free-called n o f = refl

  Free-AtMost :
      {A : Type 0} (n bound : ℕ) (p : Prog A)
      → n ≤ bound
      → Asks Free p
      → Obeys (calls limit) n p (AtMost bound)
  Free-AtMost n bound (ret a) le d = le
  Free-AtMost n bound (throw e) le d = le
  Free-AtMost n bound (ask o k) le d = (
    Free-MayCall n o d.0,
    λ a.
        subst (λ m. Obeys (calls limit) m (k a) (AtMost bound)) (sym (Free-called n o d.0))
          (Free-AtMost n bound (k a) le (d.1 a)),
  )

  pub Within-of_Free : {A : Type 0} (k : ℕ) (p : Prog A) → Asks Free p → Within limit k p
  Within-of_Free k p d n room = Free-AtMost n (n + k) p (omega arith) d

  pub Within-mono :
      {A : Type 0} (j k : ℕ) (p : Prog A) → j ≤ k → Within limit j p → Within limit k p
  Within-mono j k p le d n room =
      Obeys-weaken (calls limit) p (AtMost (n + j)) (AtMost (n + k)) n
        (λ t a (x : t ≤ n + j). omega arith) (d n (omega arith))

  pub Within-bind :
      {A B : Type 0} (j k : ℕ) (p : Prog A) (f : A → Prog B)
      → Within limit j p
      → ((a : A) → Within limit k (f a))
      → Within limit (j + k) (p >>= f)
  Within-bind j k p f d e n room = Obeys-bind (calls limit) p f (AtMost (n + (j + k))) n (
      Obeys-weaken (calls limit) p (AtMost (n + j)) (Then (calls limit) f (AtMost (n + (j + k)))) n
        ended (d n (omega arith)))
    where
      ended : (t : ℕ) (a : Answer _) → t ≤ n + j → Then (calls limit) f (AtMost (n + (j + k))) t a
      ended t (ok a) le =
          Obeys-weaken (calls limit) (f a) (AtMost (t + k)) (AtMost (n + (j + k))) t
            (λ u b (x : u ≤ t + k). omega arith) (e a t (omega arith))
      ended t (err _) le = omega arith

  pub Within-bind-Free :
      {A B : Type 0} (k : ℕ) (p : Prog A) (f : A → Prog B)
      → Asks Free p
      → ((a : A) → Within limit k (f a))
      → Within limit k (p >>= f)
  Within-bind-Free k p f d e =
      subst (λ m. Within limit m (p >>= f)) (omega arith)
        (Within-bind 0 k p f (Within-of_Free 0 p d) e)

  pub Within-catch :
      {A : Type 0} (j k : ℕ) (p : Prog A) (h : Error → Prog A)
      → Within limit j p
      → ((e : Error) → Within limit k (h e))
      → Within limit (j + k) (catch p h)
  Within-catch j k p h d e n room = Obeys-catch (calls limit) p h (AtMost (n + (j + k))) n (
      Obeys-weaken (calls limit) p (AtMost (n + j)) (Else (calls limit) h (AtMost (n + (j + k)))) n
        ended (d n (omega arith)))
    where
      ended : (t : ℕ) (a : Answer _) → t ≤ n + j → Else (calls limit) h (AtMost (n + (j + k))) t a
      ended t (ok _) le = omega arith
      ended t (err x) le =
          Obeys-weaken (calls limit) (h x) (AtMost (t + k)) (AtMost (n + (j + k))) t
            (λ u b (y : u ≤ t + k). omega arith) (e x t (omega arith))

  pub Within-settled :
      {A : Type 0} (k : ℕ) (p : Prog A) → Within limit k p → Within limit k (settled p)
  Within-settled {A} k p d =
      subst (λ m. Within limit m (settled p)) (omega arith)
        (Within-catch (k + 0) 0 (p >>= λ a. ret (ok a)) (λ e. ret (err e))
          (Within-bind k 0 p (λ a. ret (ok a)) d (λ a. Within-of_Free 0 (ret (ok a)) tt))
          (λ e. Within-of_Free {A = Answer A} 0 (ret (err e)) tt))

  -- the calls on record in the world
  abbrev pub Counted : World → ℕ → World → Type 0
  Counted w n w' = length w'.model_calls ≤ length w.model_calls + n

module _ (h : Host) (limit : ℕ) (w : World) where
  perform-Counted :
      (n : ℕ) (o : Op) (v : World)
      → Counted limit w n v
      → Counted limit w (called n o) (perform h o v).1
  unfolding perform
  perform-Counted n (model_complete _ _) v c = omega arith
  perform-Counted n (model_stream _ _) v c = omega arith
  perform-Counted n (pending_insert row) v c =
      pending_insert_keeps h (Counted limit w n) row v c (λ _. c)
  perform-Counted n o v c = c

  respond-Counted :
      (x : Outcome) (n : ℕ) (o : Op) (v : World)
      → Counted limit w n v
      → Counted limit w (called n o) (respond h x o v).1
  respond-Counted x n o v c =
      respond_keeps h (Counted limit w (called n o)) x o v (before o) (perform-Counted n o v c)
    where
      before : (o : Op) → Counted limit w (called n o) v
      before (model_complete _ _) = omega arith
      before (model_stream _ _) = omega arith
      before o = c

  pub run-Within :
      {A : Type 0} (script : List Outcome) (p : Prog A)
      → Within limit limit p
      → length (run h script p w).1.model_calls ≤ length w.model_calls + limit
  run-Within script p d =
      let obeys : Obeys (calls limit) 0 p (AtMost limit) =
        Obeys-weaken (calls limit) p (AtMost (0 + limit)) (AtMost limit) 0
          (λ t a (x : t ≤ 0 + limit). omega arith) (d 0 (omega arith)) in
      let r =
        run_keeps (calls limit) h (λ n v. Counted limit w n v)
          (λ x n o v may c. respond-Counted x n o v c) script p (AtMost limit) 0 w obeys
          (omega arith) in
      omega (arith, r.1, r.2)
