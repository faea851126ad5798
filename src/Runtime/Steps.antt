-- ===== src/Runtime/Steps.antt =====
-- One answered question of a run, for proofs that follow a call from question to question.
use jin_core.Runtime.Program.{err, throw, ok, ret, Error, ask, Prog, Reply, Answer, Op}
use jin_core.Runtime.World.{later_outcomes, is_local, Outcome, perform, World, respond, run, Host}
use jin_core.Base.{◌∷◌, true, List, ◌≡◌, ap, [], refl}

module _ (h : Host) where
  pub run-ask :
      {A : Type 0} (o : Op) (k : Answer (Reply o) → Prog A) (w : World) {a : Answer (Reply o)}
      {v : World}
      → perform h o w ≡ (a, v)
      → run h [] (ask o k) w ≡ run h [] (k a) v
  unfolding run respond
  run-ask o k w e = ap (λ (p : Answer (Reply o) × World). run h [] (k p.0) p.1) e

  pub run_ret : {A : Type 0} (a : A) (w : World) → run h [] (ret a) w ≡ (ok a, w)
  unfolding run
  run_ret a w = refl

  pub run_throw : {A : Type 0} (e : Error) (w : World) → run h {A = A} [] (throw e) w ≡ (err e, w)
  unfolding run
  run_throw e w = refl

  -- A local question is answered under any script.
  pub run_local :
      {A : Type 0} (script : List Outcome) (o : Op) (k : Answer (Reply o) → Prog A) (w : World)
      → is_local o ≡ true
      → run h script (ask o k) w
        ≡ run h (later_outcomes script) (k (perform h o w).0) (perform h o w).1
  unfolding run respond
  run_local [] o k w local = refl
  run_local (Outcome.done ∷ script) o k w local = refl
  run_local (Outcome.failed ∷ script) o k w local = rw local
  run_local (Outcome.lost ∷ script) o k w local = rw local
