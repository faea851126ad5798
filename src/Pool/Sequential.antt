-- ===== src/Pool/Sequential.antt =====
-- A call that runs alone is one of the interleavings.
use jin_core.Pool.Interleaving.{answer, arrive, Call, Admits, Config, Reach, enter}
use jin_core.Runtime.Program.{Prog, ret, throw, ask}
use jin_core.Runtime.World.{Host, World, Outcome, run, respond, first_outcome, later_outcomes}
use jin_core.Hitl.Executors.{Registry}
use jin_core.Base.{String, List, [], ◌∷◌}

module _ {h : Host} {reg : Registry} {r : String} where
  pub Reach-trans : {c d e : Config} → Reach h reg r c d → Reach h reg r d e → Reach h reg r c e
  Reach-trans p Reach.here = p
  Reach-trans p (Reach.next q s) = Reach.next (Reach-trans p q) s

module _ (h : Host) (reg : Registry) (r : String) where
  -- the first of the calls in flight runs to its end
  pub run_reaches :
      (script : List Outcome) (p : Prog (Unit {0})) (w : World) (ps : List (Prog (Unit {0})))
      → (q : Prog (Unit {0})) × Reach h reg r (w, p ∷ ps) ((run h script p w).1, q ∷ ps)
  unfolding run
  run_reaches script (ret a) w ps = (ret a, Reach.here)
  run_reaches script (throw e) w ps = (throw e, Reach.here)
  run_reaches script (ask o k) w ps =
      let x = first_outcome script in
      let (q, path) =
        run_reaches (later_outcomes script) (k (respond h x o w).0) (respond h x o w).1 ps in
      (q, Reach-trans (Reach.next Reach.here (answer w [] ps o k x)) path)

  -- a call arrives and runs to its end
  pub call_reaches :
      (script : List Outcome) (call : Call) (w : World) (ps : List (Prog (Unit {0})))
      → Admits r call
      → (q : Prog (Unit {0})) × Reach h reg r
          (w, ps)
          ((run h script (enter h reg call) w).1, q ∷ ps)
  call_reaches script call w ps admitted =
      let (q, path) = run_reaches script (enter h reg call) w ps in
      (q, Reach-trans (Reach.next Reach.here (arrive w ps call admitted)) path)
