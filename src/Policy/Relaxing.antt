-- ===== src/Policy/Relaxing.antt =====
-- What `relax` of src/autonomy/autonomy.service.ts may answer, whatever the database answers.
use jin_core.Autonomy.Logic.{AutonomyConfig, relax_decision, decides_for_human}
use jin_core.Autonomy.Mode.{AutonomyMode, supervised, semi_auto, auto}
use jin_core.Autonomy.Service.{
  relax, relax_with, brake, apply_restrictive_change, state_of, get_state,
}
use jin_core.Hitl.Levels.{HitlLevel, HitlDecision, confirm, notify, is_level}
use jin_core.Tools.Definition.{ToolDefinition}
use jin_core.Runtime.Monitor.{Monitor, Obeys, Obeys-bind, Obeys-of_free, Then}
use jin_core.Runtime.Always.{always}
use jin_core.Runtime.Program.{Prog, Answer, ok, err, ret, ◌>>◌, circuit_breaker}
use jin_core.Runtime.World.{Host}
use jin_core.Base.{
  arith, if◌then◌else◌, or_else, ◌≡◌, ◌⊎◌, inl, inr, refl, Bool, true, false, Option, none, some, ℕ,
  ltb,
}

abbrev pub anything : Monitor
anything = always (λ _. Unit)

pub is_level_eq : (a b : HitlLevel) → is_level a b ≡ true → a ≡ b
is_level_eq a b e = ground arith

relaxes_to_notify :
    (d e : HitlDecision) (mode : AutonomyMode) (tool : Option ToolDefinition)
    → relax_decision d mode tool ≡ some e
    → (e.level ≡ notify) × (is_level d.level confirm ≡ true) × (decides_for_human tool ≡ false)
unfolding relax_decision
relaxes_to_notify d e supervised tool h = absurd (cc)
relaxes_to_notify d e semi_auto tool h = ground arith
relaxes_to_notify d e auto tool h = ground arith

-- what `relax` may answer for a decision
abbrev pub Relaxed : HitlDecision → Option ToolDefinition → Unit {0} → Answer HitlDecision → Type 0
Relaxed d tool _ (ok e) =
    (e ≡ d)
    ⊎ ((e.level ≡ notify) × (is_level d.level confirm ≡ true) × (decides_for_human tool ≡ false))
Relaxed d tool _ (err _) = Unit

module _ (h : Host) (config : AutonomyConfig) where
  brake-Relaxed :
      (d e : HitlDecision) (tool : Option ToolDefinition) (count : ℕ)
      → (e.level ≡ notify) × (is_level d.level confirm ≡ true) × (decides_for_human tool ≡ false)
      → Obeys anything tt (brake h config d e count) (Relaxed d tool)
  unfolding brake
  brake-Relaxed d e tool count may = decided (ltb config.max_relaxed_actions_per_hour count)
    where
      back : Prog (Option ℕ)
      back = apply_restrictive_change h supervised "system:circuit-breaker" circuit_breaker 0

      ended :
          (t : Unit {0}) (a : Answer (Option ℕ))
          → Unit {0}
          → Then anything (λ _. ret d) (Relaxed d tool) t a
      ended t (ok _) _ = inl refl
      ended t (err _) _ = tt

      decided :
          (b : Bool) → Obeys anything tt (if b then (back >> ret d) else ret e) (Relaxed d tool)
      decided true =
          Obeys-bind anything back (λ _. ret d) (Relaxed d tool) tt
            (Obeys-of_free anything (λ _. Unit {0}) (λ _ _ _. tt) (λ _ _ _ _. tt) back _ tt ended
              tt)
      decided false = inr may

  relax_with-Relaxed :
      (d : HitlDecision) (mode : AutonomyMode) (tool : Option ToolDefinition)
      (r : Option HitlDecision)
      → relax_decision d mode tool ≡ r
      → Obeys anything tt (relax_with h config d r) (Relaxed d tool)
  unfolding relax_with
  relax_with-Relaxed d mode tool none e = inl refl
  relax_with-Relaxed d mode tool (some x) e = (
    tt,
    elim [
      | ok count ↦ brake-Relaxed d x tool (or_else count 0) (relaxes_to_notify d x mode tool e)
      | err _ ↦ tt
    ],
  )

  pub relax-Relaxed :
      (d : HitlDecision) (tool : Option ToolDefinition)
      → Obeys anything tt (relax h config d tool) (Relaxed d tool)
  unfolding relax get_state
  relax-Relaxed d tool = (
    tt,
    elim [
      | ok now ↦ (
        tt,
        elim [ ok row ↦ relax_with-Relaxed d (state_of now row).mode tool _ refl | err _ ↦ tt ],
      )
      | err _ ↦ tt
    ],
  )
