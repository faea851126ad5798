-- ===== src/Policy/Floor.antt =====
-- How far src/hitl-policy/hitl-policy.service.ts may go from the static level of a tool.
use jin_core.Policy.Decision.{decide, classify_tool, classify_tool_call, after_flags}
use jin_core.Flags.Service.{
  FeatureFlagsConfig, resolve_declared, resolve_effective_level, declared_level, with_row,
  overridden, override_tool,
}
use jin_core.Autonomy.Logic.{AutonomyConfig}
use jin_core.Autonomy.Service.{relax, mode_change_tool}
use jin_core.Hitl.Levels.{HitlLevel, HitlDecision, confirm, notify, is_level}
use jin_core.Tools.Definition.{ToolDefinition}
use jin_core.Tools.Registry.{get_tool_definition}
use jin_core.Runtime.Monitor.{Obeys-weaken, Obeys, run_keeps}
use jin_core.Runtime.Program.{Answer, ok, err, ret, ◌>>=◌, OverrideRow, unknown_tool}
use jin_core.Runtime.World.{Host, World, Outcome, run}
use jin_core.Base.{
  sym, if◌then◌else◌, ◌≡◌, ◌⊎◌, inl, inr, refl, Bool, true, false, Option, none, some, List, String,
  ap, ◌∙◌,
}
use jin_core.Policy.Relaxing.{anything, is_level_eq, Relaxed, relax-Relaxed}
use mathlib.Core.Path.{subst}

-- What a decision on a tool may be: at its static level, at the level that the flags declare for it, or at
-- `notify` when the static level is `confirm` and the tool does not decide for a human.
abbrev pub Floor : FeatureFlagsConfig → ToolDefinition → HitlDecision → Type 0
Floor flags t d =
    (d.level ≡ t.hitl_level)
    ⊎ ((declared_level t.name flags.hitl_overrides ≡ some d.level)
        ⊎ ((d.level ≡ notify) × (t.hitl_level ≡ confirm) × (t.human_decision ≡ false)))

abbrev pub Floored : FeatureFlagsConfig → ToolDefinition → Unit {0} → Answer HitlDecision → Type 0
Floored flags t _ (ok d) = Floor flags t d
Floored flags t _ (err _) = Unit

module _ (h : Host) (config : AutonomyConfig) (flags : FeatureFlagsConfig) (name : String)
    (t : ToolDefinition) (found : get_tool_definition name ≡ some t) where
  Relaxed-floor :
      (d : HitlDecision)
      → d.level ≡ t.hitl_level
      → (s : Unit {0}) (a : Answer HitlDecision) → Relaxed d (some t) s a
      → Floored flags t s a
  Relaxed-floor d same s (ok e) (inl as_before) =
      inl (ap (λ (x : HitlDecision). x.level) as_before ∙ same)
  Relaxed-floor d same s (ok e) (inr (low, at_confirm, free)) =
      inr (inr (low, sym same ∙ is_level_eq d.level confirm at_confirm, free))
  Relaxed-floor d same s (err _) _ = tt

  after_flags-Floored :
      (static flagged : HitlDecision)
      → static.level ≡ t.hitl_level
      → (flagged.level ≡ static.level)
        ⊎ (declared_level t.name flags.hitl_overrides ≡ some flagged.level)
      → Obeys anything tt (after_flags h config flags name static flagged) (Floored flags t)
  unfolding after_flags
  after_flags-Floored static flagged same by = decided (is_level flagged.level static.level) refl
    where
      decided :
          (b : Bool)
          → is_level flagged.level static.level ≡ b
          → Obeys anything tt
              (if b then relax h config flagged (get_tool_definition name) else ret flagged)
              (Floored flags t)
      decided true e = rw found (
          Obeys-weaken anything (relax h config flagged (some t)) (Relaxed flagged (some t))
            (Floored flags t) tt
            (Relaxed-floor flagged (is_level_eq flagged.level static.level e ∙ same))
            (relax-Relaxed h config flagged (some t)))
      decided false e = elim by [
        | inl level ↦ inl (level ∙ same)
        | inr declared ↦ inr (inl declared)
      ]

  with_row-level :
      (d : HitlDecision) (declared : HitlLevel) (row : Option OverrideRow)
      → ((with_row d declared row).level ≡ d.level) ⊎ ((with_row d declared row).level ≡ declared)
  with_row-level d declared none = inl refl
  with_row-level d declared (some row) = decided (is_level row.level declared) refl
    where
      decided :
          (b : Bool)
          → is_level row.level declared ≡ b
          → ((if b then overridden d row.level else d).level ≡ d.level)
            ⊎ ((if b then overridden d row.level else d).level ≡ declared)
      decided true e = inr (is_level_eq row.level declared e)
      decided false e = inl refl

  flagged-Floored :
      (static : HitlDecision) (declared : Option HitlLevel)
      → static.level ≡ t.hitl_level
      → declared_level t.name flags.hitl_overrides ≡ declared
      → Obeys anything tt
          (resolve_declared static declared >>= after_flags h config flags name static)
          (Floored flags t)
  unfolding resolve_declared
  flagged-Floored static none same e = after_flags-Floored static static same (inl refl)
  flagged-Floored static (some declared) same e = (
    tt,
    elim [
      | ok row ↦
          after_flags-Floored static (with_row static declared row) same
            (elim (with_row-level static declared row) [
              | inl level ↦ inl level
              | inr level ↦ inr (e ∙ ap some (sym level))
            ])
      | err _ ↦ tt
    ],
  )

  decide-Floored :
      Obeys anything tt
        (classify_tool name (some t) >>= λ static.
          resolve_effective_level flags static >>= λ flagged.
          after_flags h config flags name static flagged)
        (Floored flags t)
  unfolding classify_tool resolve_effective_level
  decide-Floored = (
    tt,
    elim [
      | ok rid ↦ flagged-Floored _ (declared_level t.name flags.hitl_overrides) refl refl
      | err _ ↦ tt
    ],
  )

  pub decide-Obeys : Obeys anything tt (decide h config flags name) (Floored flags t)
  unfolding decide classify_tool_call
  decide-Obeys =
      subst
        (λ o.
          Obeys anything tt
            (classify_tool name o >>= λ static. resolve_effective_level flags static >>= λ flagged.
              after_flags h config flags name static flagged)
            (Floored flags t))
        (sym found) decide-Floored

  -- For a registered tool, whatever the database answers or fails to, a decision is at the static level, at
  -- the level that the flags declare for the tool, or relaxed to `notify`: only from a static `confirm`
  -- and only for a tool that does not decide for a human. A static `dual-confirm` is never relaxed by a
  -- mode.
  pub decide-Floor :
      (script : List Outcome) (w : World) (d : HitlDecision)
      → (run h script (decide h config flags name) w).0 ≡ ok d
      → Floor flags t d
  decide-Floor script w d answered =
      let (s, _, q) =
        run_keeps anything h (λ _ _. Unit {0}) (λ _ _ _ _ _ _. tt) script
          (decide h config flags name) (Floored flags t) tt w decide-Obeys tt in
      subst (λ a. Floored flags t s a) answered q

module _ (h : Host) (config : AutonomyConfig) (flags : FeatureFlagsConfig) (script : List Outcome)
    (w : World) where
  -- The two virtual tools that lower the protection cannot be called: the gate refuses their names, and
  -- asks nothing of the world.
  pub decide_refuses_virtual_tools :
      (run h script (decide h config flags mode_change_tool) w
        ≡ (err (unknown_tool mode_change_tool), w))
      × (run h script (decide h config flags override_tool) w
          ≡ (err (unknown_tool override_tool), w))
  unfolding decide classify_tool_call classify_tool get_tool_definition run
  decide_refuses_virtual_tools = (refl, refl)
