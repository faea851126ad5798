-- ===== src/Flags/Floor.antt =====
-- src/feature-flags/feature-flags.service.ts: a reload of the file lowers no tool by itself.
use jin_core.Audit.Service.{append_row, record_tool_call}
use jin_core.Hitl.DualConfirm.{create_pending_approval}
use jin_core.Flags.Service.{
  FeatureFlagsConfig, reload, reconcile_all, reconcile_hitl_override, reconcile_tool,
  reconcile_level, ask_lowering, put_override, is_in_force,
}
use jin_core.Hitl.Levels.{HitlLevel, hitl_level_ordinal}
use jin_core.Tools.Definition.{ToolDefinition}
use jin_core.Tools.Registry.{get_tool_definition}
use jin_core.Runtime.Always.{Asks, Asks-bind, run_Asks}
use jin_core.Runtime.Program.{Op, ok, err, ret, override_upsert, OverrideRow, ◌>>◌, pending_insert}
use jin_core.Runtime.World.{
  Host, World, Outcome, run, respond_keeps, perform, upsert_override, for_tool,
}
use mathlib.Core.Path.{subst}
use jin_core.Hitl.Pending.{Row}
use jin_core.Base.{
  sym, if◌then◌else◌, ◌≡◌, ◌≤◌, refl, Bool, true, false, Option, none, some, List, [], ◌∷◌, String,
  leb, arith, All,
}

-- an override of a registered tool that is at least as strict as its static level
abbrev pub NotLower : OverrideRow → Type 0
NotLower r =
    (t : ToolDefinition) × (get_tool_definition r.tool_name ≡ some t)
    × (hitl_level_ordinal t.hitl_level ≤ hitl_level_ordinal r.level)

-- the only overrides that a program writes are such
abbrev Raises : Op → Type 0
Raises (override_upsert r) = NotLower r
Raises _ = Unit

module _ (h : Host) where
  ask_lowering-Raises :
      (tool : String) (level : HitlLevel) → Asks Raises (ask_lowering h tool level)
  unfolding ask_lowering create_pending_approval record_tool_call append_row
  ask_lowering-Raises tool level = (
    tt,
    elim [
      | ok rid ↦ (
        tt,
        elim [
          | ok _ ↦ (
            tt,
            elim [
              | ok true ↦ tt
              | ok false ↦ (tt, elim [ ok _ ↦ (tt, elim [ ok _ ↦ tt | err _ ↦ tt ]) | err _ ↦ tt ])
              | err _ ↦ tt
            ],
          )
          | err _ ↦ tt
        ],
      )
      | err _ ↦ tt
    ],
  )

  put_override-Raises :
      (tool : String) (level : HitlLevel) (approver : String) (t : ToolDefinition)
      → get_tool_definition tool ≡ some t
      → hitl_level_ordinal t.hitl_level ≤ hitl_level_ordinal level
      → Asks Raises (put_override tool level approver)
  unfolding put_override
  put_override-Raises tool level approver t found floor =
      (tt, elim [ ok now ↦ ((t, found, floor), elim [ ok _ ↦ tt | err _ ↦ tt ]) | err _ ↦ tt ])

  reconcile_level-Raises :
      (tool : String) (t : ToolDefinition) (declared : HitlLevel) (in_force : Bool)
      → get_tool_definition tool ≡ some t
      → Asks Raises (reconcile_level h tool t.hitl_level declared in_force)
  unfolding reconcile_level
  reconcile_level-Raises tool t declared true found = tt
  reconcile_level-Raises tool t declared false found =
      decided (leb (hitl_level_ordinal t.hitl_level) (hitl_level_ordinal declared)) refl
    where
      decided :
          (b : Bool)
          → leb (hitl_level_ordinal t.hitl_level) (hitl_level_ordinal declared) ≡ b
          → Asks Raises (
              if b
              then put_override tool declared "system:configmap-reload"
              else ask_lowering h tool declared)
      decided true e =
          put_override-Raises tool declared "system:configmap-reload" t found (ground arith)
      decided false e = ask_lowering-Raises tool declared

  reconcile_tool-Raises :
      (tool : String) (declared : HitlLevel) (o : Option ToolDefinition)
      → get_tool_definition tool ≡ o
      → Asks Raises (reconcile_tool h tool declared o)
  unfolding reconcile_tool
  reconcile_tool-Raises tool declared none found = tt
  reconcile_tool-Raises tool declared (some t) found = (
    tt,
    elim [
      | ok row ↦ reconcile_level-Raises tool t declared (is_in_force declared row) found
      | err _ ↦ tt
    ],
  )

  reconcile_all-Raises : (l : List (String × HitlLevel)) → Asks Raises (reconcile_all h l)
  unfolding reconcile_all reconcile_hitl_override
  reconcile_all-Raises [] = tt
  reconcile_all-Raises ((tool, level) ∷ l) =
      Asks-bind Raises (reconcile_tool h tool level (get_tool_definition tool))
        (λ _. reconcile_all h l) (reconcile_tool-Raises tool level (get_tool_definition tool) refl)
        (λ _. reconcile_all-Raises l)

  upserted :
      (r : OverrideRow) (l : List OverrideRow)
      → NotLower r
      → All NotLower l
      → All NotLower (upsert_override r l)
  unfolding upsert_override
  upserted r [] new old = (new, tt)
  upserted r (x ∷ l) new (first, rest) = decided (for_tool r.tool_name x) (upserted r l new rest)
    where
      decided :
          (b : Bool)
          → All NotLower (upsert_override r l)
          → All NotLower (if b then r ∷ l else x ∷ upsert_override r l)
      decided true later = (new, rest)
      decided false later = (first, later)

  insert-overrides :
      (r : Row) (w : World) → (perform h (pending_insert r) w).1.overrides ≡ w.overrides
  unfolding perform
  insert-overrides r w = ground arith

  Raises-perform :
      (o : Op) (w : World)
      → Raises o
      → All NotLower w.overrides
      → All NotLower (perform h o w).1.overrides
  unfolding perform
  Raises-perform (override_upsert r) w new old = upserted r w.overrides new old
  Raises-perform (pending_insert r) w new old =
      subst (λ l. All NotLower l) (sym (insert-overrides r w)) old
  Raises-perform o w new old = old

  -- If no override in force is below the static level of its tool, a reload of the flags leaves none below,
  -- whatever the file declares and wherever the database fails.
  pub reload_keeps_floor :
      (next : FeatureFlagsConfig) (script : List Outcome) (w : World)
      → All NotLower w.overrides
      → All NotLower (run h script (reload h next) w).1.overrides
  unfolding reload
  reload_keeps_floor next script w old =
      run_Asks Raises h (λ v. All NotLower v.overrides)
        (λ x o v may i.
          respond_keeps h (λ u. All NotLower u.overrides) x o v i (Raises-perform o v may i))
        script (reconcile_all h next.hitl_overrides >> ret next) w
        (Asks-bind Raises (reconcile_all h next.hitl_overrides) (λ _. ret next)
          (reconcile_all-Raises next.hitl_overrides) (λ _. tt))
        old
