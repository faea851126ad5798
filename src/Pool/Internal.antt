-- ===== src/Pool/Internal.antt =====
-- The two executors that the repository registers itself, for a change of mode and for an override of a
-- level, keep the discipline: they call no integration and touch no pending approval.
use jin_core.Pool.Discipline.{Needs, after, Holds, Disciplined}
use jin_core.Pool.Services.{Kept, Executes}
use jin_core.Autonomy.Logic.{AutonomyConfig}
use jin_core.Autonomy.Mode.{AutonomyMode, parse_mode}
use jin_core.Autonomy.Owner.{
  apply_approved_change, apply_parsed, approved_change, mode_change_executor,
}
use jin_core.Autonomy.Service.{
  Change, audit_change, announce, apply_change, write_state, written_row, state_of, get_state,
}
use jin_core.Audit.Service.{append_row, record_tool_call}
use jin_core.Flags.Service.{apply_approved_override, put_override, level_override_executor}
use jin_core.Hitl.Payload.{Payload, arguments, level_override, mode_change}
use jin_core.Runtime.Always.{Asks, Asks-bind}
use jin_core.Runtime.Program.{
  zod_error, Prog, Answer, Op, Reply, ok, err, ret, throw, ask, query, ◌>>◌, pending_insert,
  pending_claim, pending_release, invoke, mode_update,
}
use jin_core.Runtime.World.{Host}
use mathlib.Core.Path.{subst}
use jin_core.Base.{
  ◌&&◌, ltb, if◌then◌else◌, ◌≡◌, refl, sym, Bool, true, false, Option, none, some, String, ℕ,
}

abbrev is_inert : Op → Bool
is_inert (pending_insert _) = false
is_inert (pending_claim _ _) = false
is_inert (pending_release _ _) = false
is_inert (invoke _ _ _) = false
is_inert _ = true

abbrev Inert : Op → Type 0
Inert o = is_inert o ≡ true

module _ (r : String) where
  Inert-Needs : (o : Op) (n : ℕ) → Inert o → Needs r o n
  Inert-Needs (pending_insert _) n i = absurd (cc)
  Inert-Needs (pending_release _ _) n i = absurd (cc)
  Inert-Needs (invoke _ _ _) n i = absurd (cc)
  Inert-Needs o n i = tt

  Inert-after : (o : Op) (n : ℕ) (a : Answer (Reply o)) → Inert o → after r o n a ≡ n
  Inert-after (pending_claim _ _) n a i = absurd (cc)
  Inert-after (pending_release _ _) n a i = absurd (cc)
  Inert-after (invoke _ _ _) n a i = absurd (cc)
  Inert-after o n a i = refl

  Inert-Kept :
      {A : Type 0} (p : Prog A) (rid : String) (n : ℕ)
      → Asks Inert p
      → Holds r rid n
      → Disciplined r n p (Kept r rid)
  Inert-Kept (ret a) rid n d holds = tt
  Inert-Kept (throw e) rid n d holds = holds
  Inert-Kept (ask o k) rid n d holds = (
    Inert-Needs o n d.0,
    λ a.
        subst (λ m. Disciplined r m (k a) (Kept r rid)) (sym (Inert-after o n a d.0))
          (Inert-Kept (k a) rid n (d.1 a) holds),
  )

override-Inert : (p : Option Payload) → Asks Inert (apply_approved_override p)
unfolding apply_approved_override put_override
override-Inert none = tt
override-Inert (some (arguments _)) = tt
override-Inert (some (mode_change _ _ _)) = tt
override-Inert (some (level_override tool level)) =
    (refl, elim [ ok now ↦ (refl, elim [ ok _ ↦ tt | err _ ↦ tt ]) | err _ ↦ tt ])

abbrev done_text : String
done_text = "{\"ok\":true}"

module _ (h : Host) where
  audit_change-Inert :
      (rid : String) (now : ℕ) (previous : AutonomyMode) (c : Change)
      → c.approval_request_id ≡ some rid
      → Asks Inert (audit_change h now previous c)
  unfolding audit_change record_tool_call append_row
  audit_change-Inert rid now previous c given = rw given (
    refl,
    elim [ ok true ↦ tt | ok false ↦ (refl, elim [ ok _ ↦ tt | err _ ↦ tt ]) | err _ ↦ tt ],
  )

  written-Inert :
      (now : ℕ) (previous : AutonomyMode) (c : Change)
      → Asks Inert (query (mode_update (written_row now c)) >> announce h now previous c)
  unfolding announce
  written-Inert now previous c =
      (refl, elim [ ok _ ↦ (refl, elim [ ok _ ↦ tt | err _ ↦ tt ]) | err _ ↦ tt ])

  apply_change-Inert :
      (a rid : String) (now : ℕ) (previous : AutonomyMode) (c : Change)
      → c.approval_request_id ≡ some rid
      → Asks Inert (apply_change h true now previous c >> ret a)
  unfolding apply_change
  apply_change-Inert a rid now previous c given =
      Asks-bind Inert (apply_change h true now previous c) (λ _. ret a)
        (Asks-bind Inert (audit_change h now previous c) _
          (audit_change-Inert rid now previous c given) (λ _. written-Inert now previous c))
        (λ _. tt)

  parsed-Inert :
      (config : AutonomyConfig) (m : Option AutonomyMode) (hours : ℕ) (rid : String)
      → Asks Inert (apply_parsed h config m hours rid)
  unfolding apply_parsed write_state get_state
  parsed-Inert config none hours rid = tt
  parsed-Inert config (some mode) hours rid = checked (ltb 0 hours && h.is_uuid rid)
    where
      checked :
          (b : Bool)
          → Asks Inert (
              if b
              then (write_state h (approved_change config mode hours rid) >> ret done_text)
              else throw zod_error)
      checked false = tt
      checked true = (
        refl,
        elim [
          | ok now ↦ (
            refl,
            elim [
              | ok row ↦
                  apply_change-Inert done_text rid now (state_of now row).mode
                    (approved_change config mode hours rid) refl
              | err _ ↦ tt
            ],
          )
          | err _ ↦ tt
        ],
      )

  change-Inert :
      (config : AutonomyConfig) (p : Option Payload) → Asks Inert (apply_approved_change h config p)
  unfolding apply_approved_change
  change-Inert config none = tt
  change-Inert config (some (arguments _)) = tt
  change-Inert config (some (level_override _ _)) = tt
  change-Inert config (some (mode_change mode hours rid)) =
      parsed-Inert config (parse_mode mode) hours rid

  pub mode_change_executor-Executes :
      (config : AutonomyConfig) (r : String) → Executes r (mode_change_executor h config)
  mode_change_executor-Executes config r payload rid n holds =
      Inert-Kept r (apply_approved_change h config payload) rid n (change-Inert config payload)
        holds

pub level_override_executor-Executes : (r : String) → Executes r level_override_executor
level_override_executor-Executes r payload rid n holds =
    Inert-Kept r (apply_approved_override payload) rid n (override-Inert payload) holds
