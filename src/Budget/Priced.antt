-- ===== src/Budget/Priced.antt =====
-- What a guarded call of a model asks at all: the budget's tables and clock, the models, and its listener.
use jin_core.Budget.Service.{check_before_call, record_usage}
use jin_core.Budget.KillSwitch.{is_on, is_active}
use jin_core.Base.{none, some, false, true, String, Bool, Option}
use jin_core.ModelProvider.Router.{
  resolve_candidates, complete_stream_with, complete_with, Listener,
}
use jin_core.ModelProvider.Types.{ModelCompletionResponse, SelectModelHints}
use jin_core.Budget.Tables.{kill_switch_upsert}
use jin_core.Budget.Guarded.{
  effective_hints, check_input, usage_of, effective_session, guarded, paid, within_budget,
  unless_paused, complete, complete_stream, Call, Guard,
}
use jin_core.Runtime.Always.{Asks-bind, Asks-imply, Asks}
use jin_core.ModelProvider.Asked.{complete_with-Models, complete_stream_with-Models, Models}
use jin_core.Budget.Books.{check_before_call-Books, record_usage-Books, Books}
use jin_core.Runtime.World.{Host}
use jin_core.Runtime.Program.{
  err, ok, random_uuid, model_stream, clock, model_complete, emit, usage, sleep, Op, Prog,
}
use jin_core.ModelProvider.Router

abbrev pub Priced : Op → Type 0
Priced clock = Unit
Priced (sleep _) = Unit
Priced random_uuid = Unit
Priced (emit _) = Unit
Priced (usage (kill_switch_upsert _)) = ⊥
Priced (usage _) = Unit
Priced (model_complete _ _) = Unit
Priced (model_stream _ _) = Unit
Priced _ = ⊥

Books-Priced : (o : Op) → Books o → Priced o
Books-Priced clock d = tt
Books-Priced random_uuid d = tt
Books-Priced (usage (kill_switch_upsert _)) d = d
Books-Priced (usage _) d = tt
Books-Priced o d = absurd d

Models-Priced : (o : Op) → Models o → Priced o
Models-Priced (sleep _) d = tt
Models-Priced (emit _) d = tt
Models-Priced (model_complete _ _) d = tt
Models-Priced (model_stream _ _) d = tt
Models-Priced o d = absurd d

booked : {A : Type 0} (p : Prog A) → Asks Books p → Asks Priced p
booked p d = Asks-imply Books Priced Books-Priced p d

routed : {A : Type 0} (p : Prog A) → Asks Models p → Asks Priced p
routed p d = Asks-imply Models Priced Models-Priced p d

module _ (h : Host) (g : Guard) (c : Call) (call : SelectModelHints → Prog ModelCompletionResponse)
    (dc : (hints : SelectModelHints) → Asks Priced (call hints)) where
  effective_session-Priced : (sid : Option String) → Asks Priced (effective_session h sid)
  effective_session-Priced none = (tt, elim [ ok _ ↦ tt | err _ ↦ tt ])
  effective_session-Priced (some sid) = tt

  paid-Priced : (sid : String) (r : ModelCompletionResponse) → Asks Priced (paid h g sid r)
  unfolding paid
  paid-Priced sid r =
      Asks-bind Priced (record_usage h g.budget g.prices (usage_of h sid r)) _
        (booked (record_usage h g.budget g.prices (usage_of h sid r))
          (record_usage-Books h g.budget g.prices (usage_of h sid r)))
        (λ _. tt)

  within_budget-Priced : Asks Priced (within_budget h g c call)
  unfolding within_budget
  within_budget-Priced =
      Asks-bind Priced (effective_session h c.session_id) _ (effective_session-Priced c.session_id)
        λ sid.
          Asks-bind Priced (check_before_call h g.budget (check_input h c sid)) _
            (booked (check_before_call h g.budget (check_input h c sid))
              (check_before_call-Books h g.budget (check_input h c sid)))
            λ remaining.
              Asks-bind Priced (call (effective_hints h c remaining)) _
                (dc (effective_hints h c remaining)) (paid-Priced sid)

  unless_paused-Priced : (b : Bool) → Asks Priced (unless_paused h g c call b)
  unfolding unless_paused
  unless_paused-Priced true = tt
  unless_paused-Priced false = within_budget-Priced

  guarded-Priced : Asks Priced (guarded h g c call)
  unfolding is_active
  guarded-Priced = (tt, elim [ ok row ↦ unless_paused-Priced (is_on row) | err _ ↦ tt ])

module _ (h : Host) (g : Guard) (c : Call) where
  pub complete-Priced : Asks Priced (complete h g c)
  unfolding complete Router.complete
  complete-Priced =
      guarded-Priced h g c (Router.complete g.router c.task_profile c.request) λ hints.
        routed
          (complete_with c.task_profile c.request
            (resolve_candidates g.router c.task_profile hints))
          (complete_with-Models c.task_profile c.request
            (resolve_candidates g.router c.task_profile hints))

  pub complete_stream-Priced : (on_delta : Listener) → Asks Priced (complete_stream h g c on_delta)
  unfolding complete_stream Router.complete_stream
  complete_stream-Priced on_delta =
      guarded-Priced h g c (Router.complete_stream g.router c.task_profile c.request on_delta)
        λ hints.
          routed
            (complete_stream_with c.task_profile c.request on_delta
              (resolve_candidates g.router c.task_profile hints))
            (complete_stream_with-Models c.task_profile c.request on_delta
              (resolve_candidates g.router c.task_profile hints))
