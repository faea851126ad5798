-- ===== src/Budget/Counted.antt =====
-- How often a guarded call asks a model: the two tries of the one that was chosen, and the other.
use jin_core.Budget.Service.{check_before_call, record_usage}
use jin_core.Budget.KillSwitch.{is_on, is_active}
use jin_core.Budget.Guarded.{
  effective_hints, check_input, usage_of, effective_session, guarded, paid, within_budget,
  unless_paused, complete, complete_stream, Call, Guard,
}
use jin_core.Runtime.World.{Host}
use jin_core.Budget.Books.{check_before_call-Books, record_usage-Books, Books}
use Router.{openai, google, anthropic}
use jin_core.Runtime.Always.{Asks-imply, Asks-bind, Asks}
use jin_core.Runtime.Within.{
  Within-settled, Within-bind, Within-of_Free, Free, Within-catch, Within,
}
use jin_core.Runtime.Program.{
  kill_switch_active, random_uuid, clock, usage, all_providers_failed, Op, ret, throw, ◌>>=◌, ◌>>◌,
  catch, model_complete, model_stream, sleep, query, ok, settled, err, Stream, Answer, Prog,
}
use jin_core.ModelProvider.Types.{
  SelectModelHints, TaskProfile, Delta, ModelCompletionResponse, ModelCompletionRequest,
}
use jin_core.ModelProvider.Failover.{
  retry_once_stream, after_first_try, after_fallback, after_primary, execute_with_failover_stream,
  Shown, fall_back, retry_once, execute_with_failover, FailoverContext,
}
use jin_core.ModelProvider.Router.{
  provider_for, call_model, complete_or_stream, context_of, resolve_candidates, with_effort,
  Candidates, complete_with, complete_stream_with, Vendor, Listener, call_vendor, show_all,
  after_stream, after_whole, stream_vendor,
}
use jin_core.ModelProvider.Router
use jin_core.Base.{none, some, Bool, Option, true, false, [], arith, ◌∷◌, List, String, ℕ}

module _ (limit : ℕ) where
  model_complete_once :
      (model : String) (request : ModelCompletionRequest)
      → Within limit 1 (query (model_complete model request))
  model_complete_once model request n room =
      (omega arith, elim [ ok _ ↦ omega arith | err _ ↦ omega arith ])

  call_vendor_once :
      (v : Answer Vendor) (model : String) (request : ModelCompletionRequest)
      → Within limit 1 (call_vendor v model request)
  unfolding call_vendor
  call_vendor_once (ok _) model request = model_complete_once model request
  call_vendor_once (err e) model request =
      Within-of_Free limit {A = ModelCompletionResponse} 1 (throw e) tt

  show_all-Free : (on_delta : Listener) (ds : List Delta) → Asks Free (show_all on_delta ds)
  unfolding show_all
  show_all-Free on_delta [] = tt
  show_all-Free on_delta (d ∷ ds) = (tt, elim [ ok _ ↦ show_all-Free on_delta ds | err _ ↦ tt ])

  after_stream-Free :
      (on_delta : Listener) (s : Answer Stream) → Asks Free (after_stream on_delta s)
  unfolding after_stream
  after_stream-Free on_delta (ok s) =
      Asks-bind Free (show_all on_delta s.deltas) _ (show_all-Free on_delta s.deltas) (λ _. tt)
  after_stream-Free on_delta (err _) = tt

  after_whole-Free :
      (on_delta : Listener) (r : Answer ModelCompletionResponse)
      → Asks Free (after_whole on_delta r)
  unfolding after_whole
  after_whole-Free on_delta (ok r) = (tt, elim [ ok _ ↦ tt | err _ ↦ tt ])
  after_whole-Free on_delta (err _) = tt

  model_stream_once :
      (model : String) (request : ModelCompletionRequest)
      → Within limit 1 (query (model_stream model request))
  model_stream_once model request n room =
      (omega arith, elim [ ok _ ↦ omega arith | err _ ↦ omega arith ])

  whole_once :
      (model : String) (request : ModelCompletionRequest) (on_delta : Listener)
      → Within limit 1 (settled (query (model_complete model request)) >>= after_whole on_delta)
  whole_once model request on_delta =
      Within-bind limit 1 0 (settled (query (model_complete model request))) (after_whole on_delta)
        (Within-settled limit 1 (query (model_complete model request))
          (model_complete_once model request))
        (λ r. Within-of_Free limit 0 (after_whole on_delta r) (after_whole-Free on_delta r))

  stream_vendor_once :
      (v : Answer Vendor) (model : String) (request : ModelCompletionRequest) (on_delta : Listener)
      → Within limit 1 (stream_vendor v model request on_delta)
  unfolding stream_vendor
  stream_vendor_once (err e) model request on_delta =
      Within-of_Free limit {A = Shown ModelCompletionResponse} 1 (ret (false, err e)) tt
  stream_vendor_once (ok anthropic) model request on_delta =
      Within-bind limit 1 0 (settled (query (model_stream model request))) (after_stream on_delta)
        (Within-settled limit 1 (query (model_stream model request))
          (model_stream_once model request))
        (λ s. Within-of_Free limit 0 (after_stream on_delta s) (after_stream-Free on_delta s))
  stream_vendor_once (ok google) model request on_delta = whole_once model request on_delta
  stream_vendor_once (ok openai) model request on_delta = whole_once model request on_delta

  module _ {A : Type 0} (c : FailoverContext) where
    waited : (call : Prog A) → Within limit 1 call → Within limit 1 (query (sleep 1000) >> call)
    waited call d n room = (tt, elim [ ok _ ↦ d n room | err _ ↦ omega arith ])

    failover_thrice :
        (primary fallback : Prog A)
        → Within limit 1 primary
        → Within limit 1 fallback
        → Within limit 3 (execute_with_failover c primary fallback)
    unfolding execute_with_failover retry_once fall_back
    failover_thrice primary fallback d e =
        Within-catch limit 2 1 (catch primary (λ _. query (sleep 1000) >> primary)) _
          (Within-catch limit 1 1 primary (λ _. query (sleep 1000) >> primary) d
            (λ _. waited primary d))
          (λ _. Within-catch limit 1 0 fallback _ e (λ x.
            Within-of_Free limit {A = A} 0
              (throw (all_providers_failed c.task_profile c.primary_model_id c.fallback_model_id))
              tt))

    tried_again :
        (call : Prog (Shown A)) (s : Shown A)
        → Within limit 1 call
        → Within limit 1 (after_first_try call s)
    unfolding after_first_try
    tried_again call (false, err _) d n room = (tt, elim [ ok _ ↦ d n room | err _ ↦ omega arith ])
    tried_again call (false, ok a) d n room = omega arith
    tried_again call (true, s) d n room = omega arith

    after_fallback-Free : (s : Shown A) → Asks Free (after_fallback c s)
    unfolding after_fallback
    after_fallback-Free (true, ok _) = tt
    after_fallback-Free (false, ok _) = tt
    after_fallback-Free (true, err _) = tt
    after_fallback-Free (false, err _) = tt

    fell_back :
        (fallback : Prog (Shown A)) (s : Shown A)
        → Within limit 1 fallback
        → Within limit 1 (after_primary c fallback s)
    unfolding after_primary
    fell_back fallback (true, ok _) e n room = omega arith
    fell_back fallback (false, ok _) e n room = omega arith
    fell_back fallback (true, err _) e n room = omega arith
    fell_back fallback (false, err _) e n room =
        Within-bind limit 1 0 fallback (after_fallback c) e
          (λ s. Within-of_Free limit 0 (after_fallback c s) (after_fallback-Free s)) n room

    stream_failover_thrice :
        (primary fallback : Prog (Shown A))
        → Within limit 1 primary
        → Within limit 1 fallback
        → Within limit 3 (execute_with_failover_stream c primary fallback)
    unfolding execute_with_failover_stream retry_once_stream
    stream_failover_thrice primary fallback d e =
        Within-bind limit 2 1 (primary >>= λ s. after_first_try primary s) _
          (Within-bind limit 1 1 primary _ d (λ s. tried_again primary s d))
          (λ s. fell_back fallback s e)

  module _ (task : TaskProfile) (request : ModelCompletionRequest) where
    complete_with_thrice : (c : Answer Candidates) → Within limit 3 (complete_with task request c)
    unfolding complete_with
    complete_with_thrice (err e) = Within-of_Free limit {A = ModelCompletionResponse} 3 (throw e) tt
    complete_with_thrice (ok c) =
        let effective = with_effort request c.effort in
        failover_thrice (context_of task c) (call_model c.selected.model_id effective)
          (call_model c.secondary_model_id effective)
          (call_vendor_once (provider_for c.selected.model_id) c.selected.model_id effective)
          (call_vendor_once (provider_for c.secondary_model_id) c.secondary_model_id effective)

    complete_stream_with_thrice :
        (on_delta : Listener) (c : Answer Candidates)
        → Within limit 3 (complete_stream_with task request on_delta c)
    unfolding complete_stream_with
    complete_stream_with_thrice on_delta (err e) =
        Within-of_Free limit {A = ModelCompletionResponse} 3 (throw e) tt
    complete_stream_with_thrice on_delta (ok c) =
        let effective = with_effort request c.effort in
        stream_failover_thrice (context_of task c)
          (complete_or_stream c.selected.model_id effective on_delta)
          (complete_or_stream c.secondary_model_id effective on_delta)
          (stream_vendor_once (provider_for c.selected.model_id) c.selected.model_id effective
            on_delta)
          (stream_vendor_once (provider_for c.secondary_model_id) c.secondary_model_id effective
            on_delta)

  Books-Free : (o : Op) → Books o → Free o
  Books-Free clock d = tt
  Books-Free random_uuid d = tt
  Books-Free (usage _) d = tt
  Books-Free o d = absurd d

  kept-Books : {A : Type 0} (p : Prog A) → Asks Books p → Within limit 0 p
  kept-Books p d = Within-of_Free limit 0 p (Asks-imply Books Free Books-Free p d)

  module _ (h : Host) (g : Guard) (c : Call)
      (call : SelectModelHints → Prog ModelCompletionResponse)
      (thrice : (hints : SelectModelHints) → Within limit 3 (call hints)) where
    session_free : (sid : Option String) → Within limit 0 (effective_session h sid)
    session_free none =
        Within-of_Free limit 0 (query random_uuid) (tt, elim [ ok _ ↦ tt | err _ ↦ tt ])
    session_free (some sid) = Within-of_Free limit 0 (ret sid) tt

    paid_free : (sid : String) (r : ModelCompletionResponse) → Within limit 0 (paid h g sid r)
    unfolding paid
    paid_free sid r =
        Within-bind limit 0 0 (record_usage h g.budget g.prices (usage_of h sid r)) (λ _. ret r)
          (kept-Books (record_usage h g.budget g.prices (usage_of h sid r))
            (record_usage-Books h g.budget g.prices (usage_of h sid r)))
          (λ _. Within-of_Free limit 0 (ret r) tt)

    within_budget_thrice : Within limit 3 (within_budget h g c call)
    unfolding within_budget
    within_budget_thrice =
        Within-bind limit 0 3 (effective_session h c.session_id) _ (session_free c.session_id)
          λ sid.
            Within-bind limit 0 3 (check_before_call h g.budget (check_input h c sid)) _
              (kept-Books (check_before_call h g.budget (check_input h c sid))
                (check_before_call-Books h g.budget (check_input h c sid)))
              λ remaining.
                Within-bind limit 3 0 (call (effective_hints h c remaining)) _
                  (thrice (effective_hints h c remaining)) (paid_free sid)

    unless_paused_thrice : (b : Bool) → Within limit 3 (unless_paused h g c call b)
    unfolding unless_paused
    unless_paused_thrice true =
        Within-of_Free limit {A = ModelCompletionResponse} 3 (throw kill_switch_active) tt
    unless_paused_thrice false = within_budget_thrice

    guarded_thrice : Within limit 3 (guarded h g c call)
    unfolding is_active
    guarded_thrice n room =
        (tt, elim [ ok row ↦ unless_paused_thrice (is_on row) n room | err _ ↦ omega arith ])

  module _ (h : Host) (g : Guard) (c : Call) where
    pub complete_thrice : Within limit 3 (complete h g c)
    unfolding complete Router.complete
    complete_thrice =
        guarded_thrice h g c (Router.complete g.router c.task_profile c.request) λ hints.
          complete_with_thrice c.task_profile c.request
            (resolve_candidates g.router c.task_profile hints)

    pub complete_stream_thrice :
        (on_delta : Listener) → Within limit 3 (complete_stream h g c on_delta)
    unfolding complete_stream Router.complete_stream
    complete_stream_thrice on_delta =
        guarded_thrice h g c (Router.complete_stream g.router c.task_profile c.request on_delta)
          λ hints.
            complete_stream_with_thrice c.task_profile c.request on_delta
              (resolve_candidates g.router c.task_profile hints)
