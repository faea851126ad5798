-- ===== src/ModelProvider/Asked.antt =====
-- What a call of the router asks: the models, its listener, and the wait before the second try.
use Router.{openai, google, anthropic}
use jin_core.Base.{true, [], false, ◌∷◌, String, List}
use jin_core.Runtime.Always.{Asks-catch, Asks-bind, Asks}
use jin_core.ModelProvider.Types.{
  Delta, ModelCompletionResponse, ModelCompletionRequest, TaskProfile,
}
use jin_core.ModelProvider.Router.{
  provider_for, call_model, complete_or_stream, context_of, with_effort, Candidates, Vendor,
  complete_with, complete_stream_with, Listener, call_vendor, show_all, after_stream, after_whole,
  stream_vendor,
}
use jin_core.ModelProvider.Failover.{
  fall_back, retry_once, retry_once_stream, execute_with_failover, after_first_try, after_fallback,
  after_primary, execute_with_failover_stream, Shown, FailoverContext,
}
use jin_core.Runtime.Program.{
  ◌>>◌, query, catch, ◌>>=◌, model_stream, err, model_complete, ok, emit, Stream, sleep, Prog,
  Answer, Op,
}
use jin_core.ModelProvider.Router

abbrev pub Models : Op → Type 0
Models (sleep _) = Unit
Models (emit _) = Unit
Models (model_complete _ _) = Unit
Models (model_stream _ _) = Unit
Models _ = ⊥

module _ {A : Type 0} (c : FailoverContext) (primary fallback : Prog A) (dp : Asks Models primary)
    (df : Asks Models fallback) where
  pub execute_with_failover-Models : Asks Models (execute_with_failover c primary fallback)
  unfolding execute_with_failover retry_once fall_back
  execute_with_failover-Models =
      Asks-catch Models (catch primary (λ _. query (sleep 1000) >> primary)) _
        (Asks-catch Models primary (λ _. query (sleep 1000) >> primary) dp
          (λ _. (tt, elim [ ok _ ↦ dp | err _ ↦ tt ])))
        (λ _. Asks-catch Models fallback _ df (λ _. tt))

module _ {A : Type 0} (c : FailoverContext) (primary fallback : Prog (Shown A))
    (dp : Asks Models primary) (df : Asks Models fallback) where
  after_first_try-Models : (s : Shown A) → Asks Models (after_first_try primary s)
  unfolding after_first_try
  after_first_try-Models (false, err _) = (tt, elim [ ok _ ↦ dp | err _ ↦ tt ])
  after_first_try-Models (false, ok _) = tt
  after_first_try-Models (true, _) = tt

  after_fallback-Models : (s : Shown A) → Asks Models (after_fallback c s)
  unfolding after_fallback
  after_fallback-Models (true, ok _) = tt
  after_fallback-Models (false, ok _) = tt
  after_fallback-Models (true, err _) = tt
  after_fallback-Models (false, err _) = tt

  after_primary-Models : (s : Shown A) → Asks Models (after_primary c fallback s)
  unfolding after_primary
  after_primary-Models (true, ok _) = tt
  after_primary-Models (false, ok _) = tt
  after_primary-Models (true, err _) = tt
  after_primary-Models (false, err _) = Asks-bind Models fallback _ df after_fallback-Models

  execute_with_failover_stream-Models :
      Asks Models (execute_with_failover_stream c primary fallback)
  unfolding execute_with_failover_stream retry_once_stream
  execute_with_failover_stream-Models =
      Asks-bind Models (primary >>= λ s. after_first_try primary s) _
        (Asks-bind Models primary _ dp after_first_try-Models) after_primary-Models

call_vendor-Models :
    (v : Answer Vendor) (model : String) (request : ModelCompletionRequest)
    → Asks Models (call_vendor v model request)
unfolding call_vendor
call_vendor-Models (ok _) model request = (tt, elim [ ok _ ↦ tt | err _ ↦ tt ])
call_vendor-Models (err _) model request = tt

show_all-Models : (on_delta : Listener) (ds : List Delta) → Asks Models (show_all on_delta ds)
unfolding show_all
show_all-Models on_delta [] = tt
show_all-Models on_delta (d ∷ ds) = (tt, elim [ ok _ ↦ show_all-Models on_delta ds | err _ ↦ tt ])

after_stream-Models :
    (on_delta : Listener) (s : Answer Stream) → Asks Models (after_stream on_delta s)
unfolding after_stream
after_stream-Models on_delta (ok s) =
    Asks-bind Models (show_all on_delta s.deltas) _ (show_all-Models on_delta s.deltas) (λ _. tt)
after_stream-Models on_delta (err _) = tt

after_whole-Models :
    (on_delta : Listener) (r : Answer ModelCompletionResponse)
    → Asks Models (after_whole on_delta r)
unfolding after_whole
after_whole-Models on_delta (ok r) = (tt, elim [ ok _ ↦ tt | err _ ↦ tt ])
after_whole-Models on_delta (err _) = tt

stream_vendor-Models :
    (v : Answer Vendor) (model : String) (request : ModelCompletionRequest) (on_delta : Listener)
    → Asks Models (stream_vendor v model request on_delta)
unfolding stream_vendor
stream_vendor-Models (err _) model request on_delta = tt
stream_vendor-Models (ok anthropic) model request on_delta =
    (tt, elim [ ok s ↦ after_stream-Models on_delta (ok s) | err e ↦ tt ])
stream_vendor-Models (ok google) model request on_delta =
    (tt, elim [ ok r ↦ after_whole-Models on_delta (ok r) | err e ↦ tt ])
stream_vendor-Models (ok openai) model request on_delta =
    (tt, elim [ ok r ↦ after_whole-Models on_delta (ok r) | err e ↦ tt ])

module _ (task : TaskProfile) (request : ModelCompletionRequest) where
  pub complete_with-Models : (c : Answer Candidates) → Asks Models (complete_with task request c)
  unfolding complete_with
  complete_with-Models (err _) = tt
  complete_with-Models (ok c) =
      let effective = with_effort request c.effort in
      execute_with_failover-Models (context_of task c) (call_model c.selected.model_id effective)
        (call_model c.secondary_model_id effective)
        (call_vendor-Models (provider_for c.selected.model_id) c.selected.model_id effective)
        (call_vendor-Models (provider_for c.secondary_model_id) c.secondary_model_id effective)

  pub complete_stream_with-Models :
      (on_delta : Listener) (c : Answer Candidates)
      → Asks Models (complete_stream_with task request on_delta c)
  unfolding complete_stream_with
  complete_stream_with-Models on_delta (err _) = tt
  complete_stream_with-Models on_delta (ok c) =
      let effective = with_effort request c.effort in
      execute_with_failover_stream-Models (context_of task c)
        (complete_or_stream c.selected.model_id effective on_delta)
        (complete_or_stream c.secondary_model_id effective on_delta)
        (stream_vendor-Models (provider_for c.selected.model_id) c.selected.model_id effective
          on_delta)
        (stream_vendor-Models (provider_for c.secondary_model_id) c.secondary_model_id effective
          on_delta)
