-- ===== src/ModelProvider/Commit.antt =====
-- The rule of streaming in src/model-provider/failover.service.ts: once the owner has seen some text of a
-- model, no model is asked again for this answer.
use Router.{openai, google, anthropic}
use jin_core.ModelProvider.Types.{
  Delta, ModelCompletionResponse, ModelCompletionRequest, TaskProfile,
}
use jin_core.ModelProvider.Router.{
  provider_for, complete_or_stream, is_cons, with_effort, context_of, Candidates, Listener, Vendor,
  show_all, after_stream, after_whole, stream_vendor, complete_stream_with,
}
use jin_core.ModelProvider.Failover.{
  retry_once_stream, after_first_try, after_fallback, after_primary, execute_with_failover_stream,
  Shown, FailoverContext,
}
use jin_core.Runtime.Monitor.{Obeys-weaken, Obeys-bind, Then, Obeys, Post, Monitor}
use jin_core.Runtime.Program.{
  ◌>>=◌, stream_already_partially_emitted, ask, all_providers_failed, throw, ◌>>◌, sleep, ret,
  model_stream, emit, err, Stream, model_complete, Reply, ok, Op, Answer, Prog,
}
use jin_core.ModelProvider.Router
use jin_core.Base.{inl, ◌⊎◌, [], inr, ◌∷◌, ◌≡◌, List, String, false, true, refl}

-- Nothing was shown yet, or some text was. The listener and the timer are the process's own; where an answer
-- to them is an error all the same, nothing more is said.
pub data Stage : Type 0 where
  unseen seen failed_locally : Stage

abbrev pub MayFollow : Stage → Op → Type 0
MayFollow seen (model_complete _ _) = ⊥
MayFollow seen (model_stream _ _) = ⊥
MayFollow _ _ = Unit

abbrev pub next_stage : Stage → (o : Op) → Answer (Reply o) → Stage
next_stage failed_locally o a = failed_locally
next_stage unseen (emit _) (ok _) = seen
next_stage seen (emit _) (ok _) = seen
next_stage unseen (emit _) (err _) = failed_locally
next_stage seen (emit _) (err _) = failed_locally
next_stage unseen (sleep _) (err _) = failed_locally
next_stage seen (sleep _) (err _) = failed_locally
next_stage s _ _ = s

abbrev pub commitment : Monitor
commitment = record { State = Stage; May = λ s o. MayFollow s o; move = λ s o a. next_stage s o a }

-- a streaming call reports what it showed
abbrev pub Reports : {A : Type 0} → Stage → Answer (Shown A) → Type 0
Reports failed_locally _ = Unit
Reports unseen (ok (false, _)) = Unit
Reports seen (ok (true, _)) = Unit
Reports _ _ = ⊥

-- Without any text shown the error names the two models; with some it says so, of the model that showed it.
abbrev pub Verdict : {A : Type 0} → FailoverContext → Stage → Answer A → Type 0
Verdict c failed_locally _ = Unit
Verdict c _ (ok _) = Unit
Verdict c unseen (err e) =
    e ≡ all_providers_failed c.task_profile c.primary_model_id c.fallback_model_id
Verdict c seen (err e) =
    (e ≡ stream_already_partially_emitted c.task_profile c.primary_model_id)
    ⊎ (e ≡ stream_already_partially_emitted c.task_profile c.fallback_model_id)

anything_goes :
    {A : Type 0} (p : Prog A) (Q : Post commitment A)
    → ((a : Answer A) → Q failed_locally a)
    → Obeys commitment failed_locally p Q
anything_goes (ret a) Q q = q (ok a)
anything_goes (throw e) Q q = q (err e)
anything_goes (ask o k) Q q = (tt, λ a. anything_goes (k a) Q q)

module _ {A : Type 0} (c : FailoverContext) (primary fallback : Prog (Shown A))
    (dp : Obeys commitment unseen primary Reports)
    (df : Obeys commitment unseen fallback Reports) where
  after_first :
      (s : Stage) (a : Answer (Shown A))
      → Reports s a
      → Then commitment (after_first_try primary) Reports s a
  unfolding after_first_try
  after_first failed_locally (ok x) r = anything_goes (after_first_try primary x) Reports (λ _. tt)
  after_first failed_locally (err e) r = tt
  after_first unseen (ok (false, ok x)) r = tt
  after_first unseen (ok (false, err e)) r = (tt, elim [ ok _ ↦ dp | err _ ↦ tt ])
  after_first unseen (ok (true, x)) r = absurd r
  after_first unseen (err e) r = absurd r
  after_first seen (ok (true, x)) r = tt
  after_first seen (ok (false, x)) r = absurd r
  after_first seen (err e) r = absurd r

  after_second :
      (s : Stage) (a : Answer (Shown A))
      → Reports s a
      → Then commitment (after_fallback c) (Verdict c) s a
  unfolding after_fallback
  after_second failed_locally (ok x) r = anything_goes (after_fallback c x) (Verdict c) (λ _. tt)
  after_second failed_locally (err e) r = tt
  after_second unseen (ok (false, ok x)) r = tt
  after_second unseen (ok (false, err e)) r = refl
  after_second unseen (ok (true, x)) r = absurd r
  after_second unseen (err e) r = absurd r
  after_second seen (ok (true, ok x)) r = tt
  after_second seen (ok (true, err e)) r = inr refl
  after_second seen (ok (false, x)) r = absurd r
  after_second seen (err e) r = absurd r

  after_tries :
      (s : Stage) (a : Answer (Shown A))
      → Reports s a
      → Then commitment (after_primary c fallback) (Verdict c) s a
  unfolding after_primary
  after_tries failed_locally (ok x) r =
      anything_goes (after_primary c fallback x) (Verdict c) (λ _. tt)
  after_tries failed_locally (err e) r = tt
  after_tries unseen (ok (false, ok x)) r = tt
  after_tries unseen (ok (false, err e)) r =
      Obeys-bind commitment fallback (after_fallback c) (Verdict c) unseen
        (Obeys-weaken commitment fallback Reports _ unseen after_second df)
  after_tries unseen (ok (true, x)) r = absurd r
  after_tries unseen (err e) r = absurd r
  after_tries seen (ok (true, ok x)) r = tt
  after_tries seen (ok (true, err e)) r = inl refl
  after_tries seen (ok (false, x)) r = absurd r
  after_tries seen (err e) r = absurd r

  failover_commits :
      Obeys commitment unseen (execute_with_failover_stream c primary fallback) (Verdict c)
  unfolding execute_with_failover_stream retry_once_stream
  failover_commits =
      Obeys-bind commitment (primary >>= after_first_try primary) (after_primary c fallback)
        (Verdict c) unseen
        (Obeys-weaken commitment (primary >>= after_first_try primary) Reports _ unseen after_tries
          (Obeys-bind commitment primary (after_first_try primary) Reports unseen
            (Obeys-weaken commitment primary Reports _ unseen after_first dp)))

-- behind the first text
shown_on :
    (on_delta : Listener) (ds : List Delta) (r : Answer ModelCompletionResponse)
    → Obeys commitment seen (show_all on_delta ds >> ret (true, r)) Reports
unfolding show_all
shown_on on_delta [] r = tt
shown_on on_delta (d ∷ ds) r = (tt, elim [ ok _ ↦ shown_on on_delta ds r | err _ ↦ tt ])

streamed :
    (on_delta : Listener) (s : Answer Stream)
    → Obeys commitment unseen (after_stream on_delta s) Reports
unfolding after_stream show_all
streamed on_delta (err e) = tt
streamed on_delta (ok s) = by_deltas s.deltas
  where
    by_deltas :
        (ds : List Delta)
        → Obeys commitment unseen (show_all on_delta ds >> ret (is_cons ds, s.final)) Reports
    by_deltas [] = tt
    by_deltas (d ∷ ds) = (tt, elim [ ok _ ↦ shown_on on_delta ds s.final | err _ ↦ tt ])

given_whole :
    (on_delta : Listener) (r : Answer ModelCompletionResponse)
    → Obeys commitment unseen (after_whole on_delta r) Reports
unfolding after_whole
given_whole on_delta (err e) = tt
given_whole on_delta (ok r) = (tt, elim [ ok _ ↦ tt | err _ ↦ tt ])

stream_vendor-Reports :
    (v : Answer Vendor) (model : String) (request : ModelCompletionRequest) (on_delta : Listener)
    → Obeys commitment unseen (stream_vendor v model request on_delta) Reports
unfolding stream_vendor
stream_vendor-Reports (err e) model request on_delta = tt
stream_vendor-Reports (ok anthropic) model request on_delta =
    (tt, elim [ ok s ↦ streamed on_delta (ok s) | err e ↦ streamed on_delta (err e) ])
stream_vendor-Reports (ok google) model request on_delta =
    (tt, elim [ ok r ↦ given_whole on_delta (ok r) | err e ↦ given_whole on_delta (err e) ])
stream_vendor-Reports (ok openai) model request on_delta =
    (tt, elim [ ok r ↦ given_whole on_delta (ok r) | err e ↦ given_whole on_delta (err e) ])

-- A streaming call for candidates that were chosen, whatever it is answered: once a text was shown to the
-- listener, no model is asked again. It ends with an answer, or, where nothing was shown, with the error
-- that names both models, or else with the error of a stream that was cut, which names one of them.
pub complete_stream_commits :
    (task : TaskProfile) (request : ModelCompletionRequest) (on_delta : Listener) (c : Candidates)
    → Obeys commitment unseen
        (complete_stream_with task request on_delta (ok c))
        (Verdict (context_of task c))
unfolding complete_stream_with
complete_stream_commits task request on_delta c =
    let effective = with_effort request c.effort in
    failover_commits (context_of task c) (complete_or_stream c.selected.model_id effective on_delta)
      (complete_or_stream c.secondary_model_id effective on_delta)
      (stream_vendor-Reports (provider_for c.selected.model_id) c.selected.model_id effective
        on_delta)
      (stream_vendor-Reports (provider_for c.secondary_model_id) c.secondary_model_id effective
        on_delta)
