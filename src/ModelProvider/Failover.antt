-- ===== src/ModelProvider/Failover.antt =====
-- src/model-provider/failover.service.ts: one more try of the primary, and then the fallback. The two
-- calls are programs; a streaming call ends with what it gave and whether it showed any text, which is
-- the source's `emittedAny`.
use jin_core.Base.{String, Bool, true, false}
use jin_core.Runtime.Program.{
  Answer, ok, err, Prog, ret, throw, query, ◌>>=◌, ◌>>◌, catch, sleep, all_providers_failed,
  stream_already_partially_emitted,
}

pub record FailoverContext : Type 0 where
  pub task_profile : String
  pub primary_model_id : String
  pub fallback_model_id : String

-- of a program that shows text on its way
abbrev pub Shown : Type 0 → Type 0
Shown A = Bool × Answer A

module _ {A : Type 0} where
  unfoldable pub retry_once : Prog A → Prog A
  retry_once call = catch call (λ _. query (sleep 1000) >> call)

  -- behind a failed primary
  unfoldable pub fall_back : FailoverContext → Prog A → Prog A
  fall_back c call =
      catch call
        λ _. throw (all_providers_failed c.task_profile c.primary_model_id c.fallback_model_id)

  unfoldable pub execute_with_failover : FailoverContext → Prog A → Prog A → Prog A
  unfolding retry_once fall_back
  execute_with_failover c call_primary call_fallback =
      catch (retry_once call_primary) (λ _. fall_back c call_fallback)

  -- a failure is tried again only if nothing was shown
  unfoldable pub after_first_try : Prog (Shown A) → Shown A → Prog (Shown A)
  after_first_try call (false, err _) = query (sleep 1000) >> call
  after_first_try call ended = ret ended

  unfoldable pub retry_once_stream : Prog (Shown A) → Prog (Shown A)
  unfolding after_first_try
  retry_once_stream call = call >>= λ ended. after_first_try call ended

  unfoldable pub after_fallback : FailoverContext → Shown A → Prog A
  after_fallback c (_, ok a) = ret a
  after_fallback c (true, err _) =
      throw (stream_already_partially_emitted c.task_profile c.fallback_model_id)
  after_fallback c (false, err _) =
      throw (all_providers_failed c.task_profile c.primary_model_id c.fallback_model_id)

  unfoldable pub after_primary : FailoverContext → Prog (Shown A) → Shown A → Prog A
  unfolding after_fallback
  after_primary c call (_, ok a) = ret a
  after_primary c call (true, err _) =
      throw (stream_already_partially_emitted c.task_profile c.primary_model_id)
  after_primary c call (false, err _) = call >>= λ ended. after_fallback c ended

  unfoldable pub execute_with_failover_stream :
      FailoverContext → Prog (Shown A) → Prog (Shown A) → Prog A
  unfolding retry_once_stream after_primary
  execute_with_failover_stream c call_primary call_fallback =
      retry_once_stream call_primary >>= λ ended. after_primary c call_fallback ended
