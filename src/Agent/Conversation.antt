-- ===== src/Agent/Conversation.antt =====
-- What the model reads after its calls: one result for each call, in the order of the calls.
use jin_core.Security.Sanitizer.{wrap_untrusted_content}
use jin_core.Tools.Registry.{get_tool_definition}
use jin_core.Hitl.Payload.{arguments}
use jin_core.Hitl.DualConfirm.{create_pending_approval}
use jin_core.Hitl.Executors.{execute}
use jin_core.Tools.Definition.{IntegrationName}
use jin_core.Policy.Decision.{decide}
use jin_core.Hitl.Levels.{PendingLevel, HitlDecision}
use jin_core.Agent.Types.{
  success, deferred, error, tool_call_started, tool_call_finished, AgentProgress, CallOutcome,
}
use jin_core.Agent.Calls.{
  deferred_text, tell_owner, exhausted_text, pending_input, write_down, build_tool_call_key,
  failures_of, switched_off, pending_level_of, failure_text, off_text, truncate_for_progress,
  hand_over, defer, run_now, act, attempt, failed_call, refuse, unless_exhausted, unless_off,
  handle_real_tool_call, Failures, CallResult, progress, finish, Turn,
}
use jin_core.Runtime.World.{Host}
use jin_core.ModelProvider.Types.{
  tool_result, ModelMessage, ModelMessageContentBlock, ModelToolCall,
}
use jin_core.Runtime.Monitor.{
  Obeys-weaken, Obeys-bind, Obeys-catch, Then, Else, Obeys, Post, Monitor,
}
use jin_core.Runtime.Program.{
  settle, agent_progress, query, when, ask, ◌>>=◌, catch, err, throw, ◌>>◌, emit, ret, Error, ok,
  Reply, Answer, Op, Prog,
}
use jin_core.Base.{
  inr, false, true, inl, leb, Bool-cases, ℕ, none, Bool, some, ◌≡◌, String, List, Option, refl,
}

-- Whether an answer of the process's own listener was an error, which its run never gives.
pub data Local : Type 0 where
  sound unsound : Local

abbrev pub next_local : Local → (o : Op) → Answer (Reply o) → Local
next_local sound (emit _) (err _) = unsound
next_local s _ _ = s

abbrev pub steady : Monitor
steady = record { State = Local; May = λ _ _. Unit; move = λ s o a. next_local s o a }

any_end :
    {A : Type 0} (s : Local) (p : Prog A) (Q : Post steady A)
    → ((t : Local) (a : Answer A) → Q t a)
    → Obeys steady s p Q
any_end s (ret a) Q q = q s (ok a)
any_end s (throw e) Q q = q s (err e)
any_end s (ask o k) Q q = (tt, λ a. any_end (next_local s o a) (k a) Q q)

pub unsound_end :
    {A : Type 0} (p : Prog A) (Q : Post steady A)
    → ((a : Answer A) → Q unsound a)
    → Obeys steady unsound p Q
unsound_end (ret a) Q q = q (ok a)
unsound_end (throw e) Q q = q (err e)
unsound_end (ask o k) Q q = (tt, λ a. unsound_end (k a) Q q)

-- a first part that may end in any way
behind :
    {A B : Type 0} (p : Prog A) (f : A → Prog B) (Q : Post steady B)
    → ((a : A) → Obeys steady sound (f a) Q)
    → ((e : Error) → Q sound (err e))
    → ((b : Answer B) → Q unsound b)
    → Obeys steady sound (p >>= f) Q
behind p f Q rest bad free = Obeys-bind steady p f Q sound (any_end sound p (Then steady f Q) ended)
  where
    ended : (t : Local) (a : Answer _) → Then steady f Q t a
    ended sound (ok a) = rest a
    ended sound (err e) = bad e
    ended unsound (ok a) = unsound_end (f a) Q free
    ended unsound (err e) = free (err e)

-- the call that a block answers
abbrev pub id_of : ModelMessageContentBlock → Option String
id_of (tool_result id _ _) = some id
id_of _ = none

-- a result for the call; an error is caught, or must not be
abbrev Tries : ModelToolCall → Local → Answer CallResult → Type 0
Tries call unsound _ = Unit
Tries call sound (ok r) = id_of r.block ≡ some call.id
Tries call sound (err _) = Unit

abbrev pub Answers : ModelToolCall → Local → Answer CallResult → Type 0
Answers call unsound _ = Unit
Answers call sound (ok r) = id_of r.block ≡ some call.id
Answers call sound (err _) = ⊥

module _ (h : Host) (t : Turn) (call : ModelToolCall) where
  pub shown_first :
      {A : Type 0} (p : AgentProgress) (q : Prog A) (Q : Post steady A)
      → Obeys steady sound q Q
      → ((a : Answer A) → Q unsound a)
      → Obeys steady sound (progress h t p >> q) Q
  unfolding progress
  shown_first p q Q rest free = shown t.live
    where
      shown :
          (live : Bool) → Obeys steady sound (when live (query (emit (agent_progress p))) >> q) Q
      shown true = (tt, elim [ ok _ ↦ rest | err e ↦ free (err e) ])
      shown false = rest

  told :
      (outcome : CallOutcome) (summary : Option String) (r : CallResult)
      → id_of r.block ≡ some call.id
      → Obeys steady sound (finish h t call outcome summary >> ret r) (Answers call)
  unfolding finish
  told outcome summary r same =
      shown_first (tool_call_finished call.id call.name outcome summary) (ret r) (Answers call) same
        (λ _. tt)

  told_trying :
      (outcome : CallOutcome) (summary : Option String) (r : CallResult)
      → id_of r.block ≡ some call.id
      → Obeys steady sound (finish h t call outcome summary >> ret r) (Tries call)
  unfolding finish
  told_trying outcome summary r same =
      shown_first (tool_call_finished call.id call.name outcome summary) (ret r) (Tries call) same
        (λ _. tt)

  module _ (messages : List ModelMessage) (failures : Failures) where
    defer-Tries :
        (d : HitlDecision) (level : PendingLevel)
        → Obeys steady sound (defer h t call messages failures d level) (Tries call)
    unfolding defer
    defer-Tries d level =
        behind (create_pending_approval (pending_input h t call messages d level)) _ (Tries call)
          (λ _. told_trying deferred (some (deferred_text h t d)) _ refl) (λ _. tt) (λ _. tt)

    run_now-Tries :
        (d : HitlDecision) → Obeys steady sound (run_now h t call failures d) (Tries call)
    unfolding run_now hand_over
    run_now-Tries d =
        behind (execute t.registry call.name (some (arguments call.input)) d.request_id) _
          (Tries call)
          (λ result.
            behind (write_down h t call d) _ (Tries call)
              (λ _.
                behind (tell_owner h t call d) _ (Tries call)
                  (λ _.
                    behind (settle (wrap_untrusted_content result call.name t.nonce)) _ (Tries call)
                      (λ _. told_trying success none _ refl) (λ _. tt) (λ _. tt))
                  (λ _. tt) (λ _. tt))
              (λ _. tt) (λ _. tt))
          (λ _. tt) (λ _. tt)

    act-Tries :
        (d : HitlDecision) (r : Option PendingLevel)
        → Obeys steady sound (act h t call messages failures d r) (Tries call)
    unfolding act
    act-Tries d (some level) = defer-Tries d level
    act-Tries d none = run_now-Tries d

    attempt-Tries : Obeys steady sound (attempt h t call messages failures) (Tries call)
    unfolding attempt
    attempt-Tries =
        behind (decide h t.autonomy t.flags call.name) _ (Tries call)
          (λ d. act-Tries d (pending_level_of d.level)) (λ _. tt) (λ _. tt)

    failed_call-Answers :
        (e : Error) → Obeys steady sound (failed_call h t call failures e) (Answers call)
    unfolding failed_call
    failed_call-Answers e = told error (some (failure_text h t call e)) _ refl

    refuse-Answers :
        (summary : String) → Obeys steady sound (refuse h t call failures summary) (Answers call)
    unfolding refuse
    refuse-Answers summary = told error (some summary) _ refl

    guarded_attempt :
        Obeys steady sound
          (catch (attempt h t call messages failures) (failed_call h t call failures))
          (Answers call)
    guarded_attempt =
        Obeys-catch steady (attempt h t call messages failures) (failed_call h t call failures)
          (Answers call) sound
          (Obeys-weaken steady (attempt h t call messages failures) (Tries call) _ sound ended
            attempt-Tries)
      where
        ended :
            (s : Local) (a : Answer CallResult)
            → Tries call s a
            → Else steady (failed_call h t call failures) (Answers call) s a
        ended sound (ok r) same = same
        ended sound (err e) _ = failed_call-Answers e
        ended unsound (ok r) _ = tt
        ended unsound (err e) _ =
            unsound_end (failed_call h t call failures e) (Answers call) (λ _. tt)

    unless_exhausted-Answers :
        (prior : ℕ)
        → Obeys steady sound (unless_exhausted h t call messages failures prior) (Answers call)
    unfolding unless_exhausted
    unless_exhausted-Answers prior = elim (Bool-cases (leb t.max_consecutive_tool_failures prior)) [
      | inl e ↦ rw e (refuse-Answers (exhausted_text h t call prior))
      | inr e ↦ rw e guarded_attempt
    ]

    unless_off-Answers :
        (o : Option IntegrationName)
        → Obeys steady sound (unless_off h t call messages failures o) (Answers call)
    unfolding unless_off
    unless_off-Answers (some name) = refuse-Answers (off_text h t call name)
    unless_off-Answers none =
        unless_exhausted-Answers (failures_of (build_tool_call_key call) failures)

    pub handle_real_tool_call-Answers :
        Obeys steady sound (handle_real_tool_call h t call messages failures) (Answers call)
    unfolding handle_real_tool_call
    handle_real_tool_call-Answers =
        shown_first (tool_call_started call.id call.name (truncate_for_progress call.input)) _
          (Answers call) (unless_off-Answers (switched_off t.flags (get_tool_definition call.name)))
          (λ _. tt)
