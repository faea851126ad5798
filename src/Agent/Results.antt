-- ===== src/Agent/Results.antt =====
-- The results of a whole answer of the model: src/agent/agent.service.ts hands back one for each call.
use jin_core.Runtime.Monitor.{run_keeps, Obeys-bind, Obeys-weaken, Then, Obeys}
use jin_core.Runtime.Program.{Event, emit, ret, err, Op, ok, Answer}
use jin_core.Agent.Calls.{handle_real_tool_call, CallResult, Turn}
use jin_core.Agent.Types.{plan, StepUpdate, StepIndex, AgentPlan}
use jin_core.Agent.Conversation.{
  unsound_end, handle_real_tool_call-Answers, shown_first, Answers, next_local, unsound, sound,
  steady, Local, id_of,
}
use jin_core.Agent.Plan.{
  update_plan_step, read_update, stepped, declared, handle_declare_plan, handle_update_plan_step,
}
use jin_core.Agent.Turn.{
  update_plan_step_tool, declare_plan_tool, with_result, with_plan, handle_call, handle_calls,
  Batch, Agent,
}
use jin_core.Runtime.World.{run, perform, World, respond, Outcome, Host}
use jin_core.ModelProvider.Types.{ModelMessageContentBlock, ModelToolCall}
use mathlib.Core.List.{map-append, append_assoc, append-nil}
use jin_core.Base.{
  inr, inl, str_eq, Bool-cases, ap, ◌∙◌, sym, [], none, ◌∷◌, ◌++◌, some, ◌≡◌, String, map, Option,
  List, refl,
}

abbrev pub wanted : ModelToolCall → Option String
wanted call = some call.id

-- the results behind those of a batch, by the calls that they answer; the messages stay
abbrev pub Matched : List ModelToolCall → Batch → Batch → Type 0
Matched calls b b' =
    (map id_of b'.results ≡ map id_of b.results ++ map wanted calls)
    × (b'.state.messages ≡ b.state.messages)

abbrev Matches : List ModelToolCall → Batch → Local → Answer Batch → Type 0
Matches calls b unsound _ = Unit
Matches calls b sound (ok b') = Matched calls b b'
Matches calls b sound (err _) = ⊥

abbrev IsSound : Local → Type 0
IsSound sound = Unit
IsSound unsound = ⊥

-- the listener is local
emit_sound :
    (h : Host) (x : Outcome) (e : Event) (w : World)
    → IsSound (next_local sound (emit e) (respond h x (emit e) w).0)
unfolding respond perform
emit_sound h Outcome.done e w = tt
emit_sound h Outcome.failed e w = tt
emit_sound h Outcome.lost e w = tt

stays-IsSound :
    (h : Host) (x : Outcome) (s : Local) (o : Op) (w : World)
    → IsSound s
    → IsSound (next_local s o (respond h x o w).0)
stays-IsSound h x sound (emit e) w i = emit_sound h x e w
stays-IsSound h x sound o w i = tt
stays-IsSound h x unsound o w i = absurd i

module _ (h : Host) where
  declared_id : (call : ModelToolCall) → id_of (handle_declare_plan h call).1 ≡ some call.id
  unfolding handle_declare_plan
  declared_id call = by_steps (h.steps_of call.input)
    where
      by_steps : (o : Option (List String)) → id_of (declared h call o).1 ≡ some call.id
      by_steps none = refl
      by_steps (some steps) = refl

  updated_id :
      (call : ModelToolCall) (p : AgentPlan)
      → id_of (handle_update_plan_step h call p).1 ≡ some call.id
  unfolding handle_update_plan_step
  updated_id call p = by_update (h.step_update_of call.input)
    where
      by_answer :
          (i : StepIndex) (a : Answer AgentPlan) → id_of (stepped h call p i a).1 ≡ some call.id
      by_answer i (ok _) = refl
      by_answer i (err _) = refl

      by_update : (o : Option StepUpdate) → id_of (read_update h call p o).1 ≡ some call.id
      by_update none = refl
      by_update (some u) = by_answer u.step_index (update_plan_step p u.step_index u.status u.note)

  module _ (a : Agent) (t : Turn) where
    one_more :
        (call : ModelToolCall) (b : Batch) (block : ModelMessageContentBlock)
        → id_of block ≡ some call.id
        → map id_of (b.results ++ block ∷ []) ≡ map id_of b.results ++ map wanted (call ∷ [])
    one_more call b block same =
        map-append id_of b.results (block ∷ []) ∙ ap (λ o. map id_of b.results ++ o ∷ []) same

    with_plan-Matches :
        (call : ModelToolCall) (b : Batch) (p : AgentPlan × ModelMessageContentBlock)
        → id_of p.1 ≡ some call.id
        → Obeys steady sound (with_plan h a t b p) (Matches (call ∷ []) b)
    with_plan-Matches call b p same =
        shown_first h t call (plan p.0) _ (Matches (call ∷ []) b) (one_more call b p.1 same, refl)
          (λ _. tt)

    handle_call-Matches :
        (call : ModelToolCall) (b : Batch)
        → Obeys steady sound (handle_call h a t call b) (Matches (call ∷ []) b)
    unfolding handle_call
    handle_call-Matches call b = elim (Bool-cases (str_eq call.name declare_plan_tool)) [
      | inl e ↦ rw e (with_plan-Matches call b (handle_declare_plan h call) (declared_id call))
      | inr e ↦ elim (Bool-cases (str_eq call.name update_plan_step_tool)) [
        | inl f ↦
            rw (e, f)
              (with_plan-Matches call b (handle_update_plan_step h call b.state.plan)
                (updated_id call b.state.plan))
        | inr f ↦
            rw (e, f)
              (Obeys-bind steady (handle_real_tool_call h t call b.state.messages b.state.failures)
                _ (Matches (call ∷ []) b) sound
                (Obeys-weaken steady
                  (handle_real_tool_call h t call b.state.messages b.state.failures) (Answers call)
                  _ sound ended
                  (handle_real_tool_call-Answers h t call b.state.messages b.state.failures)))
      ]
    ]
      where
        ended :
            (s : Local) (r : Answer CallResult)
            → Answers call s r
            → Then steady (λ x. ret (with_result h a t b x)) (Matches (call ∷ []) b) s r
        ended sound (ok r) same = (one_more call b r.block same, refl)
        ended sound (err _) bad = absurd bad
        ended unsound (ok r) _ = tt
        ended unsound (err _) _ = tt

    handle_calls-Matches :
        (calls : List ModelToolCall) (b : Batch)
        → Obeys steady sound (handle_calls h a t calls b) (Matches calls b)
    unfolding handle_calls
    handle_calls-Matches [] b = (sym (append-nil (map id_of b.results)), refl)
    handle_calls-Matches (call ∷ calls) b =
        Obeys-bind steady (handle_call h a t call b) (λ c. handle_calls h a t calls c)
          (Matches (call ∷ calls) b) sound
          (Obeys-weaken steady (handle_call h a t call b) (Matches (call ∷ []) b) _ sound
            (ended (handle_calls-Matches calls)) (handle_call-Matches call b))
      where
        joined :
            (c : Batch)
            → Matched (call ∷ []) b c
            → (s : Local) (r : Answer Batch) → Matches calls c s r
            → Matches (call ∷ calls) b s r
        joined c (ids, kept) sound (ok d) (more, still) = (
          more
              ∙ ap (λ l. l ++ map wanted calls) ids
              ∙ append_assoc (map id_of b.results) (map wanted (call ∷ [])) (map wanted calls),
          still ∙ kept,
        )
        joined c _ sound (err _) bad = bad
        joined c _ unsound r _ = tt

        ended :
            ((c : Batch) → Obeys steady sound (handle_calls h a t calls c) (Matches calls c))
            → (s : Local) (r : Answer Batch) → Matches (call ∷ []) b s r
            → Then steady (λ c. handle_calls h a t calls c) (Matches (call ∷ calls) b) s r
        ended rest sound (ok c) one =
            Obeys-weaken steady (handle_calls h a t calls c) (Matches calls c)
              (Matches (call ∷ calls) b) sound (joined c one) (rest c)
        ended rest sound (err _) bad = absurd bad
        ended rest unsound (ok c) _ = unsound_end (handle_calls h a t calls c) _ (λ _. tt)
        ended rest unsound (err _) _ = tt

    finished :
        (calls : List ModelToolCall) (b : Batch) (s : Local) (r : Answer Batch)
        → IsSound s
        → Matches calls b s r
        → (b' : Batch) × (r ≡ ok b') × Matched calls b b'
    finished calls b sound (ok b') i m = (b', refl, m)
    finished calls b sound (err _) i m = absurd m
    finished calls b unsound r i m = absurd i

    -- The calls of an answer, under any failures of the database and the tools, are all handled: the batch
    -- ends with one result for each call, in the order of the calls, and leaves the messages before them.
    pub handle_calls_answers :
        (script : List Outcome) (calls : List ModelToolCall) (b : Batch) (w : World)
        → (b' : Batch) × ((run h script (handle_calls h a t calls b) w).0 ≡ ok b')
          × Matched calls b b'
    handle_calls_answers script calls b w =
        let r =
          run_keeps steady h (λ s _. IsSound s) (λ x s o v _ i. stays-IsSound h x s o v i) script
            (handle_calls h a t calls b) (Matches calls b) sound w (handle_calls-Matches calls b)
            tt in
        finished calls b r.0 (run h script (handle_calls h a t calls b) w).0 r.1 r.2
