-- ===== src/Agent/Paused.antt =====
-- The kill switch of the budget against a turn of the agent.
use jin_core.Runtime.Monitor.{Obeys-of_free, Monitor, Obeys}
use jin_core.Runtime.Steps.{run_local}
use mathlib.Core.Path.{subst}
use jin_core.Agent.Types.{text_delta}
use jin_core.ModelProvider.Router.{Listener}
use jin_core.Agent.Calls.{Turn}
use jin_core.Agent.Turn.{
  first_state, build_tool_declarations, build_system_prompt, turn_of, call_of, TurnState, run_turn,
  AgentTurnInput, ask_model, turn_loop, Agent,
}
use jin_core.ModelProvider.Types.{ModelToolDeclaration, ModelCompletionResponse, SelectModelHints}
use jin_core.Budget.Guarded.{guarded, Call, Guard, unless_paused}
use jin_core.Budget.KillSwitch.{is_active}
use jin_core.Runtime.Program.{
  usage, Reply, ok, Error, Op, clock, random_nonce, agent_progress, ◌>>=◌, Prog, database_error,
  kill_switch_active, err, Answer,
}
use jin_core.Budget.Tables.{kill_switch_select, usage_step, KillSwitchRow}
use jin_core.Runtime.World.{later_outcomes, Outcome, perform, respond, run, World, Host}
use jin_core.Budget.Guarded
use jin_core.ModelProvider.Router
use jin_core.Base.{
  none, Option, ◌∙◌, sym, false, if◌then◌else◌, zero, Bool, arith, ◌<◌, ℕ, String, [], inr, ◌∷◌,
  inl, List, ◌⊎◌, true, some, ◌≡◌, suc, refl,
}

-- the world when a turn has drawn its nonce
abbrev pub nonce_drawn : World → World
nonce_drawn w = record w { uuids = suc w.uuids }

-- how a call ends that may ask no model
abbrev pub Paused : {A : Type 0} → Answer A × World → World → Type 0
Paused r v = (r ≡ (err kill_switch_active, v)) ⊎ (r ≡ (err database_error, v))

module _ (h : Host) (w : World) (row : KillSwitchRow) (stored : w.usage.kill_switch ≡ some row)
    (on : row.active ≡ true) where
  -- the question for the switch comes first, and ends it
  guarded-Paused :
      {A : Type 0} (script : List Outcome) (g : Guard) (c : Call)
      (call : SelectModelHints → Prog ModelCompletionResponse)
      (f : ModelCompletionResponse → Prog A)
      → Paused (run h script (guarded h g c call >>= f) w) w
  unfolding run respond perform usage_step is_active unless_paused
  guarded-Paused [] g c call f = inl (rw (stored, on) refl)
  guarded-Paused (Outcome.done ∷ script) g c call f = inl (rw (stored, on) refl)
  guarded-Paused (Outcome.failed ∷ script) g c call f = inr refl
  guarded-Paused (Outcome.lost ∷ script) g c call f = inr refl

  asked-Paused :
      {A : Type 0} (script : List Outcome) (a : Agent) (t : Turn) (iteration : ℕ) (c : Call)
      (f : ModelCompletionResponse → Prog A)
      → Paused (run h script (ask_model h a t iteration c >>= f) w) w
  unfolding ask_model Guarded.complete Guarded.complete_stream
  asked-Paused {A} script a t iteration c f = asked t.live
    where
      on_delta : Listener
      on_delta d = agent_progress (text_delta iteration d)

      asked :
          (live : Bool)
          → Paused {A = A}
              (run h script
                ((if live
                    then Guarded.complete_stream h a.guard c on_delta
                    else Guarded.complete h a.guard c)
                  >>= f)
                w)
              w
      asked true =
          guarded-Paused script a.guard c
            (Router.complete_stream a.guard.router c.task_profile c.request on_delta) f
      asked false =
          guarded-Paused script a.guard c (Router.complete a.guard.router c.task_profile c.request)
            f

  loop-Paused :
      (script : List Outcome) (a : Agent) (t : Turn) (prompt : String)
      (tools : List ModelToolDeclaration) (left used : ℕ) (s : TurnState)
      → 0 < left
      → Paused (run h script (turn_loop h a t prompt tools left used s) w) w
  unfolding turn_loop
  loop-Paused script a t prompt tools zero used s some_left = absurd (omega arith)
  loop-Paused script a t prompt tools (suc left) used s some_left =
      asked-Paused script a t (suc used) (call_of h a t prompt tools s) _

-- what a call has heard of the kill switch
pub data Switch : Type 0 where
  -- not yet asked for, inactive or never written, active
  unread off on : Switch
  rejected : Error → Switch

abbrev of_flag : Bool → Switch
of_flag true = on
of_flag false = off

abbrev hear : Option KillSwitchRow → Switch
hear none = off
hear (some row) = of_flag row.active

-- until the switch is known to be off, only the nonce, the clock and the switch are asked for, and nothing
-- at all once it is on or a question was rejected
abbrev MayAsk : Switch → Op → Type 0
MayAsk unread random_nonce = Unit
MayAsk unread clock = Unit
MayAsk unread (usage kill_switch_select) = Unit
MayAsk off _ = Unit
MayAsk _ _ = ⊥

abbrev next_switch : Switch → (o : Op) → Answer (Reply o) → Switch
next_switch unread (usage kill_switch_select) (ok row) = hear row
next_switch unread o (err e) = rejected e
next_switch s o a = s

abbrev pub switch_first : Monitor
switch_first = record { State = Switch; May = MayAsk; move = λ s o a. next_switch s o a }

-- how the program ends, by what it heard last: it has heard of the switch
abbrev pub Halted : {A : Type 0} → Switch → Answer A → Type 0
Halted on a = a ≡ err kill_switch_active
Halted (rejected e) a = a ≡ err e
Halted off _ = Unit
Halted unread _ = ⊥

off_free : {A : Type 0} (p : Prog A) → Obeys switch_first off p Halted
off_free {A} p = Obeys-of_free switch_first (λ s. s ≡ off) may stay p Halted off ended refl
  where
    may : (s : Switch) (o : Op) → s ≡ off → MayAsk s o
    may off o e = tt
    may s o e = absurd (cc)

    stay : (s : Switch) (o : Op) (a : Answer (Reply o)) → s ≡ off → next_switch s o a ≡ off
    stay off o a e = refl
    stay s o a e = absurd (cc)

    ended : (s : Switch) (a : Answer A) → s ≡ off → Halted s a
    ended off a e = tt
    ended s a e = absurd (cc)

module _ (h : Host) where
  guarded-Halted :
      {A : Type 0} (g : Guard) (c : Call) (call : SelectModelHints → Prog ModelCompletionResponse)
      (f : ModelCompletionResponse → Prog A)
      → Obeys switch_first unread (guarded h g c call >>= f) Halted
  unfolding is_active unless_paused
  guarded-Halted {A} g c call f =
      (tt, elim [ err e ↦ refl | ok none ↦ off_free _ | ok (some row) ↦ by_flag row.active ])
    where
      by_flag :
          (b : Bool)
          → Obeys switch_first (of_flag b) (unless_paused h g c call b >>= f) (Halted {A = A})
      by_flag true = refl
      by_flag false = off_free _

  asked-Halted :
      {A : Type 0} (a : Agent) (t : Turn) (iteration : ℕ) (c : Call)
      (f : ModelCompletionResponse → Prog A)
      → Obeys switch_first unread (ask_model h a t iteration c >>= f) Halted
  unfolding ask_model Guarded.complete Guarded.complete_stream
  asked-Halted {A} a t iteration c f = asked t.live
    where
      on_delta : Listener
      on_delta d = agent_progress (text_delta iteration d)

      asked :
          (live : Bool)
          → Obeys switch_first unread
              ((if live
                  then Guarded.complete_stream h a.guard c on_delta
                  else Guarded.complete h a.guard c)
                >>= f)
              (Halted {A = A})
      asked true =
          guarded-Halted a.guard c
            (Router.complete_stream a.guard.router c.task_profile c.request on_delta) f
      asked false =
          guarded-Halted a.guard c (Router.complete a.guard.router c.task_profile c.request) f

  loop-Halted :
      (a : Agent) (t : Turn) (prompt : String) (tools : List ModelToolDeclaration) (left used : ℕ)
      (s : TurnState)
      → 0 < left
      → Obeys switch_first unread (turn_loop h a t prompt tools left used s) Halted
  unfolding turn_loop
  loop-Halted a t prompt tools zero used s some_left = absurd (omega arith)
  loop-Halted a t prompt tools (suc left) used s some_left =
      asked-Halted a t (suc used) (call_of h a t prompt tools s) _

  run_turn-Halted :
      (a : Agent) (i : AgentTurnInput)
      → 0 < a.config.max_iterations_per_turn
      → Obeys switch_first unread (run_turn h a i) Halted
  unfolding run_turn
  run_turn-Halted a i some_left = (
    tt,
    elim [
      | err e ↦ refl
      | ok nonce ↦ (
        tt,
        elim [
          | err e ↦ refl
          | ok now ↦
              loop-Halted a (turn_of h a i nonce) (build_system_prompt h a nonce now)
                (build_tool_declarations i.allowed_tools) a.config.max_iterations_per_turn 0
                (first_state h a i) some_left
        ],
      )
    ],
  )

module _ (h : Host) (script : List Outcome) (a : Agent) (i : AgentTurnInput) (w : World)
    (row : KillSwitchRow) where
  -- A turn of an agent with at least one iteration asks for nothing but its nonce, the clock and the kill
  -- switch before it knows that the switch is off, whatever it is answered; when the switch is on, or one of
  -- these questions is rejected, it asks nothing more and rejects with that error. So in a world whose
  -- switch is active it rejects, with the error of the kill switch or with the database's, and leaves the
  -- world as it was but for the nonce that it drew.
  pub run_turn-Paused :
      w.usage.kill_switch ≡ some row
      → row.active ≡ true
      → 0 < a.config.max_iterations_per_turn
      → Obeys switch_first unread (run_turn h a i) Halted
        × Paused (run h script (run_turn h a i) w) (nonce_drawn w)
  unfolding run_turn perform
  run_turn-Paused stored active some_left = (
    run_turn-Halted h a i some_left,
    subst (λ r. Paused r (nonce_drawn w))
        (sym (
          run_local h script random_nonce _ w refl
          ∙ run_local h (later_outcomes script) clock _ (nonce_drawn w) refl))
        (loop-Paused h (nonce_drawn w) row stored active (later_outcomes (later_outcomes script)) a
          (turn_of h a i (h.nonce w.uuids)) (build_system_prompt h a (h.nonce w.uuids) w.now)
          (build_tool_declarations i.allowed_tools) a.config.max_iterations_per_turn 0
          (first_state h a i) some_left),
  )
