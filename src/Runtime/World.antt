-- ===== src/Runtime/World.antt =====
-- The world that the programs ask: the database's tables, the clock, the events that were emitted and
-- the tools that ran. `perform` is the effect of one question, `respond` adds the ways in which it can
-- fail, and `run` runs a program alone.
use jin_core.Base.{
  Ratio, length, ◌+◌, inr, inl, Bool-cases, ℕ, suc, String, Bool, true, false, Option, none, some,
  List, [], ◌∷◌, ◌++◌, str_eq, if◌then◌else◌, is_some, find, last?, head?, any,
}
use jin_core.Hitl.Payload.{Payload}
use jin_core.Hitl.Pending.{
  Row, Table, update_where, returning_where, delete_where, select, insert, has_id, awaits_first,
  approve_first, is_open, claim_row, release_row, escalate_row, is_idle_or_stuck,
}
use jin_core.Audit.Chain.{Codec, Entry, HashableRow, AuditRow, genesis_hash, compute_row_hash}
use jin_core.Autonomy.Mode.{AutonomyMode, ModeRow}
use jin_core.ModelProvider.Types.{
  ModelCompletionRequest, ModelCompletionResponse, ModelMessageContentBlock, ModelToolDeclaration,
}
use jin_core.Budget.Tables.{Usage, usage_step, session_get, session_set}
use jin_core.Agent.Types.{StepUpdate}
use jin_core.Autonomy.Counter.{write_row, bump, bumped_count}
use jin_core.Runtime.Program.{
  terminal_upstream_error, pty_input, Error, database_error, tool_error, Answer, ok, err, Event,
  OverrideRow, Op, clock, random_uuid, emit, invoke, pending_insert, pending_all, pending_select,
  pending_first_approval, pending_claim, pending_release, pending_escalate, pending_remove,
  pending_remove_idle, audit_locked, audit_append, audit_all, chain_lock_write, mode_select,
  mode_update, mode_bump, override_select, override_upsert, random_nonce, sleep, usage,
  model_complete, model_stream, Stream, provider_error, Reply, Prog, ret, throw, ask,
}

-- What the repository does not implement: the digest and JSON, the UUIDs, what a tool returns, and
-- the message of an error.
pub record Host : Type 0 where
  pub codec : Codec
  pub hash_of : Payload → String
  pub uuid : ℕ → String
  pub tool_result : String → Option Payload → String
  pub message_of : Error → String
  pub hash_of_mode : AutonomyMode → ℕ → String  -- of `{ mode, hours }`
  pub is_uuid : String → Bool
  -- the vendors' models, by the number of the call
  pub completion : ℕ → String → ModelCompletionRequest → ModelCompletionResponse
  pub streaming : ℕ → String → ModelCompletionRequest → Stream
  pub json_of_blocks : List ModelMessageContentBlock → String
  pub json_of_tools : List ModelToolDeclaration → String
  pub nonce : ℕ → String
  pub local_time : ℕ → String
  pub time_zone : String
  -- Zod's reading of the arguments of the two tools of the plan
  pub steps_of : String → Option (List String)
  pub step_update_of : String → Option StepUpdate
  pub issue_of : String → String
  pub number_text : Ratio → String
  pub hours_west : ℕ  -- the process's time zone, in hours west of Greenwich

pub record Invocation : Type 0 where
  pub tool : String
  pub payload : Option Payload
  pub request : String

pub record World : Type 0 where
  pub now : ℕ
  pub uuids : ℕ  -- how many random texts were drawn
  pub pending : Table
  pub audit : List AuditRow  -- oldest first
  pub audit_ids : ℕ  -- the serial's last value
  pub chain_locked : Bool
  pub mode_row : Option ModeRow
  pub overrides : List OverrideRow
  pub events : List Event  -- newest first
  pub invoked : List Invocation  -- newest first; the ones that returned
  pub usage : Usage
  pub model_calls : List String  -- newest first; the model of each call that reached its vendor
  pub typed : List (List ℕ)  -- newest first; what reached the terminals

abbrev pub for_tool : String → OverrideRow → Bool
for_tool tool r = str_eq r.tool_name tool

-- `INSERT ... ON CONFLICT (tool_name) DO UPDATE`
unfoldable pub upsert_override : OverrideRow → List OverrideRow → List OverrideRow
upsert_override r [] = r ∷ []
upsert_override r (x ∷ xs) = if for_tool r.tool_name x then r ∷ xs else x ∷ upsert_override r xs

-- the hash of the newest row, or the genesis hash
abbrev pub last_hash : List AuditRow → String
last_hash rows = elim (last? rows) [ none ↦ genesis_hash | some r ↦ r.current_hash ]

-- a refused statement is an error and changes nothing
abbrev pub answer_of : {A : Type 0} → Option (A × Usage) → Answer A
answer_of none = err database_error
answer_of (some (reply, _)) = ok reply

abbrev pub or_before : {A : Type 0} → Usage → Option (A × Usage) → Usage
or_before u none = u
or_before u (some (_, v)) = v

module _ (h : Host) where
  -- the transaction of `appendRow`: it reads the newest hash and inserts the next row
  unfoldable pub next_audit_row : Entry → World → AuditRow
  next_audit_row e w =
      let content : HashableRow = record { entry = e; timestamp = w.now } in
      let prev = last_hash w.audit in
      record {
        id = suc w.audit_ids;
        content = content;
        prev_hash = prev;
        current_hash = compute_row_hash h.codec prev content;
      }

  unfoldable pub perform : (o : Op) → World → Answer (Reply o) × World
  unfolding next_audit_row
  perform clock w = (ok w.now, w)
  perform random_uuid w = (ok (h.uuid w.uuids), record w { uuids = suc w.uuids })
  perform random_nonce w = (ok (h.nonce w.uuids), record w { uuids = suc w.uuids })
  perform (emit e) w = (ok tt, record w { events = e ∷ w.events })
  perform (invoke tool payload rid) w = (
    ok (h.tool_result tool payload),
    record w { invoked = (record { tool = tool; payload = payload; request = rid }) ∷ w.invoked },
  )
  perform (pending_insert r) w = elim (insert (record r { created_at = w.now }) w.pending) [
    | none ↦ (err database_error, w)
    | some t ↦ (ok tt, record w { pending = t })
  ]
  perform pending_all w = (ok w.pending, w)
  perform (pending_select rid) w = (ok (select rid w.pending), w)
  perform (pending_first_approval rid approver now available) w = (
    ok (
        is_some (
          head?
            (returning_where (awaits_first rid) (approve_first approver now available) w.pending))),
    record w {
      pending = update_where (awaits_first rid) (approve_first approver now available) w.pending;
    },
  )
  perform (pending_claim rid now) w = (
    ok (head? (returning_where (is_open rid) (claim_row now) w.pending)),
    record w { pending = update_where (is_open rid) (claim_row now) w.pending },
  )
  perform (pending_release rid e) w =
      (ok tt, record w { pending = update_where (has_id rid) (release_row e) w.pending })
  perform (pending_escalate rid now) w =
      (ok tt, record w { pending = update_where (has_id rid) (escalate_row now) w.pending })
  perform (pending_remove rid) w =
      (ok tt, record w { pending = delete_where (has_id rid) w.pending })
  perform (pending_remove_idle rid stuck_before) w = (
    ok (any (is_idle_or_stuck rid stuck_before) w.pending),
    record w { pending = delete_where (is_idle_or_stuck rid stuck_before) w.pending },
  )
  perform audit_locked w = (ok w.chain_locked, w)
  perform (audit_append e) w =
      let row = next_audit_row e w in
      (ok row, record w { audit = w.audit ++ row ∷ []; audit_ids = suc w.audit_ids })
  perform audit_all w = (ok w.audit, w)
  perform (chain_lock_write locked) w = (ok tt, record w { chain_locked = locked })
  perform mode_select w = (ok w.mode_row, w)
  perform (mode_update r) w = (ok tt, record w { mode_row = write_row r w.mode_row })
  perform mode_bump w =
      let row = bump w.now w.mode_row in (ok (bumped_count row), record w { mode_row = row })
  perform (override_select tool) w = (ok (find (for_tool tool) w.overrides), w)
  perform (sleep ms) w = (ok tt, record w { now = w.now + ms })
  perform (usage o) w =
      let step = usage_step o w.usage in
      (answer_of step, record w { usage = or_before w.usage step })
  perform (model_complete model request) w = (
    ok (h.completion (length w.model_calls) model request),
    record w { model_calls = model ∷ w.model_calls },
  )
  perform (model_stream model request) w = (
    ok (h.streaming (length w.model_calls) model request),
    record w { model_calls = model ∷ w.model_calls },
  )
  perform (pty_input workspace pty bytes) w = (ok tt, record w { typed = bytes ∷ w.typed })
  perform (override_upsert r) w = (ok tt, record w { overrides = upsert_override r w.overrides })

-- how one question ends: it is answered, it is rejected with no effect, or the effect is made and the
-- answer is lost on the way
pub data Outcome : Type 0 where
  done failed lost : Outcome

-- the clock, the UUIDs, the event bus and the map of the sessions are local and cannot fail
abbrev pub is_local : Op → Bool
is_local clock = true
is_local random_uuid = true
is_local random_nonce = true
is_local (emit _) = true
is_local (sleep _) = true
is_local (usage (session_get _)) = true
is_local (usage (session_set _ _)) = true
is_local _ = false

abbrev pub fault : Op → Error
fault (invoke tool _ _) = tool_error tool
fault (model_complete model _) = provider_error model
fault (model_stream model _) = provider_error model
fault (pty_input _ _ _) = terminal_upstream_error
fault _ = database_error

-- a tool whose promise is rejected is taken not to have run
abbrev pub is_invoke : Op → Bool
is_invoke (invoke _ _ _) = true
is_invoke _ = false

-- A script lists the outcomes of the questions; behind its end everything is answered.
abbrev pub first_outcome : List Outcome → Outcome
first_outcome [] = done
first_outcome (x ∷ _) = x

abbrev pub later_outcomes : List Outcome → List Outcome
later_outcomes [] = []
later_outcomes (_ ∷ xs) = xs

module _ (h : Host) where
  unfoldable pub respond : Outcome → (o : Op) → World → Answer (Reply o) × World
  respond done o w = perform h o w
  respond failed o w = if is_local o then perform h o w else (err (fault o), w)
  respond lost o w =
      if is_local o
      then perform h o w
      else if is_invoke o
      then (err (fault o), w)
      else (err (fault o), (perform h o w).1)

  unfoldable pub run : {A : Type 0} → List Outcome → Prog A → World → Answer A × World
  run s (ret a) w = (ok a, w)
  run s (throw e) w = (err e, w)
  run s (ask o k) w = let (a, w') = respond (first_outcome s) o w in run (later_outcomes s) (k a) w'

  -- What holds of the world before a question and behind its answer holds however it ends.
  pub respond_keeps :
      (I : World → Type 0) (x : Outcome) (o : Op) (w : World)
      → I w
      → I (perform h o w).1
      → I (respond x o w).1
  unfolding respond
  respond_keeps I done o w before behind = behind
  respond_keeps I failed o w before behind = elim (Bool-cases (is_local o)) [
    | inl local ↦ rw local behind
    | inr remote ↦ rw remote before
  ]
  respond_keeps I lost o w before behind = elim (Bool-cases (is_local o)) [
    | inl local ↦ rw local behind
    | inr remote ↦ rw remote (elim (Bool-cases (is_invoke o)) [
      | inl tool ↦ rw tool before
      | inr statement ↦ rw statement behind
    ])
  ]

  -- An insertion changes at most the table of the approvals.
  pub pending_insert_keeps :
      (I : World → Type 0) (row : Row) (w : World)
      → I w
      → ((t : Table) → I (record w { pending = t }))
      → I (perform h (pending_insert row) w).1
  unfolding perform
  pending_insert_keeps I row w same other =
      elim (insert (record row { created_at = w.now }) w.pending)
        as (λ o.
          I
            (elim o as (λ _. Answer (Unit {0}) × World) [
              | none ↦ (err database_error, w)
              | some t ↦ (ok tt, record w { pending = t })
            ]).1) [ none ↦ same | some t ↦ other t ]
