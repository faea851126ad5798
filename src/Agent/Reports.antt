-- ===== src/Agent/Reports.antt =====
-- The parts of `handleRealToolCall` around the run of a tool: they run none and approve nothing.
use jin_core.Security.Sanitizer.{wrap_untrusted_content}
use jin_core.Approval.NeverRuns.{is_approval}
use jin_core.Audit.Service.{append_row, record_tool_call}
use jin_core.Runtime.Always.{Asks-query, Asks-bind, Asks}
use jin_core.Hitl.DualConfirm.{CreatePendingApprovalInput, create_pending_approval}
use jin_core.ModelProvider.Types.{ModelMessage, ModelToolCall}
use jin_core.Agent.Types.{success, deferred, tool_call_finished, error, CallOutcome, AgentProgress}
use jin_core.Runtime.Program.{
  action_notified, agent_progress, err, query, emit, ok, ret, when, settle, ◌>>◌, Error, Prog,
  Answer,
}
use jin_core.Runtime.World.{Host}
use jin_core.Agent.Calls.{
  Turn, Failures, progress, finish, defer, pending_input, deferred_text, write_down, tell_owner,
  hand_over, failed_call, failure_text, refuse, executed_status, relaxed_summary,
}
use jin_core.Agent.Gate.{Neutral, record_tool_call-Neutral}
use jin_core.Base.{
  ◌≡◌, inl, inr, refl, Bool, true, false, Option, none, some, List, String, Bool-cases,
}
use jin_core.Hitl.Levels.{notify, PendingLevel, is_level, HitlDecision, HitlLevel}

module _ (h : Host) (t : Turn) where
  when-Neutral : (b : Bool) (p : Prog (Unit {0})) → Asks Neutral p → Asks Neutral (when b p)
  when-Neutral true p d = d
  when-Neutral false p d = tt

  pub progress-Neutral : (p : AgentProgress) → Asks Neutral (progress h t p)
  unfolding progress
  progress-Neutral p = when-Neutral t.live _ (Asks-query Neutral (emit (agent_progress p)) tt)

  pub finish-Neutral :
      (call : ModelToolCall) (outcome : CallOutcome) (summary : Option String)
      → Asks Neutral (finish h t call outcome summary)
  unfolding finish
  finish-Neutral call outcome summary =
      progress-Neutral (tool_call_finished call.id call.name outcome summary)

  create_pending_approval-Neutral :
      (i : CreatePendingApprovalInput) → Asks Neutral (create_pending_approval i)
  unfolding create_pending_approval record_tool_call append_row
  create_pending_approval-Neutral i = (
    tt,
    elim [
      | ok _ ↦ (
        tt,
        elim [
          | ok true ↦ tt
          | ok false ↦ (refl, elim [ ok _ ↦ (tt, elim [ ok _ ↦ tt | err _ ↦ tt ]) | err _ ↦ tt ])
          | err _ ↦ tt
        ],
      )
      | err _ ↦ tt
    ],
  )

  settle-Neutral : {A : Type 0} (a : Answer A) → Asks Neutral (settle a)
  settle-Neutral (ok a) = tt
  settle-Neutral (err e) = tt

  module _ (call : ModelToolCall) where
    -- a report, and a value
    told :
        {A : Type 0} (outcome : CallOutcome) (summary : Option String) (a : A)
        → Asks Neutral (finish h t call outcome summary >> ret a)
    told outcome summary a =
        Asks-bind Neutral (finish h t call outcome summary) (λ _. ret a)
          (finish-Neutral call outcome summary) (λ _. tt)

    pub defer-Neutral :
        (messages : List ModelMessage) (failures : Failures) (d : HitlDecision)
        (level : PendingLevel)
        → Asks Neutral (defer h t call messages failures d level)
    unfolding defer
    defer-Neutral messages failures d level =
        Asks-bind Neutral (create_pending_approval (pending_input h t call messages d level)) _
          (create_pending_approval-Neutral (pending_input h t call messages d level))
          (λ _. told deferred (some (deferred_text h t d)) _)

    executed_status_lem : (d : HitlDecision) → is_approval (executed_status h t d) ≡ false
    executed_status_lem d = elim (Bool-cases (is_level d.level HitlLevel.auto)) [
      | inl e ↦ rw e refl
      | inr e ↦ rw e refl
    ]

    pub write_down-Neutral : (d : HitlDecision) → Asks Neutral (write_down h t call d)
    unfolding write_down
    write_down-Neutral d =
        record_tool_call-Neutral d.request_id t.actor call.name (h.codec.sha256 call.input)
          (relaxed_summary h t call d.relaxed_by) none (executed_status h t d)
          (executed_status_lem d)

    pub tell_owner-Neutral : (d : HitlDecision) → Asks Neutral (tell_owner h t call d)
    unfolding tell_owner
    tell_owner-Neutral d =
        when-Neutral (is_level d.level notify)
          (query (emit (action_notified d.request_id call.name t.actor d.relaxed_by)))
          (Asks-query Neutral (emit (action_notified d.request_id call.name t.actor d.relaxed_by))
            tt)

    pub hand_over-Neutral :
        (failures : Failures) (result : String) → Asks Neutral (hand_over h t call failures result)
    unfolding hand_over
    hand_over-Neutral failures result =
        Asks-bind Neutral (settle (wrap_untrusted_content result call.name t.nonce)) _
          (settle-Neutral (wrap_untrusted_content result call.name t.nonce))
          (λ _. told success none _)

    pub failed_call-Neutral :
        (failures : Failures) (e : Error) → Asks Neutral (failed_call h t call failures e)
    unfolding failed_call
    failed_call-Neutral failures e = told error (some (failure_text h t call e)) _

    pub refuse-Neutral :
        (failures : Failures) (summary : String) → Asks Neutral (refuse h t call failures summary)
    unfolding refuse
    refuse-Neutral failures summary = told error (some summary) _
