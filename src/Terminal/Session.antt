-- ===== src/Terminal/Session.antt =====
-- src/terminal/terminal-pty.service.ts: the keys of the owner, forwarded step by step behind the audit of
-- each line (`input` with `process` and `onInputFailure`). `redact` stands for redact-secrets.ts, whose
-- patterns are the engine's, and `command_hash` for the digest of the command's JSON.
use Prim.Native.String.{◌++◌ as ◌++ˢ◌}
use jin_core.Runtime.Program.{random_uuid, ◌>>=◌}
use jin_core.Agent.Calls.{first_units}
use jin_core.Audit.Chain.{auto, AuditRow}
use jin_core.Runtime.Program.{terminal_notice, emit, pty_input, ◌>>◌, query, ret, catch, Prog}
use jin_core.Audit.Service.{record_tool_call}
use jin_core.Terminal.Gate.{
  trim_end, PtyInputGate, trim_start, PtyInputStep, fresh_gate, Decoder, collapse, feed,
}
use jin_core.Base.{false, none, [], ◌∷◌, some, ℕ, Option, List, String}

pub record PtySession (d : Decoder) : Type 0 where
  pub pty_id : String
  pub workspace_id : String
  pub gate : PtyInputGate d

module _ (redact : String → String) where
  -- `auditPreview` with its 120 characters
  unfoldable pub audit_preview : String → String
  unfolding collapse trim_start trim_end first_units
  audit_preview line = first_units 120 (trim_end (trim_start (collapse false (redact line))))

  abbrev pub line_summary : String → Option String
  line_summary line = some ("terminal (interactiva): " ++ˢ audit_preview line)

module _ (redact : String → String) (command_hash : String → String → String) where
  unfoldable pub audit_line : String → String → Prog AuditRow
  unfolding record_tool_call
  audit_line workspace line = do
    rid ← query random_uuid
    record_tool_call rid "owner:terminal" "runTerminalCommand" (command_hash workspace line)
        (line_summary redact line) auto none

  module _ (workspace pty : String) where
    unfoldable pub forward_after : List ℕ → Option String → Prog (Unit {0})
    unfolding audit_line
    forward_after bytes none = query (pty_input workspace pty bytes)
    forward_after bytes (some line) =
        audit_line workspace line >> query (pty_input workspace pty bytes)

    unfoldable pub process : List PtyInputStep → Prog (Unit {0})
    unfolding forward_after
    process [] = ret tt
    process (s ∷ ss) = forward_after s.bytes s.line >> process ss

    -- Ctrl+C, whose failure is dropped, and the notice
    unfoldable pub on_input_failure : Prog (Unit {0})
    on_input_failure = do
      catch (query (pty_input workspace pty (3 ∷ []))) (λ _. ret tt)
      query (
          emit (
            terminal_notice "No se pudo registrar esa línea en el audit: no se envió al terminal."))

  -- one link of `inputChain`: the gate is fed at once, and reset by a failure
  unfoldable pub input_link : (d : Decoder) → PtySession d → List ℕ → Prog (PtyInputGate d)
  unfolding feed process on_input_failure fresh_gate
  input_link d session bytes =
      catch
        (process session.workspace_id session.pty_id (feed d session.gate bytes).0
          >> ret (feed d session.gate bytes).1)
        (λ _. on_input_failure session.workspace_id session.pty_id >> ret (fresh_gate d))
