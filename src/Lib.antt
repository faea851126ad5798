-- ===== src/Lib.antt =====
-- Jin Core is a personal assistant whose language model calls tools. What it may do alone and what waits
-- for its owner is decided by a few services over one database, and these are modelled here.
--
-- The parts and their files (paths from the repository's root):
--   Tools       src/tools/registry.ts: the tools with their static level of supervision.
--   Hitl        src/hitl: the levels (types.ts), the timing of approvals (dual-confirm.logic.ts,
--               timeout.logic.ts), the rows that wait (Pending), the service that creates, approves,
--               claims and removes them (dual-confirm.service.ts), the executors
--               (tool-executor.registry.ts), the execution and the rejection of an approval
--               (approval-execution.service.ts) and the hourly sweep (timeout.service.ts).
--   Audit       src/audit: the hash chain (hash-chain.ts), the appends (audit.service.ts) and the daily
--               verification with its lock (chain-verification.service.ts).
--   Autonomy    src/autonomy: the modes, the rule of relaxation, changes, expiry and the emergency brake.
--   Flags       src/feature-flags: the overrides of a tool's level.
--   Policy      src/hitl/classifier.ts and src/hitl-policy: the gate that decides the level of a call.
--   Orchestrator
--               src/agent/orchestrator.logic.ts and the loop over batches of orchestrator.service.ts.
--   ModelProvider
--               src/model-provider: the selection of a model (router.logic.ts), the failover
--               (failover.service.ts) and the router (router.service.ts).
--   Budget      src/budget: the tables, the limits (budget.logic.ts, kill-switch.logic.ts, budget-time.ts),
--               the price of a call (cost.ts), the check before a call and the record behind it
--               (budget.service.ts), the kill switch, the guarded router and the alerts. Ledger is the
--               abstract view: the list of the calls that were paid.
--   Security    src/security/injection-sanitizer.ts: escapes, wrapping and the sources that a history cites.
--   Agent       src/agent: the plan (agent.logic.ts), the calls of tools and the loop of a turn
--               (agent.service.ts), the compaction of its history (history-compaction.logic.ts and
--               history-compaction.service.ts). A turn asks the guarded router for each answer, the gate of
--               Policy for each call, and Hitl for what has to wait.
--   Terminal    src/terminal: the line that the owner types, byte by byte, and the steps that are forwarded
--               (pty-input-gate.ts), and their way to the shell behind the audit of each line
--               (terminal-pty.service.ts).
--   Runtime     how the services run, and the tables of src/db/schema.ts that they use.
--   Pool        many calls at once, under any executors that keep the discipline of Pool.Services: those of
--               the integrations, and the two that the repository registers itself (Pool.Internal).
--   Approval    one approval in detail. Examples: concrete runs.
--
-- How code becomes a definition. An async method is a program (Runtime.Program): it asks questions, one for
-- each await of something outside the process (a statement of SQL, a transaction, the clock, a UUID, an
-- event, an executor's side effect), and continues with the answer, a value or a rejection; try and catch,
-- throw and the order of the awaits are kept. A method of the source has the same name here in snake case.
-- Where a method tests a value that it has just read, the rest stands in a helper of its own, by clauses on
-- that value. Logging is left out. Runtime.World has the tables and the effect of each question; a question
-- can be answered, fail without effect, or take effect and lose its answer, and `run` plays a program under a
-- script of such outcomes. Runtime.Monitor says what a program asks, for any answers at all. Pool.Interleaving
-- has any number of calls in flight, answered question by question, lost with their process, or delayed.
--
-- What stands for code that is not the repository's: `Codec` (SHA-256, JSON.stringify, toISOString) and
-- `Host` (hashes of payloads, UUIDs, nonces, the result of a tool, the answers and the streams of the
-- vendors' models, error messages, the tests of zod, the text of a date). `Agent.consolidate` stands for
-- the memory, `Decoder` for Node's StringDecoder, and the terminal's `redact` for the patterns of
-- redact-secrets.ts. A listener of progress is an event. The ratios and averages of the budget, doubles
-- in the source, are exact fractions, and money counts in millionths of a dollar as the column does; the
-- time zone is a whole number of hours west of Greenwich. A rejected upsert of a sum that its column
-- cannot hold changes nothing. One SQL statement or transaction is atomic, as PostgreSQL promises. Times
-- are whole milliseconds since the epoch, hours are whole numbers. A tool whose promise is rejected is
-- taken not to have run.
--
-- `record_approval` runs on fuel: it calls itself once after a lost race; `approval_fuel` is 2, since after
-- a lost race the first approval is set. Approval.Among plays a call with others in between. The
-- loops of the orchestrator (`chunks`, `run_batches`) run on fuel too; as many rounds as items, and one more
-- than pending tickets, are enough. `Promise.all` over a chunk is taken as one turn after the other, since
-- each turn writes only its own ticket. The loop of the agent's turn recurses on the iterations that are
-- left, which the source bounds by its configuration.
--
-- Not modelled: HTTP controllers, the Telegram bot, push notifications, the clients of Google, Canvas,
-- MCP and the executor and of the vendors' models (input and output), the parse of YAML files
-- (libraries), the paged read of the log for a view; and, of the program's own logic, the memory, the
-- creation and the reconciliation of the orchestrator's runs, the relay, the previews, the snapshots, the
-- output of the terminal and the rate limit.

pub mod Base
pub mod Tools
pub mod ModelProvider
pub mod Budget
pub mod Security
pub mod Agent
pub mod Terminal
pub mod Hitl
pub mod Audit
pub mod Autonomy
pub mod Runtime
pub mod Flags
pub mod Policy
pub mod Orchestrator
pub mod Pool
pub mod Approval
pub mod Examples
