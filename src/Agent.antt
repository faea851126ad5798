-- ===== src/Agent.antt =====
-- The agent's turn (src/agent/agent.service.ts): model, tools, plan, and the history it leaves.
pub mod Types
pub mod Plan
pub mod Calls
pub mod Compaction
pub mod Turn
pub mod Gate
pub mod Reports
pub mod Unattended
pub mod TurnGate
pub mod Paused
pub mod Bounds
pub mod Conversation
pub mod Results
pub mod Cut
