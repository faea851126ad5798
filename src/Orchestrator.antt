-- ===== src/Orchestrator.antt =====
-- The orchestrator of sub-agents (src/agent/orchestrator.logic.ts and orchestrator.service.ts).
pub mod Board
pub mod Logic
pub mod Batches
pub mod Ends
