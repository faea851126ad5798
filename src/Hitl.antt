-- ===== src/Hitl.antt =====
-- The human-in-the-loop cycle (src/hitl): levels, deadlines, the pending approvals and their table.
pub mod Levels
pub mod Timing
pub mod Payload
pub mod Pending
pub mod DualConfirm
pub mod Executors
pub mod Execution
pub mod Timeouts
