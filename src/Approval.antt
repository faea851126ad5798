-- ===== src/Approval.antt =====
-- What the approval cycle guarantees of each call.
pub mod NeverRuns
pub mod Order
pub mod Protocol
pub mod FailClosed
pub mod Outcomes
pub mod Executes
pub mod Among
pub mod Fuel
