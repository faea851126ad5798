-- ===== src/Budget.antt =====
-- What the model calls cost and when they stop (src/budget): limits, prices, and the kill switch.
pub mod Tables
pub mod Limits
pub mod Cost
pub mod Service
pub mod KillSwitch
pub mod Guarded
pub mod Alerts
pub mod Books
pub mod Priced
pub mod Counted
pub mod Ledger
pub mod Allowed
pub mod Represents
pub mod Refine
