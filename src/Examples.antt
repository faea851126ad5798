-- ===== src/Examples.antt =====
-- The theorems at work on concrete requests, logs and modes.
pub mod Data
pub mod Approvals
pub mod Logs
pub mod Modes
pub mod Runs
pub mod Turns
pub mod Budgets
pub mod Texts
pub mod Keys
