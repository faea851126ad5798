-- ===== src/Audit.antt =====
-- The audit log (src/audit): the hash chain, the service that appends to it and its verification.
pub mod Chain
pub mod Jobs
pub mod Service
pub mod Integrity
