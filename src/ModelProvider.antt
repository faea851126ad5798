-- ===== src/ModelProvider.antt =====
-- The language models behind one door (src/model-provider): which one is called, and what follows a
-- failure.
pub mod Types
pub mod Select
pub mod Failover
pub mod Router
pub mod Asked
pub mod Commit
