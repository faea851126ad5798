-- ===== src/Tools.antt =====
-- The static registry of tools (src/tools/registry.ts).
pub mod Definition
pub mod Personal
pub mod Work
pub mod Registry
