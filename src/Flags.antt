-- ===== src/Flags.antt =====
-- Feature flags that are read again while the server runs (src/feature-flags).
pub mod Service
pub mod Floor
