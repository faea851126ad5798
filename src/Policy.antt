-- ===== src/Policy.antt =====
-- The one gate that decides how a tool call is supervised (src/hitl-policy and src/hitl/classifier.ts).
pub mod Decision
pub mod Relaxing
pub mod Floor
