-- ===== src/Terminal.antt =====
-- The owner's terminal (src/terminal): what is typed into it.
pub mod Gate
pub mod Chunks
pub mod Session
pub mod Recorded
