-- ===== src/Pool.antt =====
-- Many calls at once: the programs of the services interleaved, question by question.
pub mod Discipline
pub mod Tokens
pub mod Effects
pub mod Services
pub mod Calls
pub mod Background
pub mod Interleaving
pub mod AtMostOnce
pub mod Sequential
pub mod Internal
