-- ===== src/Security.antt =====
-- What protects a model from the text that it reads (src/security/injection-sanitizer.ts).
pub mod Sanitizer
pub mod Escaped
pub mod Unescaped
pub mod Wrapped
