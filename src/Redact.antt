-- ===== src/Redact.antt =====
-- internal/redact/redact.go: placeholders and what stands for them.
pub mod Search
pub mod Placeholder
pub mod Words
pub mod Candidates
pub mod Engine
pub mod Undone
