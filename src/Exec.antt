-- ===== src/Exec.antt =====
-- cmd/alice/exec.go: `alice exec`, which runs a command with secrets in its environment when a rule
-- of the allowlist lets it.
pub mod Flags
pub mod Env
pub mod Run
