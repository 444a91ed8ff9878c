-- ===== src/Audit.antt =====
-- internal/audit/audit.go: the audit log.
pub mod Redact
pub mod Entry
pub mod Files
pub mod Writer
mod Tests
