-- ===== src/EventLog.antt =====
-- The bounded log of internal/eventlog/eventlog.go.
pub mod Redact
pub mod Safety
pub mod Ring
mod Examples
