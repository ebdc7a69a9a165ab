-- ===== src/Web.antt =====
-- The web front end (internal/web): login throttling and signed sessions.
pub mod Password
pub mod Limiter
pub mod Base64
pub mod Session
mod Examples
