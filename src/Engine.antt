-- ===== src/Engine.antt =====
-- The supervision of an external core (internal/engine/supervisor.go).
pub mod LineLog
pub mod StateFile
pub mod Supervisor
mod ToyCodec
pub mod Examples
