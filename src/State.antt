-- ===== src/State.antt =====
-- The profiles of the program and the active one (internal/state).
pub mod Files
pub mod Settings
pub mod Profiles
mod Examples
