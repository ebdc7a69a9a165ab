-- ===== src/FakeIp.antt =====
-- The fake-IP destination allowlist (internal/fakeip/store.go). A text is a list of code points, and
-- a byte that decodes to none is a number from 0x110000 on.
pub mod Sections
pub mod Prefix
pub mod Document
pub mod Store
mod Examples
