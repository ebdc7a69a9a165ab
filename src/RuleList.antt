-- ===== src/RuleList.antt =====
-- The local rule lists (internal/rulelist).
pub mod AutoPrefix
pub mod Store
mod Examples
