-- ===== src/RuleConvert.antt =====
-- The conversion of rule sets between the two cores (internal/ruleconvert).
pub mod Predicate
pub mod Library
pub mod Decimal
pub mod Leaves
pub mod Operands
pub mod Classical
pub mod Mihomo
pub mod Lines
pub mod Translation
pub mod SingBox
pub mod Examples
