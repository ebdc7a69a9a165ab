-- ===== src/RuleConvert/Translation.antt =====
-- What the text of a rule for the core Mihomo says when it is read again
-- (`classical` and `parseClassical` of internal/ruleconvert/rules.go).
pub mod Texts
pub mod Plain
pub mod Fields
pub mod Values
pub mod Conditions
pub mod Ports
pub mod Trip
pub mod Meaning
pub mod Logic
