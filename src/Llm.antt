-- ===== src/Llm.antt =====
-- src/model_passport/llm: sensitive values in training text.
pub mod Entities
pub mod Sanitize
pub mod Versions
pub mod Holdout
pub mod Remediate
pub mod Risk
mod Tests
