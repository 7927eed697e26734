-- ===== src/Policy.antt =====
-- src/model_passport/policy: the evidence of a rule, and the engine.
pub mod Evidence
pub mod Engine
mod Tests
