-- ===== src/Guard.antt =====
-- src/model_passport/guard: personal values are replaced before a request reaches a model.
pub mod Policy
pub mod Vault
pub mod Engine
pub mod Numerals
pub mod Tokens
pub mod Placed
pub mod Restored
pub mod Protected
mod Tests
