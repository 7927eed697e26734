-- ===== src/Registry.antt =====
-- src/model_passport/registry: the registry that stores signed passports and serves them.
pub mod Db
pub mod Api
pub mod Lineage
mod Tests
