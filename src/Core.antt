-- ===== src/Core.antt =====
-- src/model_passport/core: the schema of a passport, and its lifecycle events.
pub mod Schema
pub mod Events
pub mod Identity
pub mod Document
pub mod Verifier
pub mod Toy
mod Tests
