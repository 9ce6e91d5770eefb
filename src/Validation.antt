-- ===== src/Validation.antt =====
-- The validation of model instances: packages/core/src/instance-validator.js.
pub mod Checks
pub mod Validator
pub mod Laws
mod Tests
