-- ===== src/Instance.antt =====
-- The values of a model instance: packages/core/src/model.js.
pub mod Value
pub mod State
pub mod Get
pub mod Set
pub mod Deletion
pub mod Equality
pub mod Lifting
pub mod Tracking
pub mod Tracked
pub mod Fixed
pub mod Effect
mod Tests
