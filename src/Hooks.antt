-- ===== src/Hooks.antt =====
-- The hooks of a model or of a Sequelize instance: packages/core/src/hooks.ts on the `MultiMap` of
-- packages/utils/src/common/map/multi-map.ts.
pub mod MultiMap
pub mod Handler
pub mod Laws
pub mod Order
mod Tests
