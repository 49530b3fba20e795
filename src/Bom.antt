-- ===== src/Bom.antt =====
-- src/modules/bom/services/bom.service.ts: bills of materials.
pub mod Schema
pub mod Versions
pub mod Items
pub mod Routing
pub mod Forest
pub mod Unique
pub mod Changes
pub mod Calls
pub mod ItemCalls
pub mod Reach
pub mod Explosion
pub mod Frozen
mod Tests
