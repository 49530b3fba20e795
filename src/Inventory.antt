-- ===== src/Inventory.antt =====
-- src/modules/inventory/services and src/database/stock-lock.ts: stock, its movements and counts.
pub mod Schema
pub mod OnHand
pub mod Movements
pub mod Requirements
pub mod Levels
pub mod Summary
pub mod Creates
pub mod Covered
pub mod Reach
pub mod Final
pub mod Issues
pub mod Issued
pub mod Adjustments
pub mod Opnames
mod Tests
