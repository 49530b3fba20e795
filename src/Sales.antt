-- ===== src/Sales.antt =====
-- src/modules/sales-order/services: orders, deliveries and what they do to stock and books.
pub mod Schema
pub mod Totals
pub mod Demands
pub mod Orders
pub mod Delivered
pub mod Deliveries
pub mod Shipments
pub mod Bounds
pub mod Counts
pub mod Sold
pub mod Shipped
pub mod Issuing
pub mod Confirmed
pub mod Reach
pub mod Takes
pub mod Refusals
mod Tests
