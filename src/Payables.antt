-- ===== src/Payables.antt =====
-- src/modules/accounting/services/ap.service.ts and ar.service.ts: what is owed to suppliers and by
-- customers.
pub mod Schema
pub mod Transactions
pub mod Aging
pub mod Settled
pub mod PaymentTables
pub mod Allocations
pub mod Payments
pub mod Paid
pub mod Posted
pub mod PaymentReach
mod Tests
mod PaymentTests
