-- ===== src/Accounting/Journal.antt =====
-- src/modules/accounting/services/journal-entry.service.ts, an operation to a child.
pub mod Entry
pub mod Posting
pub mod Reversal
pub mod Running
pub mod Balances
pub mod Posts
pub mod Creates
pub mod Sums
pub mod Trial
pub mod AutoPosts
pub mod Reverses
pub mod Idempotence
pub mod Ledger
