-- ===== src/Accounting.antt =====
-- Double-entry bookkeeping: src/modules/accounting, over the tables of
-- src/database/migrations/tenant/009_create_accounting.sql. Each child defines one service or
-- proves one thing about it.
pub mod Schema
pub mod Period
pub mod Accounts
pub mod Chart
pub mod ChartRooted
pub mod ChartReach
pub mod Numbering
pub mod Journal
pub mod Reports
pub mod Drafts
pub mod Kept
pub mod Reach
pub mod Stuck
pub mod StuckReach
pub mod Refusals
mod ChartTests
mod Tests
