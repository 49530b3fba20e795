-- ===== src/Lib.antt =====
-- backend-erp: the services of an ERP server (NestJS with Kysely over PostgreSQL), modelled as
-- functions on tables.
--
-- A service takes a database session and runs statements in a transaction. Here it takes a record
-- of tables and gives a result with the new tables; an exception carries no tables, since the
-- transaction is rolled back (Database.antt, src/database/transaction.ts). Calls that lock the rows
-- they read run one after another, so an interleaving of requests is a sequence of calls.
--
-- Accounting (src/modules/accounting/services):
--   Accounting/Schema       the tables (src/types/database.types.ts and
--                           src/database/migrations/tenant/009_create_accounting.sql)
--   Accounting/Period       fiscal-period.service.ts: createFiscalYear, closeFiscalYear,
--                           createPeriod, updatePeriodStatus, getActivePeriodForDate
--   Accounting/Accounts     account.service.ts: getSystemAccount, findOne
--   Accounting/Chart        account.service.ts: create, update; ChartRooted and ChartReach are
--                           about them
--   Accounting/Numbering    src/common/document-number.service.ts: generate
--   Accounting/Journal      journal-entry.service.ts: Entry has create, Posting has post, Reversal
--                           has reverse and autoPost; its other children are about them
--   Accounting/Reports      general-ledger.service.ts: getTrialBalance, getProfitLoss,
--                           getBalanceSheet
--   Accounting/Drafts, Accounting/Kept, Accounting/Reach   what all calls together keep
--   Accounting/Stuck, Accounting/StuckReach, Accounting/Refusals   entries that one call lets
--                           through and another refuses
-- The journal service asks the period service for the active period and the numbering service for a
-- number, in the same transaction; the reports read the ledger that posting writes.
--
-- Inventory (src/modules/inventory/services and src/database/stock-lock.ts):
--   Inventory/Schema        the tables (src/types/database.types.ts and
--                           src/database/migrations/tenant/003_create_inventory.sql)
--   Inventory/OnHand        stock-lock.ts: getStockOnHand; the materialized view stock_summary of
--                           src/database/migrations/tenant/016_correct_stock_summary_transfers.sql
--   Inventory/Movements     inventory-movement.service.ts: create, confirm, cancel,
--                           validateMovementItems, validateSufficientStock
--   Inventory/Opnames, Inventory/Adjustments   stock-opname.service.ts: create, complete, cancel,
--                           createAdjustmentMovements
--   Inventory/Requirements, Inventory/Covered, Inventory/Levels, Inventory/Creates, Inventory/Summary,
--   Inventory/Reach, Inventory/Final   about the movements, the stock on hand and the view
-- A stock count reads the view and writes confirmed movements of its own; the stock on hand is
-- always the sum over the confirmed movements. A call that takes stock holds the advisory locks of
-- its keys to the end of its transaction, so no other call changes these keys in between.
--
-- Payables (src/modules/accounting/services):
--   Payables/Schema         the tables ap_transactions and ar_transactions
--   Payables/Transactions   ap.service.ts: createTransaction; ar.service.ts: createTransaction,
--                           updateReceived
--   Payables/Aging          getApAging and getArAging of both
--   Payables/PaymentTables, Payables/Payments, Payables/Allocations   ap.service.ts: createPayment
--                           and the tables that it reads and writes
--   Payables/Settled        about the receivables
--   Payables/Paid, Payables/Posted, Payables/PaymentReach   about the payables and their payments
-- A payment posts its entry by autoPost and marks the payables and invoices that it pays, in one
-- transaction.
--
-- Sales (src/modules/sales-order/services):
--   Sales/Schema            the tables, with the stock and the books
--                           (src/database/migrations/tenant/005_create_sales_order.sql)
--   Sales/Totals            sales-order.service.ts: calculateTotals, calcLineSubtotal
--   Sales/Orders, Sales/Delivered   create, confirm, cancel; updateDeliveredQuantity
--   Sales/Demands           the materialized view available_stock; createFromSalesOrder of
--                           src/modules/production/services/mrp-demand.service.ts
--   Sales/Deliveries, Sales/Shipments   delivery-order.service.ts: create, cancel; confirm
--   Sales/Sold, Sales/Counts, Sales/Shipped, Sales/Issuing, Sales/Confirmed, Sales/Reach   what
--                           orders and deliveries keep of stock, books and delivered quantities
--   Sales/Takes, Sales/Bounds, Sales/Refusals   about a delivery, the totals and the driver
-- Confirming a delivery writes a movement of stock (Inventory/Issues, Inventory/Issued), updates
-- the order and posts the cost of the goods by autoPost, in one transaction.
--
-- Bills of materials (src/modules/bom/services/bom.service.ts):
--   Bom/Schema              the tables (src/database/migrations/tenant/006_create_bom.sql)
--   Bom/Versions            createHeader, updateHeader, createVersion, updateVersion,
--                           activateVersion, getActiveVersionForVariant
--   Bom/Items, Bom/Routing  addItem, updateItem, deleteItem; operations and by-products
--   Bom/Explosion           explodeBom, whose recursive query runs in rounds
--   Bom/Forest, Bom/Unique, Bom/Changes, Bom/Calls, Bom/ItemCalls, Bom/Reach, Bom/Frozen   about
--                           the trees of items, the versions, and sequences of calls
--
-- Conventions. Amounts and quantities are NUMERIC(18,4): a number counts ten-thousandths, so 0.01 is
-- 100, and the rounding of JavaScript's floating point is not modelled. Dates are day numbers and
-- times milliseconds, in UTC. Identifiers are numbers from 1 on. The tables are lists with the
-- newest row first, except where a comment says otherwise. Columns of free text and of audit times
-- are left out. Constraints of the schema that the services can run into (unique indexes, checks,
-- foreign keys) are tests at the statement that runs into them. What PostgreSQL leaves open, the
-- order of rows of one created_at, is a parameter with its documented behaviour as a hypothesis
-- (LatestFirst in Accounting/Journal/Posting). The database
-- driver may give BIGINT columns as numbers or as strings, which a strict comparison tells apart:
-- this is a parameter (Reading in Database), and so is how PostgreSQL reads a document number for a
-- BIGINT column (Accounting/Journal/Reversal). The loops of the source go over lists; only the
-- recursive query of a bill of materials needs fuel, as many rounds as there are items, which is
-- enough since an item lies less deep than there are items (Bom/Explosion/Complete).
--
-- Not modelled: the paged list queries, controllers, validation decorators, connections and
-- migrations, logging, quotations and invoices of customers, bank transactions, and the
-- modules of purchasing, production, quality, products and authentication.
pub mod Prelude
pub mod Database
pub mod Accounting
pub mod Inventory
pub mod Bom
pub mod Payables
pub mod Sales
