-- ===== src/Payables/PaymentTables.antt =====
-- The rows that payments to suppliers read and write (src/types/database.types.ts), and the body of
-- a request (src/modules/accounting/dto/accounting.dto.ts).
use backend_erp.Prelude.{ℕ, Option, List}
use backend_erp.Database.{ok, err, Action}
use backend_erp.Accounting.Schema.{DocumentNumber, Books}
use backend_erp.Payables.Schema.{Debts}

pub data InvoiceStatus : Type 0 where
  unpaid partial paid cancelled : InvoiceStatus

pub record VendorInvoice : Type 0 where
  pub id : ℕ
  pub total_amount : ℕ
  pub paid_amount : ℕ
  pub status : InvoiceStatus

pub record BankAccount : Type 0 where
  pub id : ℕ
  pub account_id : ℕ

pub record ApPayment : Type 0 where
  pub id : ℕ
  pub number : DocumentNumber
  pub supplier_id : ℕ
  pub payment_date : ℕ
  pub bank_account_id : Option ℕ
  pub amount : ℕ
  pub journal_entry_id : ℕ
  pub created_by : ℕ

pub record Allocation : Type 0 where
  pub ap_payment_id : ℕ
  pub ap_transaction_id : ℕ
  pub amount : ℕ

-- the rows of both kinds, and what payments read and write besides
pub record Payments : Type 0 where
  pub debts : Debts
  pub books : Books
  pub vendor_invoices : List VendorInvoice
  pub bank_accounts : List BankAccount
  pub ap_payments : List ApPayment
  pub allocations : List Allocation
  pub next_payment : ℕ

abbrev pub in_ledger : {A : Type 0} → Action Books A → Action Payments A
in_ledger m s = elim (m s.books) [ ok r ↦ ok (r.0, record s { books = r.1 }) | err e ↦ err e ]

pub record AllocationDto : Type 0 where
  pub ap_transaction_id : ℕ
  pub amount : ℕ

-- `payment_date` is a time.
pub record PaymentDto : Type 0 where
  pub supplier_id : ℕ
  pub payment_date : ℕ
  pub bank_account_id : Option ℕ
  pub allocations : List AllocationDto
