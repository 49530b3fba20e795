-- ===== src/Payables/Schema.antt =====
-- The tables ap_transactions and ar_transactions
-- (src/database/migrations/tenant/009_create_accounting.sql and src/types/database.types.ts), the
-- newest row first. Amounts are NUMERIC(18,4), as ten-thousandths; dates are day numbers.
use backend_erp.Prelude.{ℕ, ◌-◌, Bool, true, false, List}

pub data DebtStatus : Type 0 where
  opened partial paid cancelled : DebtStatus

pub record ApTransaction : Type 0 where
  pub id : ℕ
  pub vendor_invoice_id : ℕ
  pub supplier_id : ℕ
  pub transaction_date : ℕ
  pub due_date : ℕ
  pub amount : ℕ
  pub paid_amount : ℕ
  pub status : DebtStatus

pub record ArTransaction : Type 0 where
  pub id : ℕ
  pub customer_invoice_id : ℕ
  pub customer_id : ℕ
  pub transaction_date : ℕ
  pub due_date : ℕ
  pub amount : ℕ
  pub received_amount : ℕ
  pub status : DebtStatus

pub record Debts : Type 0 where
  pub payables : List ApTransaction
  pub receivables : List ArTransaction
  pub next_payable : ℕ
  pub next_receivable : ℕ

-- `status IN ('open', 'partial')`
abbrev pub is_unsettled : DebtStatus → Bool
is_unsettled opened = true
is_unsettled partial = true
is_unsettled _ = false

-- The generated columns; the constraints ck_…_amount keep the difference from falling below 0.
abbrev pub ap_outstanding : ApTransaction → ℕ
ap_outstanding t = t.amount - t.paid_amount

abbrev pub ar_outstanding : ArTransaction → ℕ
ar_outstanding t = t.amount - t.received_amount
