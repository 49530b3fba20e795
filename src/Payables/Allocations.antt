-- ===== src/Payables/Allocations.antt =====
-- The allocations of a payment to a supplier: the loop at the end of `createPayment`
-- of src/modules/accounting/services/ap.service.ts.
use backend_erp.Prelude.{
  ℕ, ◌==◌, ltb, if◌then◌else◌, Bool, ◌&&◌, List, [], ◌∷◌, sum_of, take_first, exists_where,
  update_where,
}
use backend_erp.Database.{
  Action, not_found, check_violation, ◌>>=◌, ◌>>◌, pure, gets, or_throw, throw_if, modify,
}
use backend_erp.Payables.Schema.{DebtStatus, ApTransaction}
use backend_erp.Payables.Transactions.{status_of}
use backend_erp.Payables.PaymentTables.{
  InvoiceStatus, VendorInvoice, Allocation, Payments, AllocationDto,
}

abbrev pub insert_allocation : ℕ → AllocationDto → Payments → Payments
insert_allocation payment_id a s = record s {
  allocations =
      record {
        ap_payment_id = payment_id;
        ap_transaction_id = a.ap_transaction_id;
        amount = a.amount;
      }
      ∷ s.allocations;
}

abbrev pub allocated_to : ℕ → List Allocation → ℕ
allocated_to transaction_id as_ =
    sum_of (λ a. if a.ap_transaction_id == transaction_id then a.amount else 0) as_

abbrev pub as_paid : ℕ → ApTransaction → ApTransaction
as_paid amount t = record t { paid_amount = amount; status = status_of amount t.amount }

abbrev pub invoice_status : DebtStatus → InvoiceStatus
invoice_status DebtStatus.paid = InvoiceStatus.paid
invoice_status DebtStatus.partial = InvoiceStatus.partial
invoice_status _ = InvoiceStatus.unpaid

abbrev pub as_paid_invoice : ℕ → DebtStatus → VendorInvoice → VendorInvoice
as_paid_invoice amount status i = record i { paid_amount = amount; status = invoice_status status }

-- the constraints of the two tables on the amount
abbrev pub exceeds_row : ℕ → ℕ → ApTransaction → Bool
exceeds_row transaction_id amount t = t.id == transaction_id && ltb t.amount amount

abbrev pub exceeds_invoice : ℕ → ℕ → VendorInvoice → Bool
exceeds_invoice invoice_id amount i = i.id == invoice_id && ltb i.total_amount amount

abbrev pub set_paid : ℕ → ℕ → Payments → Payments
set_paid transaction_id amount s = record s {
  debts = record s.debts {
    payables = update_where (λ t. t.id == transaction_id) (as_paid amount) s.debts.payables;
  };
}

abbrev pub set_invoice : ℕ → ℕ → DebtStatus → Payments → Payments
set_invoice invoice_id amount status s = record s {
  vendor_invoices =
      update_where (λ i. i.id == invoice_id) (as_paid_invoice amount status) s.vendor_invoices;
}

-- one turn of the loop over the allocations
abbrev pub allocate : ℕ → AllocationDto → Action Payments (Unit {0})
allocate payment_id a = do
  throw_if (a.amount == 0) check_violation
  modify (insert_allocation payment_id a)
  amount ← gets (λ s. allocated_to a.ap_transaction_id s.allocations)
  row ← gets (λ s. take_first (λ t. t.id == a.ap_transaction_id) s.debts.payables)
  apt ← or_throw row not_found
  throw_if (← gets (λ s. exists_where (exceeds_row apt.id amount) s.debts.payables)) check_violation
  modify (set_paid a.ap_transaction_id amount)
  throw_if
      (← gets (λ s. exists_where (exceeds_invoice apt.vendor_invoice_id amount) s.vendor_invoices))
      check_violation
  modify (set_invoice apt.vendor_invoice_id amount (status_of amount apt.amount))

abbrev pub allocate_all : ℕ → List AllocationDto → Action Payments (Unit {0})
allocate_all payment_id [] = pure tt
allocate_all payment_id (a ∷ as_) = do allocate payment_id a; allocate_all payment_id as_
