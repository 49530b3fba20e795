-- ===== src/Payables/Payments.antt =====
-- `createPayment` of src/modules/accounting/services/ap.service.ts: a payment to a supplier, its
-- checks and its entry in the books.
use backend_erp.Prelude.{
  ℕ, suc, ◌+◌, ◌/◌, ◌==◌, ltb, Bool, true, false, not, ◌&&◌, ◌||◌, Option, none, some, List, [],
  ◌∷◌, sum_of, take_first, exists_where,
}
use backend_erp.Database.{
  Action, not_found, conflict, bad_request, check_violation, transaction, ◌>>=◌, ◌>>◌, pure, gets,
  or_throw, throw_if, modify,
}
use backend_erp.Accounting.Schema.{
  Clock, ms_per_day, DocumentNumber, Account, ap, cash, apv, payment, ap_payment, LedgerRow,
}
use backend_erp.Accounting.Accounts.{get_system_account, find_account}
use backend_erp.Accounting.Numbering.{generate}
use backend_erp.Accounting.Period.{get_active_period_for_date}
use backend_erp.Accounting.Journal.Reversal.{AutoPostDto, auto_post}
use backend_erp.Payables.Schema.{ApTransaction, is_unsettled, ap_outstanding}
use backend_erp.Payables.PaymentTables.{
  InvoiceStatus, VendorInvoice, ApPayment, Payments, in_ledger, AllocationDto, PaymentDto,
}
use backend_erp.Payables.Allocations.{allocate_all}

abbrev pub is_unallocated : List AllocationDto → Bool
is_unallocated [] = true
is_unallocated (_ ∷ _) = false

-- `new Set(transactionIds).size !== transactionIds.length`
abbrev pub has_repeated : List AllocationDto → Bool
has_repeated [] = false
has_repeated (a ∷ as_) =
    exists_where (λ b. b.ap_transaction_id == a.ap_transaction_id) as_ || has_repeated as_

abbrev pub total_amount : List AllocationDto → ℕ
total_amount as_ = sum_of (λ a. a.amount) as_

abbrev pub is_payable_to : ℕ → ℕ → ApTransaction → Bool
is_payable_to supplier_id transaction_id t =
    t.id == transaction_id && (t.supplier_id == supplier_id && is_unsettled t.status)

-- outstanding + 0.01
abbrev pub is_too_much : ℕ → ApTransaction → Bool
is_too_much amount t = ltb (ap_outstanding t + 100) amount

-- the check of the allocations, which is made before the transaction and again on the locked rows
abbrev pub check_allocations : ℕ → List AllocationDto → Action Payments (Unit {0})
check_allocations supplier_id [] = pure tt
check_allocations supplier_id (a ∷ as_) = do
  t ←
      or_throw
        (← gets (λ s. take_first (is_payable_to supplier_id a.ap_transaction_id) s.debts.payables))
        not_found
  throw_if (is_too_much a.amount t) bad_request
  check_allocations supplier_id as_

-- the account that the payment is made from
abbrev pub cash_account : Option ℕ → Action Payments Account
cash_account none = in_ledger (get_system_account cash)
cash_account (some bank_account_id) = do
  bank ← gets (λ s. take_first (λ b. b.id == bank_account_id) s.bank_accounts)
  ba ← or_throw bank bad_request
  in_ledger (find_account ba.account_id)

abbrev pub is_cancelled_invoice : InvoiceStatus → Bool
is_cancelled_invoice InvoiceStatus.cancelled = true
is_cancelled_invoice _ = false

abbrev pub is_payable_invoice : ℕ → VendorInvoice → Bool
is_payable_invoice invoice_id i = i.id == invoice_id && not (is_cancelled_invoice i.status)

abbrev pub invoice_of : ℕ → List ApTransaction → Option ℕ
invoice_of transaction_id ts = elim (take_first (λ t. t.id == transaction_id) ts) [
  | none ↦ none
  | some t ↦ some t.vendor_invoice_id
]

-- Every invoice has to exist and not be cancelled. The source counts the invoices that it finds,
-- which is the same as the table has one row at most for an invoice.
abbrev pub has_bad_invoice : Payments → AllocationDto → Bool
has_bad_invoice s a = elim (invoice_of a.ap_transaction_id s.debts.payables) [
  | none ↦ false
  | some invoice_id ↦ not (exists_where (is_payable_invoice invoice_id) s.vendor_invoices)
]

abbrev pub payment_entry : PaymentDto → ℕ → ℕ → ℕ → AutoPostDto
payment_entry dto period_id ap_id cash_id = record {
  period_id = some period_id;
  entry_date = dto.payment_date;
  entry_type = payment;
  reference_type = some ap_payment;
  reference_id = none;
  lines =
      record {
        account_id = ap_id;
        line_number = 1;
        debit = some (total_amount dto.allocations);
        credit = none;
      }
      ∷ record {
        account_id = cash_id;
        line_number = 2;
        debit = none;
        credit = some (total_amount dto.allocations);
      }
      ∷ [];
}

abbrev pub new_payment : PaymentDto → DocumentNumber → ℕ → ℕ → Payments → ApPayment
new_payment dto number journal_id created_by s = record {
  id = s.next_payment;
  number = number;
  supplier_id = dto.supplier_id;
  payment_date = dto.payment_date / ms_per_day;
  bank_account_id = dto.bank_account_id;
  amount = total_amount dto.allocations;
  journal_entry_id = journal_id;
  created_by = created_by;
}

abbrev pub insert_payment : ApPayment → Payments → Payments
insert_payment p s = record s { ap_payments = p ∷ s.ap_payments; next_payment = suc s.next_payment }

-- the checks before the transaction
abbrev pub check_payment : PaymentDto → Action Payments (Unit {0})
check_payment dto = do
  throw_if (is_unallocated dto.allocations) bad_request
  throw_if (has_repeated dto.allocations) bad_request
  check_allocations dto.supplier_id dto.allocations

module _ (clock : Clock) (pick : List LedgerRow → Option LedgerRow) where
  -- the entry in the books, and the row of the payment
  abbrev pub post_payment : PaymentDto → ℕ → ℕ → ℕ → ℕ → Action Payments ApPayment
  post_payment dto period_id ap_id cash_id created_by = do
    number ← in_ledger (generate clock apv)
    journal_id ←
        in_ledger
          (auto_post clock pick transaction (payment_entry dto period_id ap_id cash_id) created_by)
    p ← gets (new_payment dto number journal_id created_by)
    throw_if (p.amount == 0) check_violation
    modify (insert_payment p)
    pure p

  -- `createPayment`
  unfoldable pub create_payment : PaymentDto → ℕ → Action Payments ApPayment
  create_payment dto created_by = do
    check_payment dto
    ap_account ← in_ledger (get_system_account ap)
    cash_account ← cash_account dto.bank_account_id
    period ← in_ledger (get_active_period_for_date dto.payment_date)
    check_allocations dto.supplier_id dto.allocations
    throw_if (← gets (λ s. exists_where (has_bad_invoice s) dto.allocations)) conflict
    p ← post_payment dto period.id ap_account.id cash_account.id created_by
    allocate_all p.id dto.allocations
    pure p
