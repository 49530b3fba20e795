-- ===== src/Payables/PaymentTests.antt =====
-- A payable of 900 that is paid in part, and the theorem applied to it.
use backend_erp.Prelude.{ℕ, ◌*◌, ◌≡◌, refl, true, Option, none, some, List, [], ◌∷◌, map, arith}
use backend_erp.Prelude.Int.{◌+ℤ◌, ◌-ℤ◌}
use backend_erp.Database.{Result, ok, err}
use backend_erp.Accounting.Schema.{
  Clock, ms_per_day, YearStatus, PeriodStatus, asset, liability, ap, cash, apv, Books, LedgerRow,
}
use backend_erp.Accounting.Numbering.{generate}
use backend_erp.Accounting.Journal.Entry.{create}
use backend_erp.Accounting.Journal.Posting.{post, post_lines, post_line}
use backend_erp.Accounting.Journal.Reversal.{auto_post, post_new}
use backend_erp.Accounting.Period.{get_active_period_for_date}
use backend_erp.Accounting.Kept.{IsKept}
use backend_erp.Payables.Schema.{DebtStatus, Debts}
use backend_erp.Payables.Transactions.{DebtDto, create_payable}
use backend_erp.Payables.PaymentTables.{InvoiceStatus, ApPayment, Payments, PaymentDto}
use backend_erp.Payables.Payments.{create_payment}
use backend_erp.Payables.Posted.{IsPaid}
use backend_erp.Payables.PaymentReach.{
  Reach, here, next, payment_created, payable_created, Reach-IsPaid,
}

abbrev clock : Clock
clock = record { now = 20 * ms_per_day; year = 2026 }

abbrev head_of : List LedgerRow → Option LedgerRow
head_of [] = none
head_of (r ∷ _) = some r

abbrev books : Books
books = record {
  fiscal_years = record { id = 1; start_date = 0; end_date = 364; status = YearStatus.opened } ∷ [];
  periods =
      record {
        id = 1;
        fiscal_year_id = 1;
        period_number = 1;
        start_date = 0;
        end_date = 30;
        status = PeriodStatus.opened;
      }
      ∷ [];
  accounts =
      record { id = 1; account_type = liability; system_account = some ap; is_active = true }
      ∷ record { id = 2; account_type = asset; system_account = some cash; is_active = true }
      ∷ [];
  journals = [];
  lines = [];
  ledger = [];
  balances = [];
  counters = [];
  next_year = 2;
  next_period = 2;
  next_journal = 1;
  next_line = 1;
}

abbrev start : Payments
start = record {
  debts = record { payables = []; receivables = []; next_payable = 1; next_receivable = 1 };
  books = books;
  vendor_invoices =
      record { id = 5; total_amount = 900; paid_amount = 0; status = InvoiceStatus.unpaid } ∷ [];
  bank_accounts = record { id = 4; account_id = 2 } ∷ [];
  ap_payments = [];
  allocations = [];
  next_payment = 1;
}

abbrev invoice : DebtDto
invoice = record {
  invoice_id = 5;
  partner_id = 3;
  amount = 900;
  transaction_date = 18;
  due_date = 48;
}

abbrev part : PaymentDto
part = record {
  supplier_id = 3;
  payment_date = 20 * ms_per_day;
  bank_account_id = some 4;
  allocations = record { ap_transaction_id = 1; amount = 400 } ∷ [];
}

abbrev debts_after : Debts → Result (ℕ × Debts) → Debts
debts_after s (ok r) = r.1
debts_after s (err _) = s

abbrev owing : Debts
owing = debts_after start.debts (create_payable invoice start.debts)

abbrev owed : Payments
owed = record start { debts = owing }

abbrev after : {A : Type 0} → Result (A × Payments) → Payments
after (ok r) = r.1
after (err _) = owed

abbrev settled : Payments
settled = after (create_payment clock head_of part 1 owed)

abbrev the_payment : ApPayment
the_payment = record {
  id = 1;
  number = record { doc_type = apv; year = 2026; counter = 1 };
  supplier_id = 3;
  payment_date = 20;
  bank_account_id = some 4;
  amount = 400;
  journal_entry_id = 1;
  created_by = 1;
}

payable_was_created : create_payable invoice start.debts ≡ ok (1, owing)
unfolding create_payable
payable_was_created = refl

payment_was_created : create_payment clock head_of part 1 owed ≡ ok (the_payment, settled)
unfolding create_payable create_payment generate auto_post post_new create
    get_active_period_for_date post post_lines post_line ◌-ℤ◌ ◌+ℤ◌
payment_was_created = refl

payable_is_part_paid :
    (map (λ t. t.paid_amount) settled.debts.payables ≡ 400 ∷ [])
    × (map (λ t. t.status) settled.debts.payables ≡ DebtStatus.partial ∷ [])
unfolding create_payable create_payment generate auto_post post_new create
    get_active_period_for_date post post_lines post_line ◌-ℤ◌ ◌+ℤ◌
payable_is_part_paid = (refl, refl)

books-IsKept : IsKept books
books-IsKept = record {
  calendar = record { dated = (omega arith, tt); apart = (tt, tt); in_open_year = (λ _. refl, tt) };
  drafts_open = tt;
  sound = record { totals = tt; known_journals = tt; known_lines = tt; trial = λ p. refl };
}

start-IsPaid : IsPaid start
start-IsPaid = record {
  rows = record { rows = tt; known_rows = tt; known_allocations = tt };
  kept = books-IsKept;
  sums = tt;
  known_payments = tt;
  known_allocations = tt;
}

settled-Reach : Reach head_of start settled
settled-Reach =
    next (next here (payable_created invoice 1 owing payable_was_created refl))
      (payment_created clock part 1 the_payment payment_was_created)

Reach-IsPaid_example : IsPaid settled
Reach-IsPaid_example = Reach-IsPaid head_of start settled settled-Reach start-IsPaid
