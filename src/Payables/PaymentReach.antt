-- ===== src/Payables/PaymentReach.antt =====
-- Payments over time: every sequence of payments and new payables, and of calls of the accounting
-- services in between.
use backend_erp.Prelude.{
  ℕ, suc, ◌<◌, ◌==◌, ◌≡◌, refl, sym, ◌∙◌, inl, inr, subst, Option, List, ◌∷◌, arith, Option-cases,
  All, All-map, sum_of-cong, sum_of-zero, take_first,
}
use backend_erp.Database.{ok}
use backend_erp.Accounting.Schema.{Clock, LedgerRow, Books}
use backend_erp.Accounting.Reach.{Step-IsKept}
use backend_erp.Accounting.Reach as Accounting
use backend_erp.Payables.Schema.{Debts}
use backend_erp.Payables.Transactions.{DebtDto, new_payable, create_payable}
use backend_erp.Payables.PaymentTables.{ApPayment, Allocation, Payments, PaymentDto}
use backend_erp.Payables.Allocations.{allocated_to}
use backend_erp.Payables.Payments.{create_payment}
use backend_erp.Payables.Paid.{AreRows}
use backend_erp.Payables.Posted.{IsPaid, create_payment-IsPaid}

-- One call that commits, at the time that `clock` shows.
pub data Step (pick : List LedgerRow → Option LedgerRow) (s s' : Payments) : Type 0 where
  payment_created :
      (clock : Clock) (dto : PaymentDto) (by : ℕ) (p : ApPayment)
      → create_payment clock pick dto by s ≡ ok (p, s')
      → Step pick s s'
  payable_created :
      (dto : DebtDto) (n : ℕ) (t : Debts)
      → create_payable dto s.debts ≡ ok (n, t)
      → s' ≡ record s { debts = t }
      → Step pick s s'
  books_changed :
      (b : Books) → Accounting.Step pick s.books b → s' ≡ record s { books = b } → Step pick s s'

pub data Reach (pick : List LedgerRow → Option LedgerRow) (s : Payments) : Payments → Type 0 where
  here : Reach pick s s
  next : {t u : Payments} → Reach pick s t → Step pick t u → Reach pick s u

unallocated :
    (n : ℕ) (xs : List Allocation) → All (λ a. a.ap_transaction_id < n) xs → allocated_to n xs ≡ 0
unallocated n xs h =
    sum_of-cong _ (λ _. 0) xs (All-map _ _ xs (λ a lt. ground (arith, lt)) h) ∙ sum_of-zero xs

create_payable-AreRows :
    (dto : DebtDto) (n : ℕ) (s : Payments) (t : Debts)
    → create_payable dto s.debts ≡ ok (n, t)
    → AreRows s
    → AreRows (record s { debts = t })
unfolding create_payable
create_payable-AreRows dto n s t h w =
    elim (Option-cases (take_first (λ t. t.vendor_invoice_id == dto.invoice_id) s.debts.payables)) [
      | inr (x, e) ↦
          let same : t ≡ s.debts = ground (arith, rw e at h) in
          subst (λ z. AreRows (record s { debts = z })) (sym same) w
      | inl e ↦
          let new = record s.debts {
            payables = new_payable dto s.debts ∷ s.debts.payables;
            next_payable = suc s.debts.next_payable;
          } in
          let result : t ≡ new = ground (arith, rw e at h) in
          subst (λ z. AreRows (record s { debts = z })) (sym result)
            (record {
              rows = (
                (
                  sym (unallocated s.debts.next_payable s.allocations w.known_allocations),
                  omega arith,
                  refl,
                ),
                w.rows,
              );
              known_rows = (
                omega arith,
                All-map _ _ s.debts.payables (λ t lt. omega (arith, lt)) w.known_rows,
              );
              known_allocations =
                  All-map _ _ s.allocations (λ a lt. omega (arith, lt)) w.known_allocations;
            })
    ]

pub Step-IsPaid :
    (pick : List LedgerRow → Option LedgerRow) (s s' : Payments)
    → Step pick s s'
    → IsPaid s
    → IsPaid s'
Step-IsPaid pick s s' (payment_created clock dto by p h) w =
    create_payment-IsPaid clock pick dto by p s s' h w
Step-IsPaid pick s s' (payable_created dto n t h result) w = subst IsPaid (sym result) (record {
  rows = create_payable-AreRows dto n s t h w.rows;
  kept = w.kept;
  sums = w.sums;
  known_payments = w.known_payments;
  known_allocations = w.known_allocations;
})
Step-IsPaid pick s s' (books_changed b step result) w = subst IsPaid (sym result) (record {
  rows = record {
    rows = w.rows.rows;
    known_rows = w.rows.known_rows;
    known_allocations = w.rows.known_allocations;
  };
  kept = Step-IsKept pick s.books b step w.kept;
  sums = w.sums;
  known_payments = w.known_payments;
  known_allocations = w.known_allocations;
})

-- Whatever payables are made and paid, in any order and with any calls of the accounting services
-- in between, from tables where this holds: what is paid of a payable is the sum of what is
-- allocated to it and no more than its amount, its status agrees with it, the amount of a payment
-- is the sum of its allocations, and the books are sound.
pub Reach-IsPaid :
    (pick : List LedgerRow → Option LedgerRow) (s t : Payments)
    → Reach pick s t
    → IsPaid s
    → IsPaid t
Reach-IsPaid pick s t here w = w
Reach-IsPaid pick s t (next {t = u} r step) w =
    Step-IsPaid pick u t step (Reach-IsPaid pick s u r w)
