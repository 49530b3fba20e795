-- ===== src/Payables/Paid.antt =====
-- What is paid of a payable is what is allocated to it, and a payment is the sum of its allocations.
use backend_erp.Prelude.{
  ℕ, ◌+◌, ◌≤◌, ◌<◌, ◌==◌, if◌then◌else◌, ◌≡◌, refl, sym, ◌∙◌, inl, inr, ap, subst, Bool, false,
  some, List, [], ◌∷◌, arith, Bool-cases, Option-cases, All, All-update_where, All-take_first,
  sum_of, take_first, exists_where, exists_where-All, update_where,
}
use backend_erp.Database.{ok, >>=-eq-ok}
use backend_erp.Payables.Schema.{ApTransaction}
use backend_erp.Payables.Transactions.{status_of}
use backend_erp.Payables.Settled.{Matches, status_of-Matches}
use backend_erp.Payables.PaymentTables.{Allocation, Payments, AllocationDto}
use backend_erp.Payables.Allocations.{
  insert_allocation, allocated_to, as_paid, exceeds_row, set_paid, set_invoice, allocate,
  allocate_all,
}
use backend_erp.Payables.Payments.{total_amount}

-- what the allocations of a payment add up to
abbrev pub paid_by : ℕ → List Allocation → ℕ
paid_by payment_id xs = sum_of (λ a. if a.ap_payment_id == payment_id then a.amount else 0) xs

abbrev pub IsPaidRow : List Allocation → ApTransaction → Type 0
IsPaidRow allocations t =
    (t.paid_amount ≡ allocated_to t.id allocations)
    × (t.paid_amount ≤ t.amount)
    × Matches t.status t.paid_amount t.amount

pub record AreRows (s : Payments) : Type 0 where
  pub rows : All (IsPaidRow s.allocations) s.debts.payables
  pub known_rows : All (λ t. t.id < s.debts.next_payable) s.debts.payables
  pub known_allocations : All (λ a. a.ap_transaction_id < s.debts.next_payable) s.allocations

-- What a turn of the loop leaves alone.
pub record IsAllocated (n amount : ℕ) (s s' : Payments) : Type 0 where
  pub added :
      (k : ℕ) → paid_by k s'.allocations ≡ (if n == k then amount else 0) + paid_by k s.allocations
  pub payments : s'.ap_payments ≡ s.ap_payments
  pub next : s'.next_payment ≡ s.next_payment
  pub books : s'.books ≡ s.books
  pub fresh :
      All (λ a. a.ap_payment_id < s.next_payment) s.allocations
      → n < s.next_payment
      → All (λ a. a.ap_payment_id < s.next_payment) s'.allocations

module _ (payment_id : ℕ) (a : AllocationDto) (s : Payments) where
  abbrev inserted : Payments
  inserted = insert_allocation payment_id a s

  abbrev amount : ℕ
  amount = allocated_to a.ap_transaction_id inserted.allocations

  abbrev settled : ApTransaction → Payments
  settled t =
      set_invoice t.vendor_invoice_id amount (status_of amount t.amount)
        (set_paid a.ap_transaction_id amount inserted)

  -- A turn that succeeds.
  record Turn (s' : Payments) (t : ApTransaction) : Type 0 where
    found : take_first (λ t. t.id == a.ap_transaction_id) s.debts.payables ≡ some t
    within : exists_where (exceeds_row t.id amount) s.debts.payables ≡ false
    result : s' ≡ settled t

  allocate-Turn :
      (s' : Payments) → allocate payment_id a s ≡ ok (tt, s') → (t : ApTransaction) × Turn s' t
  allocate-Turn s' h =
      elim (Option-cases (take_first (λ t. t.id == a.ap_transaction_id) s.debts.payables)) [
        | inl e ↦ ground (arith, e)
        | inr (t, e) ↦
            (t, record { found = e; within = ground (arith, e); result = ground (arith, e) })
      ]

  paid_rows :
      (t : ApTransaction) (ts : List ApTransaction)
      → t.id ≡ a.ap_transaction_id
      → All (λ u. exceeds_row t.id amount u ≡ false) ts
      → All (IsPaidRow s.allocations) ts
      → All
          (IsPaidRow inserted.allocations)
          (update_where (λ u. u.id == a.ap_transaction_id) (as_paid amount) ts)
  paid_rows t [] id within h = tt
  paid_rows t (u ∷ us) id within h = (
    (let chosen : Bool → Type 0 =
          λ b. IsPaidRow inserted.allocations (if b then as_paid amount u else u) in
        elim (Bool-cases (u.id == a.ap_transaction_id)) [
          | inl e ↦
              let same : a.ap_transaction_id ≡ u.id = ground (arith, e) in
              let fits : amount ≤ u.amount = ground (arith, e, id, within.0) in
              subst chosen (sym e) (
                ap (λ z. allocated_to z inserted.allocations) same,
                fits,
                status_of-Matches amount u.amount fits,
              )
          | inr e ↦
              let (paid, fits, matches) = h.0 in
              let same : allocated_to u.id inserted.allocations ≡ allocated_to u.id s.allocations =
                ground (arith, e) in
              subst chosen (sym e) (paid ∙ sym same, fits, matches)
        ]),
    paid_rows t us id within.1 h.1,
  )

  known_after :
      (t : ApTransaction) (ts : List ApTransaction) (k : ℕ)
      → All (λ u. u.id < k) ts
      → All (λ u. u.id < k) (update_where (λ u. u.id == a.ap_transaction_id) (as_paid amount) ts)
  known_after t ts k h = All-update_where _ _ (as_paid amount) ts (λ u lt _. lt) h

  pub allocate-AreRows :
      (s' : Payments)
      → allocate payment_id a s ≡ ok (tt, s')
      → AreRows s
      → AreRows s' × IsAllocated payment_id a.amount s s'
  allocate-AreRows s' h w =
      let (t, c) = allocate-Turn s' h in
      let (lt, test) =
        All-take_first _ (λ t. t.id == a.ap_transaction_id) s.debts.payables t w.known_rows
          c.found in
      let id : t.id ≡ a.ap_transaction_id = ground (arith, test) in
      let within = exists_where-All (exceeds_row t.id amount) s.debts.payables c.within in
      subst (λ z. AreRows z × IsAllocated payment_id a.amount s z) (sym c.result)
        (
          record {
            rows = paid_rows t s.debts.payables id within w.rows;
            known_rows = known_after t s.debts.payables s.debts.next_payable w.known_rows;
            known_allocations = (omega (arith, lt, id), w.known_allocations);
          },
          record {
            added = λ k. refl;
            payments = refl;
            next = refl;
            books = refl;
            fresh = λ known lt. (lt, known);
          },
        )

-- The loop over the allocations.
pub allocate_all-AreRows :
    (n : ℕ) (as_ : List AllocationDto) (s s' : Payments)
    → allocate_all n as_ s ≡ ok (tt, s')
    → AreRows s
    → AreRows s' × IsAllocated n (total_amount as_) s s'
allocate_all-AreRows n [] s s' h w =
    let same : s' ≡ s = ground arith in
    subst (λ z. AreRows z × IsAllocated n 0 s z) (sym same)
      (
        w,
        record {
          added = λ k. ground arith;
          payments = refl;
          next = refl;
          books = refl;
          fresh = λ known lt. known;
        },
      )
allocate_all-AreRows n (a ∷ as_) s s' h w =
    let (_, t, x, y) = >>=-eq-ok (allocate n a) _ s h in
    let (v, i) = allocate-AreRows n a s t x w in
    let (v', j) = allocate_all-AreRows n as_ t s' y v in
    (
      v',
      record {
        added = λ k. ground (arith, i.added k, j.added k);
        payments = j.payments ∙ i.payments;
        next = j.next ∙ i.next;
        books = j.books ∙ i.books;
        fresh = λ known lt.
            subst (λ m. All (λ a. a.ap_payment_id < m) s'.allocations) i.next
              (j.fresh
                (subst (λ m. All (λ a. a.ap_payment_id < m) t.allocations) (sym i.next)
                  (i.fresh known lt))
                (omega (arith, lt, i.next)));
      },
    )
