-- ===== src/Payables/Posted.antt =====
-- A payment keeps the rows, the sums of its allocations and the books
-- (`createPayment` of src/modules/accounting/services/ap.service.ts).
use backend_erp.Prelude.{
  ℕ, suc, ◌<◌, ◌≡◌, refl, sym, ◌∙◌, inl, inr, ap, subst, Option, none, some, List, [], ◌∷◌, arith,
  take_first, ◌==◌, Bool-cases, Option-cases, All, All-map, All-zip, sum_of-cong, sum_of-zero,
  exists_where,
}
use backend_erp.Database.{Result, Action, ok, err, transaction, >>=-eq-ok}
use backend_erp.Accounting.Schema.{
  Clock, LedgerRow, Books, Account, SystemAccount, cash, apv, Period,
}
use backend_erp.Accounting.Accounts.{
  get_system_account, find_account, get_system_account-same, find_account-same,
}
use backend_erp.Accounting.Numbering.{generate}
use backend_erp.Accounting.Period.{get_active_period_for_date}
use backend_erp.Accounting.Journal.Reversal.{auto_post}
use backend_erp.Accounting.Kept.{IsKept, generate-IsKept}
use backend_erp.Accounting.Reach.{Step-IsKept, auto_posted}
use backend_erp.Payables.PaymentTables.{
  ApPayment, Allocation, Payments, AllocationDto, PaymentDto, in_ledger,
}
use backend_erp.Payables.Allocations.{allocate_all}
use backend_erp.Payables.Payments.{
  total_amount, check_payment, check_allocations, cash_account, payment_entry, new_payment,
  insert_payment, post_payment, create_payment, has_bad_invoice,
}
use backend_erp.Payables.Paid.{paid_by, AreRows, allocate_all-AreRows}

pub record IsPaid (s : Payments) : Type 0 where
  pub rows : AreRows s
  pub kept : IsKept s.books
  pub sums : All (λ p. p.amount ≡ paid_by p.id s.allocations) s.ap_payments
  pub known_payments : All (λ p. p.id < s.next_payment) s.ap_payments
  pub known_allocations : All (λ a. a.ap_payment_id < s.next_payment) s.allocations

in_ledger-result :
    {A : Type 0} (m : Action Books A) (a : A) (s s' : Payments)
    → in_ledger m s ≡ ok (a, s')
    → (b : Books) × (m s.books ≡ ok (a, b)) × (s' ≡ record s { books = b })
in_ledger-result {A} m a s s' h = go (m s.books) refl h
  where
    go :
        (q : Result (A × Books))
        → m s.books ≡ q
        → (elim q as (λ _. Result (A × Payments)) [
          | ok r ↦ ok (r.0, record s { books = r.1 })
          | err e ↦ err e
        ])
          ≡ ok (a, s')
        → (b : Books) × (m s.books ≡ ok (a, b)) × (s' ≡ record s { books = b })
    go (ok (x, t)) e k = (t, ground (arith, e, k), ground (arith, k))
    go (err x) e k = cc

check_allocations-same :
    (supplier_id : ℕ) (as_ : List AllocationDto) (s s' : Payments)
    → check_allocations supplier_id as_ s ≡ ok (tt, s')
    → s' ≡ s
check_allocations-same supplier_id [] s s' h = ground arith
check_allocations-same supplier_id (a ∷ as_) s s' h =
    ground (arith, check_allocations-same supplier_id as_ s s')

check_payment-same :
    (dto : PaymentDto) (s s' : Payments) → check_payment dto s ≡ ok (tt, s') → s' ≡ s
check_payment-same dto s s' h =
    check_allocations-same dto.supplier_id dto.allocations s s' (ground arith)

in_ledger-same :
    {A : Type 0} (m : Action Books A) (a : A) (s s' : Payments)
    → ((b' : Books) → m s.books ≡ ok (a, b') → b' ≡ s.books)
    → in_ledger m s ≡ ok (a, s')
    → s' ≡ s
in_ledger-same m a s s' keeps h =
    let (b, x, e) = in_ledger-result m a s s' h in e ∙ ap (λ b. record s { books = b }) (keeps b x)

system_account-same :
    (key : SystemAccount) (a : Account) (s s' : Payments)
    → in_ledger (get_system_account key) s ≡ ok (a, s')
    → s' ≡ s
system_account-same key a s s' h =
    in_ledger-same (get_system_account key) a s s' (λ b. get_system_account-same key a s.books b) h

cash_account-same :
    (o : Option ℕ) (a : Account) (s s' : Payments) → cash_account o s ≡ ok (a, s') → s' ≡ s
cash_account-same none a s s' h = system_account-same cash a s s' h
cash_account-same (some n) a s s' h =
    elim (Option-cases (take_first (λ b. b.id == n) s.bank_accounts)) [
      | inl e ↦ ground (arith, e)
      | inr (ba, e) ↦
          let found : in_ledger (find_account ba.account_id) s ≡ ok (a, s') = ground (arith, e) in
          in_ledger-same (find_account ba.account_id) a s s'
            (λ b. find_account-same ba.account_id a s.books b) found
    ]

active_period-same :
    (date : ℕ) (p : Period) (s s' : Payments)
    → in_ledger (get_active_period_for_date date) s ≡ ok (p, s')
    → s' ≡ s
unfolding get_active_period_for_date
active_period-same date p s s' h = ground arith

module _ (clock : Clock) (pick : List LedgerRow → Option LedgerRow) where
  -- A payment that is in the books, before its allocations.
  record IsPosted (dto : PaymentDto) (s s' : Payments) (p : ApPayment) (b : Books) : Type 0 where
    id : p.id ≡ s.next_payment
    amount : p.amount ≡ total_amount dto.allocations
    kept : IsKept b
    result : s' ≡ insert_payment p (record s { books = b })

  post_payment-IsPosted :
      (dto : PaymentDto) (period_id ap_id cash_id by : ℕ) (p : ApPayment) (s s' : Payments)
      → post_payment clock pick dto period_id ap_id cash_id by s ≡ ok (p, s')
      → IsKept s.books
      → (b : Books) × IsPosted dto s s' p b
  post_payment-IsPosted dto period_id ap_id cash_id by p s s' h k =
      let (n, s1, x1, y1) = >>=-eq-ok (in_ledger (generate clock apv)) _ s h in
      let (b1, e1, r1) = in_ledger-result (generate clock apv) n s s1 x1 in
      let entry = payment_entry dto period_id ap_id cash_id in
      let (j, s2, x2, y2) =
        >>=-eq-ok (in_ledger (auto_post clock pick transaction entry by)) _ s1 y1 in
      let (b2, e2, r2) = in_ledger-result (auto_post clock pick transaction entry by) j s1 s2 x2 in
      let k1 : IsKept s1.books =
        subst (λ z. IsKept z.books) (sym r1) (generate-IsKept clock apv n s.books b1 e1 k) in
      let q = new_payment dto n j by s2 in
      let made : p ≡ q = ground (arith, y2) in
      let result : s' ≡ insert_payment q s2 = ground (arith, y2) in
      let state : s2 ≡ record s { books = b2 } = r2 ∙ (λ i. record (r1 i) { books = b2 }) in
      (
        b2,
        record {
          id = ap (λ z. z.id) made ∙ ap (λ z. z.next_payment) state;
          amount = ap (λ z. z.amount) made;
          kept = Step-IsKept pick s1.books b2 (auto_posted clock transaction entry by j e2) k1;
          result = result ∙ (λ i. insert_payment (sym made i) (state i));
        },
      )

fresh_sum : (n : ℕ) (xs : List Allocation) → All (λ a. a.ap_payment_id < n) xs → paid_by n xs ≡ 0
fresh_sum n xs h =
    sum_of-cong _ (λ _. 0) xs (All-map _ _ xs (λ a lt. ground (arith, lt)) h) ∙ sum_of-zero xs

-- A payment with its allocations.
allocated-IsPaid :
    (dto : PaymentDto) (p : ApPayment) (b : Books) (s s' : Payments)
    → p.id ≡ s.next_payment
    → p.amount ≡ total_amount dto.allocations
    → IsKept b
    → allocate_all p.id dto.allocations (insert_payment p (record s { books = b })) ≡ ok (tt, s')
    → IsPaid s
    → IsPaid s'
allocated-IsPaid dto p b s s' id amount kept h w =
    let start = insert_payment p (record s { books = b }) in
    let start_rows : AreRows start = record {
      rows = w.rows.rows;
      known_rows = w.rows.known_rows;
      known_allocations = w.rows.known_allocations;
    } in
    let (rows, i) = allocate_all-AreRows p.id dto.allocations start s' h start_rows in
    let none_yet = fresh_sum s.next_payment s.allocations w.known_allocations in
    let first : p.amount ≡ paid_by p.id s'.allocations =
      ground
        (arith, amount, i.added p.id, subst (λ z. paid_by z s.allocations ≡ 0) (sym id) none_yet) in
    let older : All (λ q. q.amount ≡ paid_by q.id s'.allocations) s.ap_payments =
      All-map _ _ s.ap_payments (λ q h. ground (arith, h.0, h.1, id, i.added q.id))
        (All-zip _ _ s.ap_payments w.sums w.known_payments) in
    record {
      rows = rows;
      kept = subst IsKept (sym i.books) kept;
      sums =
          subst (All (λ q. q.amount ≡ paid_by q.id s'.allocations)) (sym i.payments) (first, older);
      known_payments =
          subst (λ n. All (λ q. q.id < n) s'.ap_payments) (sym i.next)
            (subst (All (λ q. q.id < suc s.next_payment)) (sym i.payments) (
              omega (arith, id),
              All-map _ _ s.ap_payments (λ q lt. omega (arith, lt)) w.known_payments,
            ));
      known_allocations =
          subst (λ n. All (λ a. a.ap_payment_id < n) s'.allocations) (sym i.next)
            (i.fresh (All-map _ _ s.allocations (λ a lt. omega (arith, lt)) w.known_allocations)
              (omega (arith, id)));
    }

module _ (clock : Clock) (pick : List LedgerRow → Option LedgerRow) where
  pub create_payment-IsPaid :
      (dto : PaymentDto) (by : ℕ) (p : ApPayment) (s s' : Payments)
      → create_payment clock pick dto by s ≡ ok (p, s')
      → IsPaid s
      → IsPaid s'
  unfolding create_payment
  create_payment-IsPaid dto by p s s' h w =
      let (_, s1, x1, y1) = >>=-eq-ok (check_payment dto) _ s h in
      let (a, s2, x2, y2) = >>=-eq-ok (in_ledger (get_system_account SystemAccount.ap)) _ s1 y1 in
      let (c, s3, x3, y3) = >>=-eq-ok (cash_account dto.bank_account_id) _ s2 y2 in
      let (d, s4, x4, y4) =
        >>=-eq-ok (in_ledger (get_active_period_for_date dto.payment_date)) _ s3 y3 in
      let (_, s5, x5, y5) = >>=-eq-ok (check_allocations dto.supplier_id dto.allocations) _ s4 y4 in
      let same : s5 ≡ s =
        check_allocations-same dto.supplier_id dto.allocations s4 s5 x5
        ∙ active_period-same dto.payment_date d s3 s4 x4
        ∙ cash_account-same dto.bank_account_id c s2 s3 x3
        ∙ system_account-same SystemAccount.ap a s1 s2 x2
        ∙ check_payment-same dto s s1 x1 in
      elim (Bool-cases (exists_where (has_bad_invoice s5) dto.allocations)) [
        | inl e ↦ cc (rw e at y5)
        | inr e ↦
            let (q, s6, x6, y6) =
              >>=-eq-ok (post_payment clock pick dto d.id a.id c.id by) _ s5 (rw e at y5) in
            let (_, s7, x7, y7) = >>=-eq-ok (allocate_all q.id dto.allocations) _ s6 y6 in
            let start = subst IsPaid (sym same) w in
            let (b, r) =
              post_payment-IsPosted clock pick dto d.id a.id c.id by q s5 s6 x6 start.kept in
            let done : s' ≡ s7 = ground (arith, y7) in
            subst IsPaid (sym done) (
              allocated-IsPaid dto q b s5 s7 r.id r.amount r.kept
                (subst (λ z. allocate_all q.id dto.allocations z ≡ ok (tt, s7)) r.result x7) start)
      ]
