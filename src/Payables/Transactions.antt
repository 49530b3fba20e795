-- ===== src/Payables/Transactions.antt =====
-- `createTransaction` of both services, and `updateReceived` of ar.service.ts.
use backend_erp.Prelude.{
  ℕ, suc, ◌==◌, ltb, leb, if◌then◌else◌, Option, none, some, ◌∷◌, take_first, exists_where,
  update_where, Bool, ◌&&◌,
}
use backend_erp.Database.{
  Action, not_found, check_violation, ◌>>=◌, ◌>>◌, pure, gets, or_throw, throw_if, modify,
}
use backend_erp.Payables.Schema.{
  DebtStatus, opened, partial, paid, ApTransaction, ArTransaction, Debts,
}

pub record DebtDto : Type 0 where
  pub invoice_id : ℕ
  pub partner_id : ℕ
  pub amount : ℕ
  pub transaction_date : ℕ
  pub due_date : ℕ

abbrev pub new_payable : DebtDto → Debts → ApTransaction
new_payable dto s = record {
  id = s.next_payable;
  vendor_invoice_id = dto.invoice_id;
  supplier_id = dto.partner_id;
  transaction_date = dto.transaction_date;
  due_date = dto.due_date;
  amount = dto.amount;
  paid_amount = 0;
  status = opened;
}

abbrev pub insert_payable : Option ApTransaction → DebtDto → Action Debts ℕ
insert_payable (some t) dto = pure t.id
insert_payable none dto = do
  new ← gets (new_payable dto)
  modify (λ s. record s { payables = new ∷ s.payables; next_payable = suc s.next_payable })
  pure new.id

-- `createTransaction` of ap.service.ts: the row of the invoice, which is made if there is none
unfoldable pub create_payable : DebtDto → Action Debts ℕ
create_payable dto = do
  existing ← gets (λ s. take_first (λ t. t.vendor_invoice_id == dto.invoice_id) s.payables)
  insert_payable existing dto

abbrev pub new_receivable : DebtDto → Debts → ArTransaction
new_receivable dto s = record {
  id = s.next_receivable;
  customer_invoice_id = dto.invoice_id;
  customer_id = dto.partner_id;
  transaction_date = dto.transaction_date;
  due_date = dto.due_date;
  amount = dto.amount;
  received_amount = 0;
  status = opened;
}

abbrev pub insert_receivable : Option ArTransaction → DebtDto → Action Debts ℕ
insert_receivable (some t) dto = pure t.id
insert_receivable none dto = do
  new ← gets (new_receivable dto)
  modify
      (λ s. record s { receivables = new ∷ s.receivables; next_receivable = suc s.next_receivable })
  pure new.id

-- `createTransaction` of ar.service.ts
unfoldable pub create_receivable : DebtDto → Action Debts ℕ
create_receivable dto = do
  existing ← gets (λ s. take_first (λ t. t.customer_invoice_id == dto.invoice_id) s.receivables)
  insert_receivable existing dto

-- `newStatus`
abbrev pub status_of : ℕ → ℕ → DebtStatus
status_of received amount =
    if leb amount received then paid else (if ltb 0 received then partial else opened)

abbrev pub with_received : ℕ → DebtStatus → ArTransaction → ArTransaction
with_received received status t = record t { received_amount = received; status = status }

abbrev pub exceeds : ℕ → ℕ → ArTransaction → Bool
exceeds transaction_id received t = t.id == transaction_id && ltb t.amount received

-- `updateReceived`, with the constraint ck_ar_transaction_received_amount
unfoldable pub update_received : ℕ → ℕ → Action Debts (Unit {0})
update_received transaction_id received = do
  art ← or_throw (← gets (λ s. take_first (λ t. t.id == transaction_id) s.receivables)) not_found
  throw_if (← gets (λ s. exists_where (exceeds transaction_id received) s.receivables))
      check_violation
  modify (λ s. record s {
    receivables =
        update_where (λ t. t.id == transaction_id)
          (with_received received (status_of received art.amount)) s.receivables;
  })
