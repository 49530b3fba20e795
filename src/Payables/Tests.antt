-- ===== src/Payables/Tests.antt =====
-- Runs of the payable and receivable services, and the theorems at concrete inputs.
use backend_erp.Prelude.{◌*◌, ◌≡◌, refl, none, [], ◌∷◌, map, select_where}
use backend_erp.Database.{Result, ok, err}
use backend_erp.Accounting.Schema.{ms_per_day}
use backend_erp.Payables.Schema.{partial, ApTransaction, Debts}
use backend_erp.Payables.Transactions.{DebtDto, create_receivable, update_received}
use backend_erp.Payables.Aging.{
  SumsUp, is_payable_of, debt_to, get_ap_aging, is_receivable_of, debt_of, get_ar_aging,
  get_aging-SumsUp, add_debts,
}
use backend_erp.Payables.Settled.{IsSettled, Reach, here, next, created, updated, Reach-IsSettled}

abbrev payable : ApTransaction
payable = record {
  id = 1;
  vendor_invoice_id = 3;
  supplier_id = 1;
  transaction_date = 0;
  due_date = 10;
  amount = 900;
  paid_amount = 200;
  status = partial;
}

abbrev debts : Debts
debts = record { payables = payable ∷ []; receivables = []; next_payable = 2; next_receivable = 1 }

abbrev dto : DebtDto
dto = record { invoice_id = 5; partner_id = 2; amount = 1000; transaction_date = 0; due_date = 30 }

abbrev after : {A : Type 0} → Result (A × Debts) → Debts
after (ok r) = r.1
after (err _) = debts

abbrev owed : Debts
owed = after (create_receivable dto debts)

abbrev half : Debts
half = after (update_received 1 500 owed)

dto_created : create_receivable dto debts ≡ ok (1, owed)
unfolding create_receivable
dto_created = refl

half_received : update_received 1 500 owed ≡ ok (tt, half)
unfolding create_receivable update_received
half_received = refl

debts-IsSettled : IsSettled debts
debts-IsSettled = record { rows = tt; distinct = tt; known = tt }

half-Reach : Reach debts half
half-Reach = next (next here (created dto 1 dto_created)) (updated 1 500 half_received)

Reach-IsSettled_example : IsSettled half
Reach-IsSettled_example = Reach-IsSettled debts half half-Reach debts-IsSettled

-- on day 55 the payable is 45 days overdue, and the receivable 25
aging_at_day_55 :
    ((get_ap_aging (55 * ms_per_day) none half).aging.days60 ≡ 700)
    × ((get_ar_aging (55 * ms_per_day) none half).aging.days30 ≡ 500)
unfolding get_ap_aging get_ar_aging add_debts create_receivable update_received
aging_at_day_55 = (refl, refl)

get_aging-SumsUp_example :
    SumsUp
      (55 * ms_per_day)
      (map debt_to (select_where (is_payable_of none) half.payables))
      (get_ap_aging (55 * ms_per_day) none half)
    × SumsUp
        (55 * ms_per_day)
        (map debt_of (select_where (is_receivable_of none) half.receivables))
        (get_ar_aging (55 * ms_per_day) none half)
get_aging-SumsUp_example = get_aging-SumsUp (55 * ms_per_day) none half
