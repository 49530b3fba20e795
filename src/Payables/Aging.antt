-- ===== src/Payables/Aging.antt =====
-- `getApAging` and `getArAging`: what is outstanding, by the days that it is overdue.
use backend_erp.Prelude.{
  ℕ, ◌+◌, ◌*◌, ◌==◌, ltb, leb, if◌then◌else◌, ◌≡◌, ◌&&◌, Bool, true, Option, none, some, List, [],
  ◌∷◌, arith, sum_of, select_where, map,
}
use backend_erp.Accounting.Schema.{ms_per_day}
use backend_erp.Payables.Schema.{
  ApTransaction, ArTransaction, Debts, is_unsettled, ap_outstanding, ar_outstanding,
}

-- `aging`
pub record Buckets : Type 0 where
  pub current : ℕ
  pub days30 : ℕ
  pub days60 : ℕ
  pub days90 : ℕ
  pub over90 : ℕ

abbrev pub no_debts : Buckets
no_debts = record { current = 0; days30 = 0; days60 = 0; days90 = 0; over90 = 0 }

-- `Math.floor((today - due_date) / day) <= days`, for the midnight of a due date
abbrev pub is_overdue_at_most : ℕ → ℕ → ℕ → Bool
is_overdue_at_most now days due_date = ltb now ((due_date + days + 1) * ms_per_day)

-- a turn of the loop: the due date and the outstanding amount of a row
pub record Debt : Type 0 where
  pub due_date : ℕ
  pub outstanding : ℕ

abbrev pub add_debt : ℕ → Debt → Buckets → Buckets
add_debt now d b =
    if is_overdue_at_most now 0 d.due_date
    then record b { current = b.current + d.outstanding }
    else (if is_overdue_at_most now 30 d.due_date
        then record b { days30 = b.days30 + d.outstanding }
        else (if is_overdue_at_most now 60 d.due_date
            then record b { days60 = b.days60 + d.outstanding }
            else (if is_overdue_at_most now 90 d.due_date
                then record b { days90 = b.days90 + d.outstanding }
                else record b { over90 = b.over90 + d.outstanding })))

unfoldable pub add_debts : ℕ → List Debt → Buckets → Buckets
add_debts now [] b = b
add_debts now (d ∷ ds) b = add_debts now ds (add_debt now d b)

-- `Object.values(aging).reduce(…)`
abbrev pub total_of : Buckets → ℕ
total_of b = b.current + b.days30 + b.days60 + b.days90 + b.over90

pub record Aging : Type 0 where
  pub aging : Buckets
  pub total : ℕ

abbrev aging_of : ℕ → List Debt → Aging
aging_of now ds =
    let aging = add_debts now ds no_debts in record { aging = aging; total = total_of aging }

abbrev is_partner : Option ℕ → ℕ → Bool
is_partner none p = true
is_partner (some q) p = p == q

abbrev pub is_payable_of : Option ℕ → ApTransaction → Bool
is_payable_of supplier t = is_unsettled t.status && is_partner supplier t.supplier_id

abbrev pub debt_to : ApTransaction → Debt
debt_to t = record { due_date = t.due_date; outstanding = ap_outstanding t }

-- `getApAging`
unfoldable pub get_ap_aging : ℕ → Option ℕ → Debts → Aging
get_ap_aging now supplier s =
    aging_of now (map debt_to (select_where (is_payable_of supplier) s.payables))

abbrev pub is_receivable_of : Option ℕ → ArTransaction → Bool
is_receivable_of customer t = is_unsettled t.status && is_partner customer t.customer_id

abbrev pub debt_of : ArTransaction → Debt
debt_of t = record { due_date = t.due_date; outstanding = ar_outstanding t }

-- `getArAging`
unfoldable pub get_ar_aging : ℕ → Option ℕ → Debts → Aging
get_ar_aging now customer s =
    aging_of now (map debt_of (select_where (is_receivable_of customer) s.receivables))

-- The rows that are more than `days` days overdue: due before the start of the day that lies `days`
-- days back.
abbrev pub overdue_beyond : ℕ → ℕ → List Debt → ℕ
overdue_beyond now days ds =
    sum_of (λ d. d.outstanding)
      (select_where (λ d. leb ((d.due_date + days + 1) * ms_per_day) now) ds)

-- What the loop has added: the buckets from each bound on hold what is overdue beyond the bound.
add_debts-sums :
    (now : ℕ) (ds : List Debt) (b : Buckets)
    → let c = add_debts now ds b in
      (total_of c ≡ total_of b + sum_of (λ d. d.outstanding) ds)
      × (c.over90 ≡ b.over90 + overdue_beyond now 90 ds)
      × (c.days90 + c.over90 ≡ b.days90 + b.over90 + overdue_beyond now 60 ds)
      × (c.days60 + c.days90 + c.over90 ≡ b.days60 + b.days90 + b.over90 + overdue_beyond now 30 ds)
      × (c.days30 + c.days60 + c.days90 + c.over90
          ≡ b.days30 + b.days60 + b.days90 + b.over90 + overdue_beyond now 0 ds)
unfolding add_debts
add_debts-sums now [] b = omega arith
add_debts-sums now (d ∷ ds) b = ground (arith, add_debts-sums now ds (add_debt now d b))

-- What an aging report promises about the debts that it is made of.
abbrev pub SumsUp : ℕ → List Debt → Aging → Type 0
SumsUp now ds a =
    let b = a.aging in
    (a.total ≡ sum_of (λ d. d.outstanding) ds)
    × (b.over90 ≡ overdue_beyond now 90 ds)
    × (b.days90 + b.over90 ≡ overdue_beyond now 60 ds)
    × (b.days60 + b.days90 + b.over90 ≡ overdue_beyond now 30 ds)
    × (b.days30 + b.days60 + b.days90 + b.over90 ≡ overdue_beyond now 0 ds)

aging_of-SumsUp : (now : ℕ) (ds : List Debt) → SumsUp now ds (aging_of now ds)
aging_of-SumsUp now ds = omega (arith, add_debts-sums now ds no_debts)

-- Both reports, of one partner or of all: the total is the sum of what is outstanding of the open and
-- partly paid rows, and the buckets from each bound on hold what is more than 90, 60, 30 and 0 days
-- overdue.
pub get_aging-SumsUp :
    (now : ℕ) (partner : Option ℕ) (s : Debts)
    → SumsUp now
        (map debt_to (select_where (is_payable_of partner) s.payables))
        (get_ap_aging now partner s)
      × SumsUp now
          (map debt_of (select_where (is_receivable_of partner) s.receivables))
          (get_ar_aging now partner s)
unfolding get_ap_aging get_ar_aging
get_aging-SumsUp now partner s = (aging_of-SumsUp now _, aging_of-SumsUp now _)
