-- ===== src/Accounting/Reports/Equation.antt =====
-- The three reports of a period belong together: assets are liabilities, equity and net income.
use mathlib.Core.Path.{subst₂}
use backend_erp.Prelude.{
  ℕ, ◌+◌, ◌==◌, if◌then◌else◌, ◌≡◌, ◌≢◌, refl, sym, subst, ap, ◌∙◌, Bool, true, false, ◌&&◌, inl,
  inr, List, [], ◌∷◌, arith, Bool-cases, All, sum_of, select_where, exists_where,
}
use backend_erp.Prelude.Int.{ℤ, pos, pos_part, neg_part, ◌+ℤ◌, ◌-ℤ◌, int_laws}
use backend_erp.Database.{ok}
use backend_erp.Accounting.Schema.{
  AccountType, asset, liability, equity, revenue, expense, cost_of_goods, Account, LedgerRow, Books,
}
use backend_erp.Accounting.Journal.Posting.{is_row_of}
use backend_erp.Accounting.Journal.Sums.{ledger_sum}
use backend_erp.Accounting.Journal.Trial.{IsSound}
use backend_erp.Accounting.Reports.{
  Sums, group_by_account, TrialBalance, any_type, get_trial_balance, credit_balance, debit_balance,
  is_revenue, is_cost_of_goods, is_expense, is_asset, is_liability, is_equity, in_profit_loss,
  in_balance_sheet, ProfitLoss, profit_loss, get_profit_loss, is_near_zero, BalanceSheet,
  balance_sheet, get_balance_sheet,
}

-- The primary key of `accounts`.
abbrev pub UniqueIds : List Account → Type 0
UniqueIds [] = Unit
UniqueIds (a ∷ rest) = All (λ c. c.id ≢ a.id) rest × UniqueIds rest

-- The foreign key of `general_ledger.account_id`.
abbrev pub KnownAccounts : List Account → List LedgerRow → Type 0
KnownAccounts accounts = All (λ r. exists_where (λ a. a.id == r.account_id) accounts ≡ true)

-- The sum of a column over the rows of each account in turn.
abbrev by_account : (LedgerRow → ℕ) → ℕ → List LedgerRow → List Account → ℕ
by_account column period_id ledger =
    sum_of (λ a. sum_of column (select_where (is_row_of a.id period_id) ledger))

by_account-absent :
    (column : LedgerRow → ℕ) (p : ℕ) (r : LedgerRow) (ledger : List LedgerRow)
    (accounts : List Account)
    → All (λ a. a.id ≢ r.account_id) accounts
    → by_account column p (r ∷ ledger) accounts ≡ by_account column p ledger accounts
by_account-absent column p r ledger [] h = refl
by_account-absent column p r ledger (a ∷ accounts) h =
    ground (arith, by_account-absent column p r ledger accounts h.1)

by_account-cons :
    (column : LedgerRow → ℕ) (p : ℕ) (r : LedgerRow) (ledger : List LedgerRow)
    (accounts : List Account)
    → UniqueIds accounts
    → exists_where (λ a. a.id == r.account_id) accounts ≡ true
    → by_account column p (r ∷ ledger) accounts
      ≡ (if r.period_id == p then column r else 0) + by_account column p ledger accounts
by_account-cons column p r ledger [] u h = cc
by_account-cons column p r ledger (a ∷ accounts) u h = elim (Bool-cases (a.id == r.account_id)) [
  | inl here ↦
      let same : a.id ≡ r.account_id = ground arith in
      ground (
        arith,
        by_account-absent column p r ledger accounts
            (subst (λ n. All (λ c. c.id ≢ n) accounts) same u.0),
      )
  | inr there ↦ ground (arith, by_account-cons column p r ledger accounts u.1)
]

-- Grouping by account loses no row and counts none twice.
pub by_account-eq-ledger_sum :
    (column : LedgerRow → ℕ) (p : ℕ) (ledger : List LedgerRow) (accounts : List Account)
    → UniqueIds accounts
    → KnownAccounts accounts ledger
    → by_account column p ledger accounts ≡ ledger_sum column p ledger
by_account-eq-ledger_sum column p [] accounts u k = by_account-nil accounts
  where
    by_account-nil : (accounts : List Account) → by_account column p [] accounts ≡ 0
    by_account-nil [] = refl
    by_account-nil (a ∷ rest) = omega (arith, by_account-nil rest)
by_account-eq-ledger_sum column p (r ∷ ledger) accounts u k = ground (
  arith,
  by_account-cons column p r ledger accounts u k.0,
  by_account-eq-ledger_sum column p ledger accounts u k.1,
)

no_rows :
    (column : LedgerRow → ℕ) (i p : ℕ) (ledger : List LedgerRow)
    → exists_where (is_row_of i p) ledger ≡ false
    → sum_of column (select_where (is_row_of i p) ledger) ≡ 0
no_rows column i p [] h = refl
no_rows column i p (r ∷ ledger) h = ground (arith, no_rows column i p ledger)

abbrev pub debits : LedgerRow → ℕ
debits r = r.debit

abbrev pub credits : LedgerRow → ℕ
credits r = r.credit

-- Debit accounts and all credits against credit accounts and all debits.
abbrev Equation : List Sums → List Sums → ℕ → ℕ → Type 0
Equation sheet result d c =
    let left =
      debit_balance is_asset sheet
      +ℤ debit_balance is_cost_of_goods result
      +ℤ debit_balance is_expense result
      +ℤ pos c in
    let right =
      credit_balance is_liability sheet
      +ℤ credit_balance is_equity sheet
      +ℤ credit_balance is_revenue result
      +ℤ pos d in
    pos_part left + neg_part right ≡ pos_part right + neg_part left

-- One more account keeps it, whichever type the account has.
Equation-cons :
    (t : AccountType) (has_rows : Bool) (s c : List Sums) (d e x y : ℕ)
    → (has_rows ≡ false → (x ≡ 0) × (y ≡ 0))
    → Equation s c d e
    → let sum : Sums = record { account_type = t; total_debit = x; total_credit = y } in
      Equation
        (if in_balance_sheet t && has_rows then sum ∷ s else s)
        (if in_profit_loss t && has_rows then sum ∷ c else c)
        (x + d)
        (y + e)
Equation-cons asset true s c d e x y z h = omega (int_laws, h)
Equation-cons liability true s c d e x y z h = omega (int_laws, h)
Equation-cons equity true s c d e x y z h = omega (int_laws, h)
Equation-cons revenue true s c d e x y z h = omega (int_laws, h)
Equation-cons expense true s c d e x y z h = omega (int_laws, h)
Equation-cons cost_of_goods true s c d e x y z h = omega (int_laws, h)
Equation-cons asset false s c d e x y z h = omega (int_laws, z refl, h)
Equation-cons liability false s c d e x y z h = omega (int_laws, z refl, h)
Equation-cons equity false s c d e x y z h = omega (int_laws, z refl, h)
Equation-cons revenue false s c d e x y z h = omega (int_laws, z refl, h)
Equation-cons expense false s c d e x y z h = omega (int_laws, z refl, h)
Equation-cons cost_of_goods false s c d e x y z h = omega (int_laws, z refl, h)

all_accounts-Equation :
    (p : ℕ) (ledger : List LedgerRow) (accounts : List Account)
    → Equation
        (group_by_account in_balance_sheet p ledger accounts)
        (group_by_account in_profit_loss p ledger accounts)
        (by_account debits p ledger accounts)
        (by_account credits p ledger accounts)
all_accounts-Equation p ledger [] = omega int_laws
all_accounts-Equation p ledger (a ∷ accounts) =
    Equation-cons a.account_type (exists_where (is_row_of a.id p) ledger) _ _ _ _ _ _
      (λ e. (no_rows debits a.id p ledger e, no_rows credits a.id p ledger e))
      (all_accounts-Equation p ledger accounts)

solve_equation :
    (a l q r c x : ℤ) (d e : ℕ)
    → e ≡ d
    → pos_part (a +ℤ c +ℤ x +ℤ pos e) + neg_part (l +ℤ q +ℤ r +ℤ pos d)
      ≡ pos_part (l +ℤ q +ℤ r +ℤ pos d) + neg_part (a +ℤ c +ℤ x +ℤ pos e)
    → (a ≡ l +ℤ q +ℤ (r -ℤ c -ℤ x)) × (is_near_zero (a -ℤ (l +ℤ q)) ≡ is_near_zero (r -ℤ c -ℤ x))
solve_equation a l q r c x d e same h =
    let gap : a -ℤ (l +ℤ q) ≡ r -ℤ c -ℤ x = omega int_laws in (omega int_laws, ap is_near_zero gap)

group-by_account :
    (p : ℕ) (ledger : List LedgerRow) (accounts : List Account)
    → let rows = group_by_account any_type p ledger accounts in
      (sum_of (λ s. s.total_debit) rows ≡ by_account debits p ledger accounts)
      × (sum_of (λ s. s.total_credit) rows ≡ by_account credits p ledger accounts)
group-by_account p ledger [] = (refl, refl)
group-by_account p ledger (a ∷ accounts) =
    let (d, c) = group-by_account p ledger accounts in
    elim (Bool-cases (exists_where (is_row_of a.id p) ledger)) [
      | inl has_rows ↦ rw has_rows (omega arith)
      | inr none_of_it ↦ rw none_of_it (
          omega (
            arith,
            no_rows debits a.id p ledger none_of_it,
            no_rows credits a.id p ledger none_of_it,
          ))
    ]

module _ (p : ℕ) (b : Books) (unique : UniqueIds b.accounts)
    (known : KnownAccounts b.accounts b.ledger) (sound : IsSound b) where
  -- In sound books whose accounts have identifiers of their own and whose ledger names only existing
  -- accounts, the trial balance of a period shows the sums of its ledger and is balanced.
  pub get_trial_balance-balanced :
      (t : TrialBalance)
      → get_trial_balance p b ≡ ok (t, b)
      → (t.total_debit ≡ ledger_sum debits p b.ledger)
        × (t.total_credit ≡ ledger_sum credits p b.ledger)
        × (t.is_balanced ≡ true)
  unfolding get_trial_balance
  get_trial_balance-balanced t h =
      let (d, c) = group-by_account p b.ledger b.accounts in
      let d' = d ∙ by_account-eq-ledger_sum debits p b.ledger b.accounts unique known in
      let c' = c ∙ by_account-eq-ledger_sum credits p b.ledger b.accounts unique known in
      let same = sound.trial p in
      (ground (arith, d'), ground (arith, c'), ground (arith, d', c', same))

  -- In sound books whose accounts have identifiers of their own and whose ledger names only existing
  -- accounts, the assets of a period are its liabilities, its equity and its net income. The
  -- balance sheet leaves the net income out, so it reports itself balanced exactly when the net
  -- income is less than 0.01 from zero.
  pub balance_sheet_equation :
      (sheet : BalanceSheet) (result : ProfitLoss)
      → get_balance_sheet p b ≡ ok (sheet, b)
      → get_profit_loss p b ≡ ok (result, b)
      → (sheet.total_assets ≡ sheet.total_liabilities +ℤ sheet.total_equity +ℤ result.net_income)
        × (sheet.is_balanced ≡ is_near_zero result.net_income)
  unfolding get_balance_sheet get_profit_loss
  balance_sheet_equation sheet result h k =
      let rows = group_by_account in_balance_sheet p b.ledger b.accounts in
      let others = group_by_account in_profit_loss p b.ledger b.accounts in
      let e : sheet ≡ balance_sheet rows = ground arith in
      let f : result ≡ profit_loss others = ground arith in
      let zero : by_account debits p b.ledger b.accounts
          ≡ by_account credits p b.ledger b.accounts =
        by_account-eq-ledger_sum debits p b.ledger b.accounts unique known
        ∙ sound.trial p
        ∙ sym (by_account-eq-ledger_sum credits p b.ledger b.accounts unique known) in
      let both = all_accounts-Equation p b.ledger b.accounts in
      subst₂
        (λ s r.
          (s.total_assets ≡ s.total_liabilities +ℤ s.total_equity +ℤ r.net_income)
          × (s.is_balanced ≡ is_near_zero r.net_income))
        (sym e) (sym f) (solve_equation _ _ _ _ _ _ _ _ (sym zero) both)
