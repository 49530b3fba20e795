-- ===== src/Accounting/Reports.antt =====
-- src/modules/accounting/services/general-ledger.service.ts: the trial balance, the profit and loss
-- account and the balance sheet of a period, each from one grouped query over the general ledger.
pub mod Equation
use backend_erp.Prelude.{
  ℕ, ◌==◌, Bool, true, false, ◌&&◌, Option, none, some, List, [], ◌∷◌, ltb, if◌then◌else◌, sum_of,
  select_where, take_first, exists_where,
}
use backend_erp.Prelude.Int.{ℤ, pos, magnitude, ◌+ℤ◌, ◌-ℤ◌}
use backend_erp.Database.{Action, not_found, ◌>>=◌, ◌>>◌, gets, or_throw}
use backend_erp.Accounting.Schema.{
  AccountType, asset, liability, equity, revenue, expense, cost_of_goods, Account, LedgerRow, Books,
}
use backend_erp.Accounting.Period.{find_period}
use backend_erp.Accounting.Journal.Entry.{difference, tolerance}
use backend_erp.Accounting.Journal.Posting.{is_row_of}

-- a row of the grouped query
pub record Sums : Type 0 where
  pub account_type : AccountType
  pub total_debit : ℕ
  pub total_credit : ℕ

abbrev pub sums_of : ℕ → List LedgerRow → Account → Sums
sums_of period_id ledger a =
    let rows = select_where (is_row_of a.id period_id) ledger in
    record {
      account_type = a.account_type;
      total_debit = sum_of (λ r. r.debit) rows;
      total_credit = sum_of (λ r. r.credit) rows;
    }

-- GROUP BY account, over the join with `accounts`: a group for each account that has a row
abbrev pub group_by_account : (AccountType → Bool) → ℕ → List LedgerRow → List Account → List Sums
group_by_account test period_id ledger [] = []
group_by_account test period_id ledger (a ∷ accounts) =
    if test a.account_type && exists_where (is_row_of a.id period_id) ledger
    then sums_of period_id ledger a ∷ group_by_account test period_id ledger accounts
    else group_by_account test period_id ledger accounts

pub record TrialBalance : Type 0 where
  pub balances : List Sums
  pub total_debit : ℕ
  pub total_credit : ℕ
  pub is_balanced : Bool

abbrev pub any_type : AccountType → Bool
any_type _ = true

abbrev pub trial_balance : List Sums → TrialBalance
trial_balance balances =
    let debit = sum_of (λ s. s.total_debit) balances in
    let credit = sum_of (λ s. s.total_credit) balances in
    record {
      balances = balances;
      total_debit = debit;
      total_credit = credit;
      is_balanced = ltb (difference debit credit) tolerance;
    }

-- `getTrialBalance`
unfoldable pub get_trial_balance : ℕ → Action Books TrialBalance
get_trial_balance period_id = do
  or_throw (← gets (λ b. find_period period_id b.periods)) not_found
  gets (λ b. trial_balance (group_by_account any_type period_id b.ledger b.accounts))

-- credits less debits, of the accounts of one type
abbrev pub credit_balance : (AccountType → Bool) → List Sums → ℤ
credit_balance test [] = pos 0
credit_balance test (s ∷ sums) =
    if test s.account_type
    then credit_balance test sums +ℤ (pos s.total_credit -ℤ pos s.total_debit)
    else credit_balance test sums

-- debits less credits, of the accounts of one type
abbrev pub debit_balance : (AccountType → Bool) → List Sums → ℤ
debit_balance test [] = pos 0
debit_balance test (s ∷ sums) =
    if test s.account_type
    then debit_balance test sums +ℤ (pos s.total_debit -ℤ pos s.total_credit)
    else debit_balance test sums

abbrev pub is_revenue : AccountType → Bool
is_revenue revenue = true
is_revenue _ = false

abbrev pub is_cost_of_goods : AccountType → Bool
is_cost_of_goods cost_of_goods = true
is_cost_of_goods _ = false

abbrev pub is_expense : AccountType → Bool
is_expense expense = true
is_expense _ = false

abbrev pub is_asset : AccountType → Bool
is_asset asset = true
is_asset _ = false

abbrev pub is_liability : AccountType → Bool
is_liability liability = true
is_liability _ = false

abbrev pub is_equity : AccountType → Bool
is_equity equity = true
is_equity _ = false

abbrev pub in_profit_loss : AccountType → Bool
in_profit_loss revenue = true
in_profit_loss expense = true
in_profit_loss cost_of_goods = true
in_profit_loss _ = false

abbrev pub in_balance_sheet : AccountType → Bool
in_balance_sheet asset = true
in_balance_sheet liability = true
in_balance_sheet equity = true
in_balance_sheet _ = false

pub record ProfitLoss : Type 0 where
  pub total_revenue : ℤ
  pub total_cogs : ℤ
  pub gross_profit : ℤ
  pub total_expense : ℤ
  pub net_income : ℤ

abbrev pub profit_loss : List Sums → ProfitLoss
profit_loss rows =
    let total_revenue = credit_balance is_revenue rows in
    let total_cogs = debit_balance is_cost_of_goods rows in
    let gross_profit = total_revenue -ℤ total_cogs in
    let total_expense = debit_balance is_expense rows in
    record {
      total_revenue = total_revenue;
      total_cogs = total_cogs;
      gross_profit = gross_profit;
      total_expense = total_expense;
      net_income = gross_profit -ℤ total_expense;
    }

-- `getProfitLoss`
unfoldable pub get_profit_loss : ℕ → Action Books ProfitLoss
get_profit_loss period_id = do
  or_throw (← gets (λ b. find_period period_id b.periods)) not_found
  gets (λ b. profit_loss (group_by_account in_profit_loss period_id b.ledger b.accounts))

-- `Math.abs(x) < 0.01`
abbrev pub is_near_zero : ℤ → Bool
is_near_zero x = ltb (magnitude x) tolerance

pub record BalanceSheet : Type 0 where
  pub total_assets : ℤ
  pub total_liabilities : ℤ
  pub total_equity : ℤ
  pub is_balanced : Bool

abbrev pub balance_sheet : List Sums → BalanceSheet
balance_sheet rows =
    let total_assets = debit_balance is_asset rows in
    let total_liabilities = credit_balance is_liability rows in
    let total_equity = credit_balance is_equity rows in
    record {
      total_assets = total_assets;
      total_liabilities = total_liabilities;
      total_equity = total_equity;
      is_balanced = is_near_zero (total_assets -ℤ (total_liabilities +ℤ total_equity));
    }

-- `getBalanceSheet`
unfoldable pub get_balance_sheet : ℕ → Action Books BalanceSheet
get_balance_sheet period_id = do
  or_throw (← gets (λ b. find_period period_id b.periods)) not_found
  gets (λ b. balance_sheet (group_by_account in_balance_sheet period_id b.ledger b.accounts))
