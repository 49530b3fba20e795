-- ===== src/Accounting/Tests.antt =====
-- Runs of the accounting services on a small set of books, and the theorems at concrete inputs.
use backend_erp.Prelude.{
  ℕ, ◌*◌, ◌/◌, ◌+◌, ◌≡◌, ◌≢◌, refl, true, Option, none, some, List, [], ◌∷◌, arith,
}
use backend_erp.Prelude.Int.{pos, ◌+ℤ◌, ◌-ℤ◌}
use backend_erp.Database.{ok, err, pool, transaction, conflict, in_failed_transaction}
use backend_erp.Accounting.Schema.{
  YearStatus, PeriodStatus, Period, AccountType, asset, revenue, general, Books, Clock, LedgerRow,
  Account, DocumentNumber, Journal, JournalLine, je, ms_per_day, delivery_order, find_journal,
}
use backend_erp.Accounting.Numbering.{generate}
use backend_erp.Accounting.Period.{get_active_period_for_date, update_period_status}
use backend_erp.Accounting.Journal.Entry.{JournalDto, new_journal, create}
use backend_erp.Accounting.Journal.Posting.{
  lines_of, post_line, post_lines, post, new_balance, LatestFirst,
}
use backend_erp.Accounting.Journal.Reversal.{AutoPostDto, with_period, post_new, auto_post, reverse}
use backend_erp.Accounting.Journal.Sums.{ledger_sum}
use backend_erp.Accounting.Journal.Trial.{IsSound}
use backend_erp.Accounting.Journal.Running.{AllRunning, DistinctAccounts, AreFresh}
use backend_erp.Accounting.Journal.Balances.{AllAgree}
use backend_erp.Accounting.Journal.Idempotence.{auto_post_again}
use backend_erp.Accounting.Journal.Ledger.{
  post-AllAgree, oldest_latest, oldest_latest-LatestFirst, repeated_account_loses_line,
}
use backend_erp.Accounting.Refusals.{auto_post_on_last_day, create_off_balance}
use backend_erp.Accounting.Kept.{IsKept}
use backend_erp.Accounting.Reach.{Step, next, here, auto_posted, Step-IsKept, Reach-IsKept}
use backend_erp.Accounting.Reports.{
  any_type, trial_balance, TrialBalance, BalanceSheet, ProfitLoss, is_near_zero, get_trial_balance,
  get_balance_sheet, get_profit_loss, group_by_account, in_balance_sheet, in_profit_loss,
  balance_sheet, profit_loss,
}
use backend_erp.Accounting.Reports.Equation.{
  UniqueIds, KnownAccounts, get_trial_balance-balanced, balance_sheet_equation, debits, credits,
}

abbrev account_of : ℕ → AccountType → Account
account_of n t = record { id = n; account_type = t; system_account = none; is_active = true }

abbrev books : Books
books = record {
  fiscal_years = record { id = 1; start_date = 0; end_date = 364; status = YearStatus.opened } ∷ [];
  periods =
      record {
        id = 1;
        fiscal_year_id = 1;
        period_number = 1;
        start_date = 0;
        end_date = 30;
        status = PeriodStatus.opened;
      }
      ∷ [];
  accounts = account_of 1 asset ∷ account_of 2 revenue ∷ [];
  journals = [];
  lines = [];
  ledger = [];
  balances = [];
  counters = [];
  next_year = 2;
  next_period = 2;
  next_journal = 1;
  next_line = 1;
}

abbrev clock : Clock
clock = record { now = 20 * ms_per_day + 5; year = 2026 }

abbrev head_of : List LedgerRow → Option LedgerRow
head_of [] = none
head_of (r ∷ _) = some r

abbrev sale : AutoPostDto
sale = record {
  period_id = none;
  entry_date = 20 * ms_per_day + 5;
  entry_type = general;
  reference_type = some delivery_order;
  reference_id = some 77;
  lines =
      record { account_id = 1; line_number = 1; debit = some 100; credit = none }
      ∷ record { account_id = 2; line_number = 2; debit = none; credit = some 100 }
      ∷ [];
}

abbrev books_of : Books
books_of = elim (auto_post clock head_of pool sale 1 books) [ ok r ↦ r.1 | err _ ↦ books ]

sale_posted : auto_post clock head_of pool sale 1 books ≡ ok (1, books_of)
unfolding auto_post post_new create generate get_active_period_for_date post post_lines post_line
sale_posted = refl

books-IsKept : IsKept books
books-IsKept = record {
  calendar = record { dated = (omega arith, tt); apart = (tt, tt); in_open_year = (λ _. refl, tt) };
  drafts_open = tt;
  sound = record { totals = tt; known_journals = tt; known_lines = tt; trial = λ p. refl };
}

sale-Step : Step head_of books books_of
sale-Step = auto_posted clock pool sale 1 1 sale_posted

Reach-IsKept_example : IsKept books_of
Reach-IsKept_example = Reach-IsKept head_of books books_of (next here sale-Step) books-IsKept

auto_post_again_example :
    (auto_post clock head_of pool sale 1 books_of ≡ ok (1, books_of))
    × (auto_post clock head_of transaction sale 1 books_of ≡ err in_failed_transaction)
auto_post_again_example =
    auto_post_again clock head_of clock sale delivery_order 77 1 1 books books_of refl refl refl
      sale_posted

-- the sale as a draft
abbrev draft_of : JournalDto → Books
draft_of dto = elim (create clock dto 1 books) [ ok r ↦ r.1 | err _ ↦ books ]

abbrev journal_of : JournalDto → Journal
journal_of dto = new_journal dto 1 (record { doc_type = je; year = 2026; counter = 1 }) books

abbrev drafted : Books
drafted = draft_of (with_period sale 1)

abbrev drafted_sale : Journal
drafted_sale = journal_of (with_period sale 1)

abbrev posted_books : Books
posted_books = elim (post clock oldest_latest 1 2 drafted) [ ok r ↦ r.1 | err _ ↦ books ]

sale_post : post clock oldest_latest 1 2 drafted ≡ ok (tt, posted_books)
unfolding create generate post post_lines post_line
sale_post = refl

drafted-lines : find_journal 1 drafted.journals ≡ some drafted_sale
unfolding create generate
drafted-lines = refl

drafted-DistinctAccounts : DistinctAccounts (lines_of 1 drafted)
unfolding create generate
drafted-DistinctAccounts = ((omega arith, tt), (tt, tt))

drafted-AreFresh :
    AreFresh oldest_latest oldest_latest-LatestFirst clock drafted_sale (lines_of 1 drafted) drafted
unfolding create generate
drafted-AreFresh = (tt, (tt, tt))

drafted-AllRunning : AllRunning drafted.ledger
unfolding create generate
drafted-AllRunning = λ a p. tt

drafted-AllAgree : AllAgree drafted
unfolding create generate
drafted-AllAgree = λ a p. refl

post-AllAgree_example : AllRunning posted_books.ledger × AllAgree posted_books
post-AllAgree_example =
    post-AllAgree clock oldest_latest oldest_latest-LatestFirst 1 2 drafted posted_books
      drafted_sale sale_post drafted-lines drafted-DistinctAccounts drafted-AreFresh
      drafted-AllRunning drafted-AllAgree

books_of-IsSound : IsSound books_of
books_of-IsSound = (Step-IsKept head_of books books_of sale-Step books-IsKept).sound

books_of-UniqueIds : UniqueIds books_of.accounts
unfolding auto_post post_new create generate get_active_period_for_date post post_lines post_line
books_of-UniqueIds = ((omega arith, tt), (tt, tt))

books_of-KnownAccounts : KnownAccounts books_of.accounts books_of.ledger
unfolding auto_post post_new create generate get_active_period_for_date post post_lines post_line
books_of-KnownAccounts = (refl, (refl, tt))

abbrev sheet : BalanceSheet
sheet = balance_sheet (group_by_account in_balance_sheet 1 books_of.ledger books_of.accounts)

abbrev result : ProfitLoss
result = profit_loss (group_by_account in_profit_loss 1 books_of.ledger books_of.accounts)

abbrev trial : TrialBalance
trial = trial_balance (group_by_account any_type 1 books_of.ledger books_of.accounts)

sheet_read : get_balance_sheet 1 books_of ≡ ok (sheet, books_of)
unfolding get_balance_sheet auto_post post_new create generate get_active_period_for_date post
    post_lines post_line
sheet_read = refl

result_read : get_profit_loss 1 books_of ≡ ok (result, books_of)
unfolding get_profit_loss auto_post post_new create generate get_active_period_for_date post
    post_lines post_line
result_read = refl

trial_read : get_trial_balance 1 books_of ≡ ok (trial, books_of)
unfolding get_trial_balance auto_post post_new create generate get_active_period_for_date post
    post_lines post_line
trial_read = refl

balance_sheet_equation_example :
    (sheet.total_assets ≡ sheet.total_liabilities +ℤ sheet.total_equity +ℤ result.net_income)
    × (sheet.is_balanced ≡ is_near_zero result.net_income)
balance_sheet_equation_example =
    balance_sheet_equation 1 books_of books_of-UniqueIds books_of-KnownAccounts books_of-IsSound
      sheet result sheet_read result_read

get_trial_balance-balanced_example :
    (trial.total_debit ≡ ledger_sum debits 1 books_of.ledger)
    × (trial.total_credit ≡ ledger_sum credits 1 books_of.ledger)
    × (trial.is_balanced ≡ true)
get_trial_balance-balanced_example =
    get_trial_balance-balanced 1 books_of books_of-UniqueIds books_of-KnownAccounts books_of-IsSound
      trial trial_read

abbrev last_day : ℕ
last_day = 30 * ms_per_day + 5

abbrev late_sale : AutoPostDto
late_sale = record sale { entry_date = last_day }

abbrev first_period : Period
first_period = record {
  id = 1;
  fiscal_year_id = 1;
  period_number = 1;
  start_date = 0;
  end_date = 30;
  status = PeriodStatus.opened;
}

first_period_is_active : get_active_period_for_date last_day books ≡ ok (first_period, books)
unfolding get_active_period_for_date
first_period_is_active = refl

auto_post_on_last_day_example :
    (last_day / ms_per_day ≡ 30) × (auto_post clock head_of pool late_sale 1 books ≡ err conflict)
auto_post_on_last_day_example =
    auto_post_on_last_day clock head_of pool late_sale 1 books first_period refl
      first_period_is_active refl refl (omega arith)

-- debits of 100 and credits of 60: within the tolerance
abbrev uneven : JournalDto
uneven = record (with_period sale 1) {
  reference_id = some 78;
  lines =
      record { account_id = 1; line_number = 1; debit = some 100; credit = none }
      ∷ record { account_id = 2; line_number = 2; debit = none; credit = some 60 }
      ∷ [];
}

uneven_created : create clock uneven 1 books ≡ ok (journal_of uneven, draft_of uneven)
unfolding create generate
uneven_created = refl

-- the sale of 100 is posted while the uneven entry stands
abbrev uneven_and_sale : Books
uneven_and_sale = elim (auto_post clock head_of pool sale 1 (draft_of uneven)) [
  | ok r ↦ r.1
  | err _ ↦ books
]

sale_posted_beside : auto_post clock head_of pool sale 1 (draft_of uneven) ≡ ok (2, uneven_and_sale)
unfolding auto_post post_new create generate get_active_period_for_date post post_lines post_line
sale_posted_beside = refl

-- a driver of the database that refuses the text of a number
abbrev refuse : DocumentNumber → Option ℕ
refuse _ = none

create_off_balance_example :
    (post clock head_of 1 2 uneven_and_sale ≢ ok (tt, books))
    × (reverse clock head_of refuse 1 2 1 uneven_and_sale ≢ ok (drafted_sale, books))
    × (update_period_status 1 PeriodStatus.closed uneven_and_sale ≢ ok (tt, books))
create_off_balance_example =
    create_off_balance clock clock head_of refuse uneven 1 2 1 PeriodStatus.closed books
      (draft_of uneven) uneven_and_sale books (journal_of uneven) drafted_sale uneven_created
      (omega arith) (next here (auto_posted clock pool sale 1 2 sale_posted_beside))

abbrev line_of : ℕ → ℕ → JournalLine
line_of n debit = record {
  id = n;
  journal_entry_id = 1;
  account_id = 1;
  line_number = n;
  debit = debit;
  credit = 0;
  folio = none;
}

repeated_account_loses_line_example :
    (pick : List LedgerRow → Option LedgerRow) × LatestFirst pick
    × (new_balance pick drafted_sale
          (line_of 3 7)
          (post_lines clock pick drafted_sale (line_of 1 10 ∷ line_of 2 20 ∷ []) books)
        ≡ pos 0 +ℤ pos 10 -ℤ pos 0 +ℤ pos 7 -ℤ pos 0)
repeated_account_loses_line_example =
    repeated_account_loses_line clock drafted_sale (line_of 1 10) (line_of 2 20) (line_of 3 7) books
      refl refl refl
