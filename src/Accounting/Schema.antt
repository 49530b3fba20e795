-- ===== src/Accounting/Schema.antt =====
-- The accounting tables (src/database/migrations/tenant/009_create_accounting.sql and
-- src/types/database.types.ts) as lists of rows, the newest row first.
--
-- Amounts are NUMERIC(18,4): a number here counts ten-thousandths. Dates are day numbers, times
-- are milliseconds. Columns of free text and of audit times are left out: nothing is computed
-- from them.
use backend_erp.Prelude.{ℕ, ◌+◌, ◌*◌, ◌==◌, Bool, true, false, Option, some, List, take_first}
use backend_erp.Prelude.Int.{ℤ}

pub data YearStatus : Type 0 where
  opened closed : YearStatus

pub data PeriodStatus : Type 0 where
  opened closed locked : PeriodStatus

pub data JournalStatus : Type 0 where
  draft posted reversed : JournalStatus

pub record FiscalYear : Type 0 where
  pub id : ℕ
  pub start_date : ℕ
  pub end_date : ℕ
  pub status : YearStatus

pub record Period : Type 0 where
  pub id : ℕ
  pub fiscal_year_id : ℕ
  pub period_number : ℕ
  pub start_date : ℕ
  pub end_date : ℕ
  pub status : PeriodStatus

pub data EntryType : Type 0 where
  general purchase sales payment inventory production cost_of_goods adjustment closing : EntryType

-- The values that the services write to `reference_type`, and any other.
pub data ReferenceType : Type 0 where
  journal_reversal delivery_order goods_receipt ap_payment stock_opname : ReferenceType
  other : ℕ → ReferenceType

-- `{docType}-{YYYY}-{NNNNN}`, kept in its parts.
pub data DocType : Type 0 where
  pr rfq po gr vi apv sq so do_ inv pay wo qc je : DocType

pub record DocumentNumber : Type 0 where
  pub doc_type : DocType
  pub year : ℕ
  pub counter : ℕ

pub record DocumentCounter : Type 0 where
  pub doc_type : DocType
  pub year : ℕ
  pub counter : ℕ

pub data AccountType : Type 0 where
  asset liability equity revenue expense cost_of_goods : AccountType

pub data SystemAccount : Type 0 where
  ap ar cash cogs inventory_raw inventory_finished : SystemAccount

pub record Account : Type 0 where
  pub id : ℕ
  pub account_type : AccountType
  pub system_account : Option SystemAccount
  pub is_active : Bool

pub record Journal : Type 0 where
  pub id : ℕ
  pub number : DocumentNumber
  pub period_id : ℕ
  pub entry_date : ℕ
  pub entry_type : EntryType
  pub reference_type : Option ReferenceType
  pub reference_id : Option ℕ
  pub status : JournalStatus
  pub total_debit : ℕ
  pub total_credit : ℕ
  pub reversed_by : Option ℕ
  pub reversal_of : Option ℕ
  pub created_by : ℕ
  pub posted_by : Option ℕ

pub record JournalLine : Type 0 where
  pub id : ℕ
  pub journal_entry_id : ℕ
  pub account_id : ℕ
  pub line_number : ℕ
  pub debit : ℕ
  pub credit : ℕ
  pub folio : Option DocumentNumber

pub record LedgerRow : Type 0 where
  pub account_id : ℕ
  pub period_id : ℕ
  pub journal_entry_id : ℕ
  pub journal_line_id : ℕ
  pub entry_date : ℕ
  pub folio : DocumentNumber
  pub debit : ℕ
  pub credit : ℕ
  pub balance : ℤ
  pub created_at : ℕ

pub record AccountBalance : Type 0 where
  pub account_id : ℕ
  pub period_id : ℕ
  pub opening_balance : ℕ
  pub total_debit : ℕ
  pub total_credit : ℕ
  pub closing_balance : ℤ

pub record Books : Type 0 where
  pub fiscal_years : List FiscalYear
  pub periods : List Period
  pub accounts : List Account
  pub journals : List Journal
  pub lines : List JournalLine
  pub ledger : List LedgerRow
  pub balances : List AccountBalance
  pub counters : List DocumentCounter
  pub next_year : ℕ
  pub next_period : ℕ
  pub next_journal : ℕ
  pub next_line : ℕ

-- `new Date()` and `NOW()`, which stand still in a transaction.
pub record Clock : Type 0 where
  pub now : ℕ
  pub year : ℕ

abbrev pub ms_per_day : ℕ
ms_per_day = 86400000

-- A DATE column as a `Date`: midnight of the day.
abbrev pub midnight : ℕ → ℕ
midnight day = day * ms_per_day

abbrev pub is_year_opened : YearStatus → Bool
is_year_opened YearStatus.opened = true
is_year_opened YearStatus.closed = false

abbrev pub is_period_opened : PeriodStatus → Bool
is_period_opened PeriodStatus.opened = true
is_period_opened _ = false

abbrev pub is_draft : JournalStatus → Bool
is_draft draft = true
is_draft _ = false

-- The prefix, as a number that is compared.
abbrev pub doc_code : DocType → ℕ
doc_code pr = 0
doc_code rfq = 1
doc_code po = 2
doc_code gr = 3
doc_code vi = 4
doc_code apv = 5
doc_code sq = 6
doc_code so = 7
doc_code do_ = 8
doc_code inv = 9
doc_code pay = 10
doc_code wo = 11
doc_code qc = 12
doc_code je = 13

abbrev pub reference_code : ReferenceType → ℕ
reference_code journal_reversal = 0
reference_code delivery_order = 1
reference_code goods_receipt = 2
reference_code ap_payment = 3
reference_code stock_opname = 4
reference_code (other n) = 5 + n

-- `a = b` in SQL: false if one is NULL
abbrev pub same_reference : Option ReferenceType → Option ReferenceType → Bool
same_reference (some a) (some b) = reference_code a == reference_code b
same_reference _ _ = false

abbrev pub same_id : Option ℕ → Option ℕ → Bool
same_id (some a) (some b) = a == b
same_id _ _ = false

abbrev pub find_journal : ℕ → List Journal → Option Journal
find_journal journal_id = take_first (λ j. j.id == journal_id)
