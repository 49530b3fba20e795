-- ===== src/Accounting/Journal/Entry.antt =====
-- Creating a journal entry as a draft: `create` of
-- src/modules/accounting/services/journal-entry.service.ts.
use backend_erp.Prelude.{
  ℕ, suc, ◌+◌, ◌-◌, ◌/◌, ltb, ◌==◌, Bool, true, false, not, ◌&&◌, ◌||◌, Option, none, some, List,
  [], ◌∷◌, ◌++◌, sum_of, take_first, exists_where,
}
use backend_erp.Database.{
  Action, conflict, bad_request, unique_violation, foreign_key_violation,
  journal_entry_business_reference, ◌>>=◌, ◌>>◌, pure, gets, or_throw, throw_if, modify,
}
use backend_erp.Accounting.Schema.{
  EntryType, ReferenceType, draft, je, DocumentNumber, Period, Account, Journal, JournalLine, Books,
  Clock, midnight, ms_per_day, is_period_opened, same_reference, same_id,
}
use backend_erp.Accounting.Numbering.{generate}

pub record LineDto : Type 0 where
  pub account_id : ℕ
  pub line_number : ℕ
  pub debit : Option ℕ
  pub credit : Option ℕ

-- `entry_date` is a time: `new Date(dto.entryDate)`.
pub record JournalDto : Type 0 where
  pub period_id : ℕ
  pub entry_date : ℕ
  pub entry_type : EntryType
  pub reference_type : Option ReferenceType
  pub reference_id : Option ℕ
  pub lines : List LineDto

-- `amount ?? 0`
abbrev pub amount_of : Option ℕ → ℕ
amount_of none = 0
amount_of (some n) = n

abbrev pub debit_of : LineDto → ℕ
debit_of l = amount_of l.debit

abbrev pub credit_of : LineDto → ℕ
credit_of l = amount_of l.credit

-- `Math.abs(a - b)`
abbrev pub difference : ℕ → ℕ → ℕ
difference a b = (a - b) + (b - a)

-- 0.01
abbrev pub tolerance : ℕ
tolerance = 100

abbrev pub is_bad_line : LineDto → Bool
is_bad_line l = (debit_of l == 0 && credit_of l == 0) || (ltb 0 (debit_of l) && ltb 0 (credit_of l))

abbrev pub is_empty : List LineDto → Bool
is_empty [] = true
is_empty (_ ∷ _) = false

abbrev pub is_open_period : ℕ → Period → Bool
is_open_period period_id p = p.id == period_id && is_period_opened p.status

-- uq_journal_entry_business_reference
abbrev pub has_reference : Option ReferenceType → Option ℕ → Journal → Bool
has_reference t i j = same_reference j.reference_type t && same_id j.reference_id i

abbrev pub new_journal : JournalDto → ℕ → DocumentNumber → Books → Journal
new_journal dto created_by number b = record {
  id = b.next_journal;
  number = number;
  period_id = dto.period_id;
  entry_date = dto.entry_date / ms_per_day;
  entry_type = dto.entry_type;
  reference_type = dto.reference_type;
  reference_id = dto.reference_id;
  status = draft;
  total_debit = sum_of debit_of dto.lines;
  total_credit = sum_of credit_of dto.lines;
  reversed_by = none;
  reversal_of = none;
  created_by = created_by;
  posted_by = none;
}

abbrev pub insert_journal : Journal → Books → Books
insert_journal j b = record b { journals = j ∷ b.journals; next_journal = suc b.next_journal }

abbrev pub new_line : ℕ → ℕ → LineDto → JournalLine
new_line journal_id line_id l = record {
  id = line_id;
  journal_entry_id = journal_id;
  account_id = l.account_id;
  line_number = l.line_number;
  debit = debit_of l;
  credit = credit_of l;
  folio = none;
}

-- the rows that are inserted, with the identity column counted on
abbrev pub new_lines : ℕ → ℕ → List LineDto → List JournalLine
new_lines journal_id line_id [] = []
new_lines journal_id line_id (l ∷ ls) =
    new_line journal_id line_id l ∷ new_lines journal_id (suc line_id) ls

abbrev pub lines_after : ℕ → List LineDto → ℕ
lines_after n [] = n
lines_after n (_ ∷ ls) = lines_after (suc n) ls

abbrev pub insert_lines : ℕ → List LineDto → Books → Books
insert_lines journal_id ls b = record b {
  lines = b.lines ++ new_lines journal_id b.next_line ls;
  next_line = lines_after b.next_line ls;
}

-- the foreign key of `account_id`
abbrev pub is_unknown_account : List Account → LineDto → Bool
is_unknown_account accounts l = not (exists_where (λ a. a.id == l.account_id) accounts)

-- the entry's time lies outside the period, whose dates are midnights
abbrev pub is_outside : ℕ → Period → Bool
is_outside entry_date p =
    ltb entry_date (midnight p.start_date) || ltb (midnight p.end_date) entry_date

-- the checks of `create` that need no database
abbrev pub check_lines : List LineDto → Action Books (Unit {0})
check_lines ls = do
  throw_if (is_empty ls) bad_request
  throw_if (ltb tolerance (difference (sum_of debit_of ls) (sum_of credit_of ls))) bad_request
  throw_if (exists_where is_bad_line ls) bad_request

-- `create`
unfoldable pub create : Clock → JournalDto → ℕ → Action Books Journal
create clock dto created_by = do
  check_lines dto.lines
  period ← or_throw (← gets (λ b. take_first (is_open_period dto.period_id) b.periods)) conflict
  throw_if (is_outside dto.entry_date period) conflict
  number ← generate clock je
  throw_if
      (← gets (λ b. exists_where (has_reference dto.reference_type dto.reference_id) b.journals))
      (unique_violation journal_entry_business_reference)
  journal ← gets (new_journal dto created_by number)
  modify (insert_journal journal)
  throw_if (← gets (λ b. exists_where (is_unknown_account b.accounts) dto.lines))
      foreign_key_violation
  modify (insert_lines journal.id dto.lines)
  pure journal
