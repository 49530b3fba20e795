-- ===== src/Accounting/Journal/Posting.antt =====
-- Posting a journal entry to the general ledger: `post` of
-- src/modules/accounting/services/journal-entry.service.ts.
--
-- `pick` is what PostgreSQL returns for ORDER BY created_at DESC LIMIT 1: it is a parameter, since
-- rows of one time may come in any order. `LatestFirst` states what is documented of it.
use mathlib.Core.List.{Memᴰ}
use backend_erp.Prelude.{
  ℕ, ◌+◌, ◌≤◌, ◌==◌, if◌then◌else◌, ◌≡◌, Bool, not, ◌&&◌, Option, none, some, List, [], ◌∷◌, All,
  select_where, take_first, exists_where, update_where,
}
use backend_erp.Prelude.Int.{ℤ, pos, ◌+ℤ◌, ◌-ℤ◌}
use backend_erp.Database.{
  Action, not_found, conflict, check_violation, ◌>>=◌, ◌>>◌, gets, or_throw, throw_if, modify,
}
use backend_erp.Accounting.Schema.{
  posted, Journal, JournalLine, LedgerRow, AccountBalance, Books, Clock, is_draft, find_journal,
}
use backend_erp.Accounting.Journal.Entry.{is_open_period}

abbrev pub is_row_of : ℕ → ℕ → LedgerRow → Bool
is_row_of account_id period_id r = r.account_id == account_id && r.period_id == period_id

abbrev pub is_balance_of : ℕ → ℕ → AccountBalance → Bool
is_balance_of account_id period_id r = r.account_id == account_id && r.period_id == period_id

-- DO UPDATE SET …
abbrev pub add_to_balance : AccountBalance → AccountBalance → AccountBalance
add_to_balance new r = record r {
  total_debit = r.total_debit + new.total_debit;
  total_credit = r.total_credit + new.total_credit;
  closing_balance = new.closing_balance;
}

-- INSERT … ON CONFLICT (account_id, period_id) DO UPDATE
abbrev pub upsert_balance : AccountBalance → List AccountBalance → List AccountBalance
upsert_balance new rows =
    if exists_where (is_balance_of new.account_id new.period_id) rows
    then update_where (is_balance_of new.account_id new.period_id) (add_to_balance new) rows
    else new ∷ rows

-- `Number(lastBalance?.balance ?? 0)`
abbrev pub balance_or_zero : Option LedgerRow → ℤ
balance_or_zero none = pos 0
balance_or_zero (some r) = r.balance

-- ORDER BY created_at DESC LIMIT 1: a row of the latest time, and none only of no rows.
pub record LatestFirst (pick : List LedgerRow → Option LedgerRow) : Type 0 where
  pub none_of_nil : pick [] ≡ none
  pub some_of_cons :
      (r : LedgerRow) (rs : List LedgerRow)
      → (t : LedgerRow) × (pick (r ∷ rs) ≡ some t)
        × Memᴰ t (r ∷ rs)
        × All (λ s. s.created_at ≤ t.created_at) (r ∷ rs)

abbrev pub lines_of : ℕ → Books → List JournalLine
lines_of journal_id b = select_where (λ l. l.journal_entry_id == journal_id) b.lines

abbrev pub mark_posted : ℕ → ℕ → Books → Books
mark_posted journal_id posted_by b = record b {
  journals =
      update_where (λ j. j.id == journal_id)
        (λ j. record j { status = posted; posted_by = some posted_by }) b.journals;
}

abbrev pub ledger_row : Clock → Journal → JournalLine → ℤ → LedgerRow
ledger_row clock j l balance = record {
  account_id = l.account_id;
  period_id = j.period_id;
  journal_entry_id = j.id;
  journal_line_id = l.id;
  entry_date = j.entry_date;
  folio = j.number;
  debit = l.debit;
  credit = l.credit;
  balance = balance;
  created_at = clock.now;
}

abbrev pub balance_row : Journal → JournalLine → ℤ → AccountBalance
balance_row j l balance = record {
  account_id = l.account_id;
  period_id = j.period_id;
  opening_balance = 0;
  total_debit = l.debit;
  total_credit = l.credit;
  closing_balance = balance;
}

module _ (pick : List LedgerRow → Option LedgerRow) where
  abbrev pub previous_balance : ℕ → ℕ → Books → ℤ
  previous_balance account_id period_id b =
      balance_or_zero (pick (select_where (is_row_of account_id period_id) b.ledger))

  abbrev pub new_balance : Journal → JournalLine → Books → ℤ
  new_balance j l b = previous_balance l.account_id j.period_id b +ℤ pos l.debit -ℤ pos l.credit

module _ (clock : Clock) (pick : List LedgerRow → Option LedgerRow) where
  -- the body of the loop of `post`
  unfoldable pub post_line : Journal → JournalLine → Books → Books
  post_line j l b =
      let balance = new_balance pick j l b in
      record b {
        ledger = ledger_row clock j l balance ∷ b.ledger;
        lines = update_where (λ k. k.id == l.id) (λ k. record k { folio = some j.number }) b.lines;
        balances = upsert_balance (balance_row j l balance) b.balances;
      }

  unfoldable pub post_lines : Journal → List JournalLine → Books → Books
  post_lines j [] b = b
  post_lines j (l ∷ ls) b = post_lines j ls (post_line j l b)

  -- `post`; the constraint chk_journal_balanced is checked as the status is set
  unfoldable pub post : ℕ → ℕ → Action Books (Unit {0})
  post journal_id posted_by = do
    journal ← or_throw (← gets (λ b. find_journal journal_id b.journals)) not_found
    throw_if (not (is_draft journal.status)) conflict
    or_throw (← gets (λ b. take_first (is_open_period journal.period_id) b.periods)) conflict
    lines ← gets (lines_of journal_id)
    modify (post_lines journal lines)
    throw_if (not (journal.total_debit == journal.total_credit)) check_violation
    modify (mark_posted journal_id posted_by)
