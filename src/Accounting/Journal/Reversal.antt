-- ===== src/Accounting/Journal/Reversal.antt =====
-- Reversing a journal entry, and posting one for another module: `reverse` and `autoPost` of
-- src/modules/accounting/services/journal-entry.service.ts.
use backend_erp.Prelude.{
  ℕ, ◌/◌, leb, ◌==◌, if◌then◌else◌, Bool, true, false, not, ◌&&◌, Option, none, some, List, [], ◌∷◌,
  map, take_first, update_where,
}
use backend_erp.Database.{
  Action, ok, err, Failure, not_found, conflict, unique_violation, invalid_text_representation,
  foreign_key_violation, in_failed_transaction, journal_entry_business_reference,
  inventory_movement_source_document, ◌>>=◌, ◌>>◌, pure, throw, gets, or_throw, throw_if, modify,
  Session, pool, transaction,
}
use backend_erp.Accounting.Schema.{
  EntryType, ReferenceType, journal_reversal, JournalStatus, draft, posted, reversed,
  DocumentNumber, Journal, JournalLine, LedgerRow, Books, Clock, midnight, ms_per_day, find_journal,
}
use backend_erp.Accounting.Period.{get_active_period_for_date}
use backend_erp.Accounting.Journal.Entry.{
  LineDto, JournalDto, is_open_period, has_reference, create,
}
use backend_erp.Accounting.Journal.Posting.{lines_of, post}

-- ORDER BY line_number
abbrev pub insert_by_number : JournalLine → List JournalLine → List JournalLine
insert_by_number l [] = l ∷ []
insert_by_number l (k ∷ ks) =
    if leb l.line_number k.line_number then l ∷ k ∷ ks else k ∷ insert_by_number l ks

abbrev pub sort_by_number : List JournalLine → List JournalLine
sort_by_number [] = []
sort_by_number (l ∷ ls) = insert_by_number l (sort_by_number ls)

-- debit and credit change places
abbrev pub swap_line : JournalLine → LineDto
swap_line l = record {
  account_id = l.account_id;
  line_number = l.line_number;
  debit = some l.credit;
  credit = some l.debit;
}

abbrev pub reversal_dto : Clock → Journal → ℕ → List JournalLine → JournalDto
reversal_dto clock j period_id ls = record {
  period_id = period_id;
  entry_date = midnight (clock.now / ms_per_day);
  entry_type = j.entry_type;
  reference_type = some journal_reversal;
  reference_id = some j.id;
  lines = map swap_line (sort_by_number ls);
}

abbrev pub is_posted : JournalStatus → Bool
is_posted posted = true
is_posted _ = false

abbrev pub is_set : Option ℕ → Bool
is_set none = false
is_set (some _) = true

abbrev pub mark_reversed : ℕ → ℕ → Books → Books
mark_reversed journal_id reversal_id b = record b {
  journals =
      update_where (λ j. j.id == journal_id)
        (λ j. record j { status = reversed; reversed_by = some reversal_id }) b.journals;
}

abbrev pub set_reversal_of : ℕ → ℕ → Books → Books
set_reversal_of reversal_id journal_id b = record b {
  journals =
      update_where (λ j. j.id == reversal_id) (λ j. record j { reversal_of = some journal_id })
        b.journals;
}

pub record AutoPostDto : Type 0 where
  pub period_id : Option ℕ
  pub entry_date : ℕ
  pub entry_type : EntryType
  pub reference_type : Option ReferenceType
  pub reference_id : Option ℕ
  pub lines : List LineDto

abbrev pub with_period : AutoPostDto → ℕ → JournalDto
with_period dto period_id = record {
  period_id = period_id;
  entry_date = dto.entry_date;
  entry_type = dto.entry_type;
  reference_type = dto.reference_type;
  reference_id = dto.reference_id;
  lines = dto.lines;
}

abbrev pub period_for : Option ℕ → ℕ → Action Books ℕ
period_for (some period_id) date = pure period_id
period_for none date = do period ← get_active_period_for_date date; pure period.id

-- error 23505 on uq_journal_entry_business_reference
abbrev pub is_reference_taken : Failure → Bool
is_reference_taken (unique_violation journal_entry_business_reference) = true
is_reference_taken (unique_violation inventory_movement_source_document) = false
is_reference_taken _ = false

abbrev pub has_business_reference : Option ReferenceType → Option ℕ → Bool
has_business_reference (some t) (some i) = true
has_business_reference _ _ = false

-- the guards of `reverse`
abbrev pub check_reversal : ℕ → ℕ → Action Books Journal
check_reversal journal_id period_id = do
  current ← or_throw (← gets (λ b. find_journal journal_id b.journals)) not_found
  throw_if (not (is_posted current.status)) conflict
  throw_if (is_set current.reversed_by) conflict
  or_throw (← gets (λ b. take_first (is_open_period period_id) b.periods)) conflict
  pure current

-- The last statement of `reverse`, where `read_bigint` is how PostgreSQL reads the text of a document
-- number for the BIGINT column `reversal_of`, which refers to a journal; none is a text that it
-- refuses.
abbrev pub link_reversal : (DocumentNumber → Option ℕ) → Journal → Journal → Action Books (Unit {0})
link_reversal read_bigint current reversal = do
  reversal_of ← or_throw (read_bigint current.number) invalid_text_representation
  or_throw (← gets (λ b. find_journal reversal_of b.journals)) foreign_key_violation
  modify (set_reversal_of reversal.id reversal_of)

module _ (clock : Clock) (pick : List LedgerRow → Option LedgerRow)
    (read_bigint : DocumentNumber → Option ℕ) where
  -- `reverse`
  unfoldable pub reverse : ℕ → ℕ → ℕ → Action Books Journal
  reverse journal_id reversed_by period_id = do
    current ← check_reversal journal_id period_id
    lines ← gets (lines_of journal_id)
    reversal ← create clock (reversal_dto clock current period_id lines) reversed_by
    post clock pick reversal.id reversed_by
    modify (mark_reversed journal_id reversal.id)
    link_reversal read_bigint current reversal
    pure reversal

module _ (clock : Clock) (pick : List LedgerRow → Option LedgerRow) where
  -- the transaction of `autoPost`
  unfoldable pub post_new : AutoPostDto → ℕ → Action Books ℕ
  post_new dto posted_by = do
    period_id ← period_for dto.period_id dto.entry_date
    journal ← create clock (with_period dto period_id) posted_by
    post clock pick journal.id posted_by
    pure journal.id

  -- the entry that holds the reference already: a draft is posted, a posted one is kept
  abbrev pub settle : Journal → JournalStatus → ℕ → Action Books ℕ
  settle j draft posted_by = do post clock pick j.id posted_by; pure j.id
  settle j posted posted_by = pure j.id
  settle j reversed posted_by = throw conflict

  -- In a transaction that has failed PostgreSQL refuses every statement.
  abbrev pub find_existing : Session → AutoPostDto → ℕ → Action Books ℕ
  find_existing transaction dto posted_by = throw in_failed_transaction
  find_existing pool dto posted_by = do
    existing ←
        or_throw
          (← gets (λ b. take_first (has_reference dto.reference_type dto.reference_id) b.journals))
          (unique_violation journal_entry_business_reference)
    settle existing existing.status posted_by

  -- the handler: only for a reference that is taken
  abbrev pub recover : Session → AutoPostDto → ℕ → Failure → Action Books ℕ
  recover session dto posted_by e =
      if is_reference_taken e && has_business_reference dto.reference_type dto.reference_id
      then find_existing session dto posted_by
      else throw e

  -- `autoPost`
  unfoldable pub auto_post : Session → AutoPostDto → ℕ → Action Books ℕ
  auto_post session dto posted_by b = elim (post_new dto posted_by b) [
    | ok r ↦ ok r
    | err e ↦ recover session dto posted_by e b
  ]
