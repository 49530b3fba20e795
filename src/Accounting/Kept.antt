-- ===== src/Accounting/Kept.antt =====
-- What holds of the books at all times, and that the calls of the journal service keep it.
use backend_erp.Prelude.{
  ℕ, ◌<◌, ◌≡◌, refl, sym, subst, arith, Option, List, All, Bool, ◌==◌, All-update_where,
}
use backend_erp.Database.{ok}
use backend_erp.Accounting.Schema.{DocType, DocumentNumber, Journal, LedgerRow, Books, Clock}
use backend_erp.Accounting.Numbering.{bump, generate}
use backend_erp.Accounting.Period.Calendar.{IsCalendar, AllApart, InOpenYear}
use backend_erp.Accounting.Journal.Entry.{JournalDto, create}
use backend_erp.Accounting.Journal.Posting.{lines_of, post}
use backend_erp.Accounting.Journal.Posts.{post-Posted}
use backend_erp.Accounting.Journal.Creates.{create-Created}
use backend_erp.Accounting.Journal.Reversal.{reversal_dto, mark_reversed, set_reversal_of, reverse}
use backend_erp.Accounting.Journal.Sums.{ledger_sum}
use backend_erp.Accounting.Journal.Trial.{
  IsSound, HasTotals, create-IsSound, post-IsSound, post_lines-SameJournals,
}
use backend_erp.Accounting.Journal.Reverses.{reverse-Reversed}
use backend_erp.Accounting.Drafts.{DraftsOpen, create-DraftsOpen, post-DraftsOpen}

-- What holds of the books at all times.
pub record IsKept (b : Books) : Type 0 where
  pub calendar : IsCalendar b
  pub drafts_open : DraftsOpen b
  pub sound : IsSound b

-- The calendar is the periods and the years, and the journals are sound by themselves.
IsCalendar-transfer :
    (b c : Books)
    → c.periods ≡ b.periods
    → c.fiscal_years ≡ b.fiscal_years
    → IsCalendar b
    → IsCalendar c
IsCalendar-transfer b c ps ys k = record {
  dated = subst (All (λ p. p.start_date < p.end_date)) (sym ps) k.dated;
  apart = subst AllApart (sym ps) k.apart;
  in_open_year =
      subst (λ years. All (InOpenYear years) c.periods) (sym ys)
        (subst (All (InOpenYear b.fiscal_years)) (sym ps) k.in_open_year);
}

abbrev pub SameTables : Books → Books → Type 0
SameTables b c =
    (c.journals ≡ b.journals)
    × (c.lines ≡ b.lines)
    × (c.ledger ≡ b.ledger)
    × (c.next_journal ≡ b.next_journal)

pub IsSound-transfer : (b c : Books) → SameTables b c → IsSound b → IsSound c
IsSound-transfer b c (js, ls, gl, n) s = record {
  totals =
      subst (λ xs. All (HasTotals xs) c.journals) (sym ls)
        (subst (All (HasTotals b.lines)) (sym js) s.totals);
  known_journals =
      subst (λ m. All (λ j. j.id < m) c.journals) (sym n)
        (subst (All (λ j. j.id < b.next_journal)) (sym js) s.known_journals);
  known_lines =
      subst (λ m. All (λ l. l.journal_entry_id < m) c.lines) (sym n)
        (subst (All (λ l. l.journal_entry_id < b.next_journal)) (sym ls) s.known_lines);
  trial =
      subst (λ rows. (p : ℕ) → ledger_sum (λ r. r.debit) p rows ≡ ledger_sum (λ r. r.credit) p rows)
        (sym gl) s.trial;
}

-- A document number changes a counter only.
pub generate-IsKept :
    (clock : Clock) (t : DocType) (n : DocumentNumber) (b b' : Books)
    → generate clock t b ≡ ok (n, b')
    → IsKept b
    → IsKept b'
unfolding generate
generate-IsKept clock t n b b' h k = subst IsKept (ground arith) (record {
  calendar = IsCalendar-transfer b (bump t clock.year b) refl refl k.calendar;
  drafts_open = k.drafts_open;
  sound = IsSound-transfer b (bump t clock.year b) (refl, refl, refl, refl) k.sound;
})

pub create-IsKept :
    (clock : Clock) (dto : JournalDto) (created_by : ℕ) (b b' : Books) (j : Journal)
    → create clock dto created_by b ≡ ok (j, b')
    → IsKept b
    → IsKept b'
create-IsKept clock dto created_by b b' j h k = record {
  calendar =
      let (p, c) = create-Created clock dto created_by b b' j h in
      subst IsCalendar (sym c.result) (IsCalendar-transfer b _ refl refl k.calendar);
  drafts_open = create-DraftsOpen clock dto created_by b b' j h k.drafts_open;
  sound = create-IsSound clock dto created_by b b' j h k.sound;
}

pub post-IsKept :
    (clock : Clock) (pick : List LedgerRow → Option LedgerRow) (journal_id posted_by : ℕ)
    (b b' : Books)
    → post clock pick journal_id posted_by b ≡ ok (tt, b')
    → IsKept b
    → IsKept b'
post-IsKept clock pick journal_id posted_by b b' h k = record {
  calendar =
      let (j, p, r) = post-Posted clock pick journal_id posted_by b b' h in
      let (js, n, ps, ys, _, _, _) =
        post_lines-SameJournals clock pick j (lines_of journal_id b) b in
      subst IsCalendar (sym r.result) (IsCalendar-transfer b _ ps ys k.calendar);
  drafts_open = post-DraftsOpen clock pick journal_id posted_by b b' h k.drafts_open;
  sound = post-IsSound clock pick journal_id posted_by b b' h k.sound;
}

mark_reversed-IsKept :
    (journal_id reversal_id : ℕ) (b : Books)
    → IsKept b
    → IsKept (mark_reversed journal_id reversal_id b)
mark_reversed-IsKept journal_id reversal_id b k =
    let where_ : Journal → Bool = λ j. j.id == journal_id in
    record {
      calendar = IsCalendar-transfer b _ refl refl k.calendar;
      drafts_open = All-update_where _ where_ _ b.journals (λ j h e f. cc) k.drafts_open;
      sound = record {
        totals = All-update_where _ where_ _ b.journals (λ j h e. h) k.sound.totals;
        known_journals = All-update_where _ where_ _ b.journals (λ j h e. h) k.sound.known_journals;
        known_lines = k.sound.known_lines;
        trial = k.sound.trial;
      };
    }

set_reversal_of-IsKept :
    (reversal_id journal_id : ℕ) (b : Books)
    → IsKept b
    → IsKept (set_reversal_of reversal_id journal_id b)
set_reversal_of-IsKept reversal_id journal_id b k =
    let where_ : Journal → Bool = λ j. j.id == reversal_id in
    record {
      calendar = IsCalendar-transfer b _ refl refl k.calendar;
      drafts_open = All-update_where _ where_ _ b.journals (λ j h e. h) k.drafts_open;
      sound = record {
        totals = All-update_where _ where_ _ b.journals (λ j h e. h) k.sound.totals;
        known_journals = All-update_where _ where_ _ b.journals (λ j h e. h) k.sound.known_journals;
        known_lines = k.sound.known_lines;
        trial = k.sound.trial;
      };
    }

pub reverse-IsKept :
    (clock : Clock) (pick : List LedgerRow → Option LedgerRow)
    (read_bigint : DocumentNumber → Option ℕ) (journal_id reversed_by period_id : ℕ) (b b' : Books)
    (j : Journal)
    → reverse clock pick read_bigint journal_id reversed_by period_id b ≡ ok (j, b')
    → IsKept b
    → IsKept b'
reverse-IsKept clock pick read_bigint journal_id reversed_by period_id b b' j h k =
    let (current, c, d, n, r) =
      reverse-Reversed clock pick read_bigint journal_id reversed_by period_id b b' j h in
    let dto = reversal_dto clock current period_id (lines_of journal_id b) in
    let created = create-IsKept clock dto reversed_by b c j r.created k in
    let posted = post-IsKept clock pick j.id reversed_by c d r.posted created in
    subst IsKept (sym r.result) (
      set_reversal_of-IsKept j.id n (mark_reversed journal_id j.id d)
        (mark_reversed-IsKept journal_id j.id d posted))
