-- ===== src/Accounting/Reach.antt =====
-- The books over time: every sequence of calls of the fiscal period and journal services, by any
-- users in any order. A call is one transaction, so the calls follow one another.
use backend_erp.Prelude.{ℕ, ◌≡◌, refl, sym, subst, Option, List}
use backend_erp.Database.{ok, Session}
use backend_erp.Accounting.Schema.{
  DocumentNumber, PeriodStatus, FiscalYear, Period, Journal, LedgerRow, Books, Clock,
}
use backend_erp.Accounting.Period.{
  CreateFiscalYearDto, CreatePeriodDto, create_fiscal_year, close_fiscal_year, create_period,
  update_period_status,
}
use backend_erp.Accounting.Period.Calendar.{
  create_fiscal_year-IsCalendar, close_fiscal_year-IsCalendar, create_period-IsCalendar,
  update_period_status-IsCalendar, update_period_status-Updated, create_period-CreatedPeriod,
  close_fiscal_year-result, create_fiscal_year-result,
}
use backend_erp.Accounting.Journal.Entry.{JournalDto, create}
use backend_erp.Accounting.Journal.Posting.{post}
use backend_erp.Accounting.Journal.Reversal.{AutoPostDto, auto_post, reverse}
use backend_erp.Accounting.Journal.Trial.{IsSound}
use backend_erp.Accounting.Journal.AutoPosts.{auto_post-keeps}
use backend_erp.Accounting.Kept.{
  IsKept, IsSound-transfer, create-IsKept, post-IsKept, reverse-IsKept,
}
use backend_erp.Accounting.Drafts.{
  DraftsOpen, update_period_status-DraftsOpen, create_period-DraftsOpen,
}

-- One call that commits, at the time that `clock` shows.
pub data Step (pick : List LedgerRow → Option LedgerRow) (b b' : Books) : Type 0 where
  year_created :
      (dto : CreateFiscalYearDto) (y : FiscalYear)
      → create_fiscal_year dto b ≡ ok (y, b')
      → Step pick b b'
  year_closed : (year_id : ℕ) → close_fiscal_year year_id b ≡ ok (tt, b') → Step pick b b'
  period_created :
      (dto : CreatePeriodDto) (p : Period) → create_period dto b ≡ ok (p, b') → Step pick b b'
  status_updated :
      (period_id : ℕ) (status : PeriodStatus)
      → update_period_status period_id status b ≡ ok (tt, b')
      → Step pick b b'
  journal_created :
      (clock : Clock) (dto : JournalDto) (created_by : ℕ) (j : Journal)
      → create clock dto created_by b ≡ ok (j, b')
      → Step pick b b'
  journal_posted :
      (clock : Clock) (journal_id posted_by : ℕ)
      → post clock pick journal_id posted_by b ≡ ok (tt, b')
      → Step pick b b'
  journal_reversed :
      (clock : Clock) (read_bigint : DocumentNumber → Option ℕ)
      (journal_id reversed_by period_id : ℕ) (j : Journal)
      → reverse clock pick read_bigint journal_id reversed_by period_id b ≡ ok (j, b')
      → Step pick b b'
  auto_posted :
      (clock : Clock) (session : Session) (dto : AutoPostDto) (posted_by n : ℕ)
      → auto_post clock pick session dto posted_by b ≡ ok (n, b')
      → Step pick b b'

pub data Reach (pick : List LedgerRow → Option LedgerRow) (b : Books) : Books → Type 0 where
  here : Reach pick b b
  next : {c d : Books} → Reach pick b c → Step pick c d → Reach pick b d

-- One call keeps everything.
pub Step-IsKept :
    (pick : List LedgerRow → Option LedgerRow) (b b' : Books)
    → Step pick b b'
    → IsKept b
    → IsKept b'
Step-IsKept pick b b' (year_created dto y h) k =
    let same = create_fiscal_year-result dto b b' y h in
    record {
      calendar = create_fiscal_year-IsCalendar dto b b' y h k.calendar;
      drafts_open = subst DraftsOpen (sym same) k.drafts_open;
      sound = subst IsSound (sym same) (IsSound-transfer b _ (refl, refl, refl, refl) k.sound);
    }
Step-IsKept pick b b' (year_closed year_id h) k =
    let (_, same) = close_fiscal_year-result year_id b b' h in
    record {
      calendar = close_fiscal_year-IsCalendar year_id b b' h k.calendar;
      drafts_open = subst DraftsOpen (sym same) k.drafts_open;
      sound = subst IsSound (sym same) (IsSound-transfer b _ (refl, refl, refl, refl) k.sound);
    }
Step-IsKept pick b b' (period_created dto p h) k =
    let (year, made) = create_period-CreatedPeriod dto b b' p h in
    record {
      calendar = create_period-IsCalendar dto b b' p h k.calendar;
      drafts_open = create_period-DraftsOpen dto b b' p h k.drafts_open;
      sound =
          subst IsSound (sym made.result) (IsSound-transfer b _ (refl, refl, refl, refl) k.sound);
    }
Step-IsKept pick b b' (status_updated period_id status h) k =
    let (p, u) = update_period_status-Updated period_id status b b' h in
    record {
      calendar = update_period_status-IsCalendar period_id status b b' h k.calendar;
      drafts_open = update_period_status-DraftsOpen period_id status b b' h k.drafts_open;
      sound = subst IsSound (sym u.result) (IsSound-transfer b _ (refl, refl, refl, refl) k.sound);
    }
Step-IsKept pick b b' (journal_created clock dto created_by j h) k =
    create-IsKept clock dto created_by b b' j h k
Step-IsKept pick b b' (journal_posted clock journal_id posted_by h) k =
    post-IsKept clock pick journal_id posted_by b b' h k
Step-IsKept pick b b' (journal_reversed clock read_bigint journal_id reversed_by period_id j h) k =
    reverse-IsKept clock pick read_bigint journal_id reversed_by period_id b b' j h k
Step-IsKept pick b b' (auto_posted clock session dto posted_by n h) k =
    auto_post-keeps clock pick IsKept (create-IsKept clock) (post-IsKept clock pick) session dto
      posted_by n b b' h k

-- In every state that the services reach from sound books: periods of a year do not run into one
-- another, an open period lies in an open year, a draft lies in an open period, the totals of each
-- journal are the sums of its lines, and the ledger of each period is balanced.
pub Reach-IsKept :
    (pick : List LedgerRow → Option LedgerRow) (b c : Books) → Reach pick b c → IsKept b → IsKept c
Reach-IsKept pick b c here k = k
Reach-IsKept pick b c (next {c = d} r s) k = Step-IsKept pick d c s (Reach-IsKept pick b d r k)
