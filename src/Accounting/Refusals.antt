-- ===== src/Accounting/Refusals.antt =====
-- Entries that one part of the accounting services lets through and another refuses.
use backend_erp.Prelude.{
  ℕ, ◌*◌, ◌/◌, ◌<◌, ◌≤◌, ◌≡◌, ◌≢◌, refl, inl, inr, Option, none, some, List, arith, Option-cases,
  take_first, sum_of, All-intro, All-take_first,
}
use backend_erp.Database.{ok, err, conflict, Session}
use backend_erp.Accounting.Schema.{
  DocumentNumber, PeriodStatus, Period, Journal, LedgerRow, Books, Clock, ms_per_day,
}
use backend_erp.Accounting.Period.{is_active_for, get_active_period_for_date, update_period_status}
use backend_erp.Accounting.Period.Calendar.{update_period_status-Updated}
use backend_erp.Accounting.Journal.Entry.{
  JournalDto, debit_of, credit_of, is_open_period, check_lines, create,
}
use backend_erp.Accounting.Journal.Posting.{post}
use backend_erp.Accounting.Journal.Reversal.{AutoPostDto, post_new, auto_post, reverse}
use backend_erp.Accounting.Reach.{Reach}
use backend_erp.Accounting.Stuck.{post-other, reverse-other}
use backend_erp.Accounting.StuckReach.{Reach-IsStuck, IsDraftOff-exists, created-IsStuck}

-- An entry that `create` accepts although its debits and credits differ, within its tolerance, is
-- refused by `post` and `reverse` at all later times, whatever calls of the accounting services come
-- in between, and `updatePeriodStatus` then refuses to change the status of its period.
pub create_off_balance :
    (clock later : Clock) (pick : List LedgerRow → Option LedgerRow)
    (read_bigint : DocumentNumber → Option ℕ) (dto : JournalDto) (created_by user period_id : ℕ)
    (status : PeriodStatus) (b b' c d : Books) (j r : Journal)
    → create clock dto created_by b ≡ ok (j, b')
    → sum_of debit_of dto.lines ≢ sum_of credit_of dto.lines
    → Reach pick b' c
    → (post later pick j.id user c ≢ ok (tt, d))
      × (reverse later pick read_bigint j.id user period_id c ≢ ok (r, d))
      × (update_period_status dto.period_id status c ≢ ok (tt, d))
create_off_balance clock later pick read_bigint dto created_by user period_id status b b' c d j r h
      off reach =
    let start = created-IsStuck clock dto created_by b b' j h off in
    let s = Reach-IsStuck j.id dto.period_id pick b' c reach start in
    (
      λ e. post-other j.id dto.period_id later pick j.id user c d e s refl,
      λ e.
          reverse-other j.id dto.period_id later pick read_bigint j.id user period_id c d r e s
            refl,
      λ e.
          let (_, u) = update_period_status-Updated dto.period_id status c d e in
          ground (
            arith,
            u.no_drafts,
            IsDraftOff-exists j.id dto.period_id c.journals s.entry s.found s.off,
          ),
    )

-- The period that is found for a time has not ended before the day of that time.
get_active_period_for_date-day :
    (date : ℕ) (b : Books) (p : Period)
    → get_active_period_for_date date b ≡ ok (p, b)
    → date / ms_per_day ≤ p.end_date
unfolding get_active_period_for_date
get_active_period_for_date-day date b p h =
    elim (Option-cases (take_first (is_active_for b.fiscal_years date) b.periods)) [
      | inl e ↦ ground (arith, e)
      | inr (q, e) ↦
          let same : q ≡ p = ground (arith, e) in
          let (_, test) =
            All-take_first (λ _. Unit {0}) (is_active_for b.fiscal_years date) b.periods q
              (All-intro (λ _. Unit {0}) b.periods (λ _. tt)) e in
          ground (arith, same, test)
    ]

-- Where `autoPost` is given no period and `getActivePeriodForDate` gives it a period that has begun
-- its last day, at a time after midnight, then it is that day, and the call is refused if its lines
-- pass the checks and that period is the row of its identifier: `create` does not take the time for
-- one of the period that it was given for it.
pub auto_post_on_last_day :
    (clock : Clock) (pick : List LedgerRow → Option LedgerRow) (session : Session)
    (dto : AutoPostDto) (posted_by : ℕ) (b : Books) (p : Period)
    → dto.period_id ≡ none
    → get_active_period_for_date dto.entry_date b ≡ ok (p, b)
    → take_first (is_open_period p.id) b.periods ≡ some p
    → check_lines dto.lines b ≡ ok (tt, b)
    → p.end_date * ms_per_day < dto.entry_date
    → (dto.entry_date / ms_per_day ≡ p.end_date)
      × (auto_post clock pick session dto posted_by b ≡ err conflict)
unfolding auto_post post_new create
auto_post_on_last_day clock pick session dto posted_by b p no_period active row valid after =
    let within = get_active_period_for_date-day dto.entry_date b p active in
    (omega (arith, within, after), ground (arith, no_period, active, row, valid, after))
