-- ===== src/Accounting/Period.antt =====
-- src/modules/accounting/services/fiscal-period.service.ts: fiscal years and their periods.
pub mod Calendar
use backend_erp.Prelude.{
  ℕ, suc, ◌/◌, ltb, leb, ◌==◌, Bool, true, false, not, ◌&&◌, ◌||◌, Option, List, ◌∷◌, take_first,
  exists_where, update_where,
}
use backend_erp.Database.{
  Action, not_found, conflict, bad_request, ◌>>=◌, ◌>>◌, pure, gets, or_throw, throw_if, modify,
}
use backend_erp.Accounting.Schema.{
  YearStatus, PeriodStatus, FiscalYear, Period, Journal, Books, ms_per_day, is_year_opened,
  is_period_opened, is_draft,
}

pub record CreateFiscalYearDto : Type 0 where
  pub start_date : ℕ
  pub end_date : ℕ

pub record CreatePeriodDto : Type 0 where
  pub fiscal_year_id : ℕ
  pub period_number : ℕ
  pub start_date : ℕ
  pub end_date : ℕ

abbrev pub find_year : ℕ → List FiscalYear → Option FiscalYear
find_year year_id = take_first (λ y. y.id == year_id)

abbrev pub find_period : ℕ → List Period → Option Period
find_period period_id = take_first (λ p. p.id == period_id)

abbrev pub new_year : CreateFiscalYearDto → Books → FiscalYear
new_year dto b = record {
  id = b.next_year;
  start_date = dto.start_date;
  end_date = dto.end_date;
  status = YearStatus.opened;
}

abbrev pub insert_year : FiscalYear → Books → Books
insert_year y b = record b { fiscal_years = y ∷ b.fiscal_years; next_year = suc b.next_year }

-- `createFiscalYear`
unfoldable pub create_fiscal_year : CreateFiscalYearDto → Action Books FiscalYear
create_fiscal_year dto = do
  throw_if (leb dto.end_date dto.start_date) bad_request
  year ← gets (new_year dto)
  modify (insert_year year)
  pure year

-- the year's open periods
abbrev pub is_open_period_of : ℕ → Period → Bool
is_open_period_of year_id p = p.fiscal_year_id == year_id && is_period_opened p.status

abbrev is_year_closed : YearStatus → Bool
is_year_closed YearStatus.closed = true
is_year_closed YearStatus.opened = false

abbrev pub is_opened_year : ℕ → FiscalYear → Bool
is_opened_year year_id y = y.id == year_id && is_year_opened y.status

abbrev pub as_closed : FiscalYear → FiscalYear
as_closed y = record y { status = YearStatus.closed }

abbrev pub close_year : ℕ → Books → Books
close_year year_id b = record b {
  fiscal_years = update_where (is_opened_year year_id) as_closed b.fiscal_years;
}

-- `closeFiscalYear`
unfoldable pub close_fiscal_year : ℕ → Action Books (Unit {0})
close_fiscal_year year_id = do
  year ← or_throw (← gets (λ b. find_year year_id b.fiscal_years)) not_found
  throw_if (is_year_closed year.status) conflict
  throw_if (← gets (λ b. exists_where (is_open_period_of year_id) b.periods)) conflict
  modify (close_year year_id)

-- the dates overlap by more than an end point
abbrev pub overlaps : CreatePeriodDto → Period → Bool
overlaps dto p =
    p.fiscal_year_id == dto.fiscal_year_id
    && (ltb p.start_date dto.end_date && ltb dto.start_date p.end_date)

abbrev pub is_open_year : CreatePeriodDto → FiscalYear → Bool
is_open_year dto y = y.id == dto.fiscal_year_id && is_year_opened y.status

abbrev pub has_number : CreatePeriodDto → Period → Bool
has_number dto p = p.fiscal_year_id == dto.fiscal_year_id && p.period_number == dto.period_number

abbrev pub new_period : CreatePeriodDto → Books → Period
new_period dto b = record {
  id = b.next_period;
  fiscal_year_id = dto.fiscal_year_id;
  period_number = dto.period_number;
  start_date = dto.start_date;
  end_date = dto.end_date;
  status = PeriodStatus.opened;
}

abbrev pub insert_period : Period → Books → Books
insert_period p b = record b { periods = p ∷ b.periods; next_period = suc b.next_period }

-- `createPeriod`
unfoldable pub create_period : CreatePeriodDto → Action Books Period
create_period dto = do
  throw_if (leb dto.end_date dto.start_date) bad_request
  year ← or_throw (← gets (λ b. take_first (is_open_year dto) b.fiscal_years)) not_found
  throw_if (ltb dto.start_date year.start_date || ltb year.end_date dto.end_date) bad_request
  throw_if (← gets (λ b. exists_where (has_number dto) b.periods)) conflict
  throw_if (← gets (λ b. exists_where (overlaps dto) b.periods)) conflict
  period ← gets (new_period dto)
  modify (insert_period period)
  pure period

-- `validTransitions`
abbrev pub is_allowed : PeriodStatus → PeriodStatus → Bool
is_allowed PeriodStatus.opened PeriodStatus.closed = true
is_allowed PeriodStatus.opened PeriodStatus.locked = true
is_allowed PeriodStatus.closed PeriodStatus.locked = true
is_allowed _ _ = false

abbrev is_locked : PeriodStatus → Bool
is_locked PeriodStatus.locked = true
is_locked _ = false

abbrev is_closed_or_locked : PeriodStatus → Bool
is_closed_or_locked PeriodStatus.opened = false
is_closed_or_locked _ = true

abbrev pub same_status : PeriodStatus → PeriodStatus → Bool
same_status PeriodStatus.opened PeriodStatus.opened = true
same_status PeriodStatus.closed PeriodStatus.closed = true
same_status PeriodStatus.locked PeriodStatus.locked = true
same_status _ _ = false

abbrev pub is_draft_of : ℕ → Journal → Bool
is_draft_of period_id j = j.period_id == period_id && is_draft j.status

abbrev pub is_period_in : ℕ → PeriodStatus → Period → Bool
is_period_in period_id old p = p.id == period_id && same_status p.status old

abbrev pub with_status : PeriodStatus → Period → Period
with_status new p = record p { status = new }

abbrev pub set_period_status : ℕ → PeriodStatus → PeriodStatus → Books → Books
set_period_status period_id old new b = record b {
  periods = update_where (is_period_in period_id old) (with_status new) b.periods;
}

-- `updatePeriodStatus`
unfoldable pub update_period_status : ℕ → PeriodStatus → Action Books (Unit {0})
update_period_status period_id status = do
  period ← or_throw (← gets (λ b. find_period period_id b.periods)) not_found
  throw_if (is_locked period.status) conflict
  throw_if (not (is_allowed period.status status)) bad_request
  throw_if
      (is_closed_or_locked status
        && (← gets (λ b. exists_where (is_draft_of period_id) b.journals)))
      conflict
  modify (set_period_status period_id period.status status)

-- An open period of an open year that holds the day.
abbrev pub is_active_on : List FiscalYear → ℕ → Period → Bool
is_active_on years day p =
    leb p.start_date day
    && leb day p.end_date
    && is_period_opened p.status
    && exists_where (is_opened_year p.fiscal_year_id) years

-- PostgreSQL reads the parameter as a DATE, so the time of day is dropped here.
abbrev pub is_active_for : List FiscalYear → ℕ → Period → Bool
is_active_for years date = is_active_on years (date / ms_per_day)

-- `getActivePeriodForDate`: of several such periods, the one that comes first in the table. The query
-- asks for no order, so this is the order in which PostgreSQL finds the rows; any list is a state.
unfoldable pub get_active_period_for_date : ℕ → Action Books Period
get_active_period_for_date date = do
  or_throw (← gets (λ b. take_first (is_active_for b.fiscal_years date) b.periods)) conflict
