-- ===== src/Accounting/Period/Calendar.antt =====
-- What the operations on fiscal years and periods keep: periods of a year do not run into one
-- another and have numbers of their own, and an open period lies in an open year.
use backend_erp.Prelude.{
  ℕ, ◌<◌, ◌≤◌, ◌≡◌, ◌≢◌, refl, sym, subst, ◌∙◌, ◌⊎◌, inl, inr, Bool, true, false, some, List, [],
  ◌∷◌, arith, Bool-cases, Option-cases, All, All-map, All-zip, All-update_where, exists_where-All,
  take_first, exists_where, update_where,
}
use backend_erp.Database.{ok}
use backend_erp.Accounting.Schema.{PeriodStatus, FiscalYear, Period, Books, is_period_opened}
use backend_erp.Accounting.Period.{
  CreateFiscalYearDto, CreatePeriodDto, find_period, new_year, insert_year, create_fiscal_year,
  is_open_period_of, is_opened_year, as_closed, close_year, close_fiscal_year, is_open_year,
  has_number, overlaps, new_period, insert_period, create_period, is_allowed, is_draft_of,
  is_period_in, with_status, set_period_status, update_period_status,
}

-- Two periods of a year meet in an end point at most, and have different numbers.
abbrev pub Apart : Period → Period → Type 0
Apart p q =
    p.fiscal_year_id ≡ q.fiscal_year_id
    → ((p.end_date ≤ q.start_date) ⊎ (q.end_date ≤ p.start_date))
      × (p.period_number ≢ q.period_number)

abbrev pub AllApart : List Period → Type 0
AllApart [] = Unit
AllApart (p ∷ ps) = All (Apart p) ps × AllApart ps

-- An open period lies in an open year.
abbrev pub InOpenYear : List FiscalYear → Period → Type 0
InOpenYear years p =
    is_period_opened p.status ≡ true → exists_where (is_opened_year p.fiscal_year_id) years ≡ true

pub record IsCalendar (b : Books) : Type 0 where
  pub dated : All (λ p. p.start_date < p.end_date) b.periods
  pub apart : AllApart b.periods
  pub in_open_year : All (InOpenYear b.fiscal_years) b.periods

AllApart-update_where :
    (test : Period → Bool) (new : PeriodStatus) (ps : List Period)
    → AllApart ps
    → AllApart (update_where test (with_status new) ps)
AllApart-update_where test new [] h = tt
AllApart-update_where test new (p ∷ ps) h =
    let kept = All-update_where (Apart p) test (with_status new) ps (λ q k t. k) h.0 in
    (
      elim (Bool-cases (test p)) [ inl e ↦ rw e kept | inr e ↦ rw e kept ],
      AllApart-update_where test new ps h.1,
    )

exists-close_year :
    (year_id k : ℕ) (years : List FiscalYear)
    → k ≢ year_id
    → exists_where (is_opened_year k) (update_where (is_opened_year year_id) as_closed years)
      ≡ exists_where (is_opened_year k) years
exists-close_year year_id k [] h = refl
exists-close_year year_id k (y ∷ ys) h = ground (arith, exists-close_year year_id k ys h)

exists-of_take_first :
    (dto : CreatePeriodDto) (years : List FiscalYear) (y : FiscalYear)
    → take_first (is_open_year dto) years ≡ some y
    → exists_where (is_opened_year dto.fiscal_year_id) years ≡ true
exists-of_take_first dto [] y h = cc
exists-of_take_first dto (x ∷ ys) y h = ground (arith, exists-of_take_first dto ys y)

-- What a call of `createPeriod` that succeeds has checked.
pub record CreatedPeriod (dto : CreatePeriodDto) (b b' : Books) (year : FiscalYear) : Type 0 where
  pub ordered : dto.start_date < dto.end_date
  pub year_found : take_first (is_open_year dto) b.fiscal_years ≡ some year
  pub within : (year.start_date ≤ dto.start_date) × (dto.end_date ≤ year.end_date)
  pub fresh_number : exists_where (has_number dto) b.periods ≡ false
  pub no_overlap : exists_where (overlaps dto) b.periods ≡ false
  pub result : b' ≡ insert_period (new_period dto b) b

pub create_period-CreatedPeriod :
    (dto : CreatePeriodDto) (b b' : Books) (p : Period)
    → create_period dto b ≡ ok (p, b')
    → (year : FiscalYear) × CreatedPeriod dto b b' year
unfolding create_period
create_period-CreatedPeriod dto b b' p h =
    elim (Option-cases (take_first (is_open_year dto) b.fiscal_years)) [
      | inl e ↦ ground arith
      | inr (y, e) ↦ (
        y,
        record {
          ordered = ground arith;
          year_found = e;
          within = (ground arith, ground arith);
          fresh_number = ground arith;
          no_overlap = ground arith;
          result = ground arith;
        },
      )
    ]

new_period-Apart :
    (dto : CreatePeriodDto) (b : Books) (q : Period)
    → (has_number dto q ≡ false) × (overlaps dto q ≡ false)
    → Apart (new_period dto b) q
new_period-Apart dto b q h same = ground arith

-- A period that is created keeps the calendar.
pub create_period-IsCalendar :
    (dto : CreatePeriodDto) (b b' : Books) (p : Period)
    → create_period dto b ≡ ok (p, b')
    → IsCalendar b
    → IsCalendar b'
create_period-IsCalendar dto b b' p h c =
    let (year, made) = create_period-CreatedPeriod dto b b' p h in
    subst IsCalendar (sym made.result) (record {
      dated = (made.ordered, c.dated);
      apart = (
        All-map _ _ b.periods (new_period-Apart dto b) (
            All-zip _ _ b.periods (exists_where-All _ b.periods made.fresh_number)
              (exists_where-All _ b.periods made.no_overlap)),
        c.apart,
      );
      in_open_year =
          (λ e. exists-of_take_first dto b.fiscal_years year made.year_found, c.in_open_year);
    })

pub create_fiscal_year-result :
    (dto : CreateFiscalYearDto) (b b' : Books) (y : FiscalYear)
    → create_fiscal_year dto b ≡ ok (y, b')
    → b' ≡ insert_year (new_year dto b) b
unfolding create_fiscal_year
create_fiscal_year-result dto b b' y h = ground arith

pub create_fiscal_year-IsCalendar :
    (dto : CreateFiscalYearDto) (b b' : Books) (y : FiscalYear)
    → create_fiscal_year dto b ≡ ok (y, b')
    → IsCalendar b
    → IsCalendar b'
create_fiscal_year-IsCalendar dto b b' y h c =
    subst IsCalendar (sym (create_fiscal_year-result dto b b' y h)) (record {
      dated = c.dated;
      apart = c.apart;
      in_open_year = All-map _ _ b.periods (λ p k e. ground (arith, k e)) c.in_open_year;
    })

pub close_fiscal_year-result :
    (year_id : ℕ) (b b' : Books)
    → close_fiscal_year year_id b ≡ ok (tt, b')
    → (exists_where (is_open_period_of year_id) b.periods ≡ false) × (b' ≡ close_year year_id b)
unfolding close_fiscal_year
close_fiscal_year-result year_id b b' h = ground arith

still_open :
    (year_id : ℕ) (years : List FiscalYear) (p : Period)
    → InOpenYear years p × (is_open_period_of year_id p ≡ false)
    → InOpenYear (update_where (is_opened_year year_id) as_closed years) p
still_open year_id years p h e =
    let other : p.fiscal_year_id ≢ year_id = ground arith in
    exists-close_year year_id p.fiscal_year_id years other ∙ h.0 e

-- A year is closed only when no period of it is open.
pub close_fiscal_year-IsCalendar :
    (year_id : ℕ) (b b' : Books)
    → close_fiscal_year year_id b ≡ ok (tt, b')
    → IsCalendar b
    → IsCalendar b'
close_fiscal_year-IsCalendar year_id b b' h c =
    let (closed, same) = close_fiscal_year-result year_id b b' h in
    subst IsCalendar (sym same) (record {
      dated = c.dated;
      apart = c.apart;
      in_open_year =
          All-map _ _ b.periods (still_open year_id b.fiscal_years)
            (All-zip _ _ b.periods c.in_open_year (exists_where-All _ b.periods closed));
    })

-- What a call of `updatePeriodStatus` that succeeds has checked.
pub record Updated (period_id : ℕ) (status : PeriodStatus) (b b' : Books) (p : Period)
    : Type 0 where
  pub found : find_period period_id b.periods ≡ some p
  pub allowed : is_allowed p.status status ≡ true
  pub no_drafts : exists_where (is_draft_of period_id) b.journals ≡ false
  pub result : b' ≡ set_period_status period_id p.status status b

pub update_period_status-Updated :
    (period_id : ℕ) (status : PeriodStatus) (b b' : Books)
    → update_period_status period_id status b ≡ ok (tt, b')
    → (p : Period) × Updated period_id status b b' p
unfolding update_period_status
update_period_status-Updated period_id status b b' h =
    elim (Option-cases (find_period period_id b.periods)) [
      | inl e ↦ ground arith
      | inr (p, e) ↦ (
        p,
        record {
          found = e;
          allowed = ground arith;
          no_drafts = ground arith;
          result = ground arith;
        },
      )
    ]

-- No transition opens a period.
pub allowed-not_opened :
    (old new : PeriodStatus) → is_allowed old new ≡ true → is_period_opened new ≡ false
allowed-not_opened old new h = ground arith

pub update_period_status-IsCalendar :
    (period_id : ℕ) (status : PeriodStatus) (b b' : Books)
    → update_period_status period_id status b ≡ ok (tt, b')
    → IsCalendar b
    → IsCalendar b'
update_period_status-IsCalendar period_id status b b' h c =
    let (p, u) = update_period_status-Updated period_id status b b' h in
    let test = is_period_in period_id p.status in
    subst IsCalendar (sym u.result) (record {
      dated = All-update_where _ test (with_status status) b.periods (λ q k t. k) c.dated;
      apart = AllApart-update_where test status b.periods c.apart;
      in_open_year =
          All-update_where (InOpenYear b.fiscal_years) test (with_status status) b.periods
            (λ q k t e. cc (allowed-not_opened p.status status u.allowed)) c.in_open_year;
    })
