-- ===== src/Accounting/Drafts.antt =====
-- A draft entry lies in an open period: a period is closed only when it has no draft, and a draft is
-- made only in an open one.
use backend_erp.Prelude.{
  ℕ, ◌==◌, ◌≡◌, ◌≢◌, refl, sym, subst, ◌∙◌, true, Option, List, [], ◌∷◌, arith, All, All-map,
  All-zip, All-update_where, exists_where-All, take_first-exists, exists_where, update_where,
}
use backend_erp.Database.{ok}
use backend_erp.Accounting.Schema.{PeriodStatus, Period, Journal, LedgerRow, Books, Clock, is_draft}
use backend_erp.Accounting.Period.{
  CreatePeriodDto, create_period, update_period_status, is_period_in, with_status,
}
use backend_erp.Accounting.Period.Calendar.{
  update_period_status-Updated, create_period-CreatedPeriod,
}
use backend_erp.Accounting.Journal.Entry.{JournalDto, is_open_period, create}
use backend_erp.Accounting.Journal.Posting.{lines_of, post_lines, post}
use backend_erp.Accounting.Journal.Posts.{post-Posted}
use backend_erp.Accounting.Journal.Creates.{create-Created}
use backend_erp.Accounting.Journal.Trial.{post_lines-SameJournals}

-- A draft lies in an open period.
abbrev pub InOpenPeriod : List Period → Journal → Type 0
InOpenPeriod periods j =
    is_draft j.status ≡ true → exists_where (is_open_period j.period_id) periods ≡ true

abbrev pub DraftsOpen : Books → Type 0
DraftsOpen b = All (InOpenPeriod b.periods) b.journals

exists-update_status :
    (k period_id : ℕ) (old new : PeriodStatus) (ps : List Period)
    → k ≢ period_id
    → exists_where
        (is_open_period k)
        (update_where (is_period_in period_id old) (with_status new) ps)
      ≡ exists_where (is_open_period k) ps
exists-update_status k period_id old new [] h = refl
exists-update_status k period_id old new (p ∷ ps) h =
    ground (arith, exists-update_status k period_id old new ps h)

pub update_period_status-DraftsOpen :
    (period_id : ℕ) (status : PeriodStatus) (b b' : Books)
    → update_period_status period_id status b ≡ ok (tt, b')
    → DraftsOpen b
    → DraftsOpen b'
update_period_status-DraftsOpen period_id status b b' h d =
    let (p, u) = update_period_status-Updated period_id status b b' h in
    subst DraftsOpen (sym u.result) (
      All-map _ _ b.journals
        (λ j k e.
          exists-update_status j.period_id period_id p.status status b.periods (ground arith)
          ∙ k.0 e)
        (All-zip _ _ b.journals d (exists_where-All _ b.journals u.no_drafts)))

pub create_period-DraftsOpen :
    (dto : CreatePeriodDto) (b b' : Books) (p : Period)
    → create_period dto b ≡ ok (p, b')
    → DraftsOpen b
    → DraftsOpen b'
create_period-DraftsOpen dto b b' p h d =
    let (year, made) = create_period-CreatedPeriod dto b b' p h in
    subst DraftsOpen (sym made.result) (All-map _ _ b.journals (λ j k e. ground (arith, k e)) d)

pub create-DraftsOpen :
    (clock : Clock) (dto : JournalDto) (created_by : ℕ) (b b' : Books) (j : Journal)
    → create clock dto created_by b ≡ ok (j, b')
    → DraftsOpen b
    → DraftsOpen b'
create-DraftsOpen clock dto created_by b b' j h d =
    let (p, c) = create-Created clock dto created_by b b' j h in
    subst DraftsOpen (sym c.result) (λ e. take_first-exists _ b.periods p c.in_period, d)

pub post-DraftsOpen :
    (clock : Clock) (pick : List LedgerRow → Option LedgerRow) (journal_id posted_by : ℕ)
    (b b' : Books)
    → post clock pick journal_id posted_by b ≡ ok (tt, b')
    → DraftsOpen b
    → DraftsOpen b'
post-DraftsOpen clock pick journal_id posted_by b b' h d =
    let (j, p, r) = post-Posted clock pick journal_id posted_by b b' h in
    let ls = lines_of journal_id b in
    let (js, n, ps, ys, _, _, _) = post_lines-SameJournals clock pick j ls b in
    let after = post_lines clock pick j ls b in
    subst DraftsOpen (sym r.result) (
      All-update_where (InOpenPeriod after.periods) (λ k. k.id == journal_id) _ after.journals
        (λ k h e f. cc)
        (subst (λ qs. All (InOpenPeriod qs) after.journals) (sym ps)
          (subst (All (InOpenPeriod b.periods)) (sym js) d)))
