-- ===== src/Accounting/Journal/Posts.antt =====
-- What a call of `post` that succeeds has found and done.
use backend_erp.Prelude.{ℕ, ◌≡◌, inl, inr, Option, some, List, arith, Option-cases, take_first}
use backend_erp.Database.{ok}
use backend_erp.Accounting.Schema.{draft, Journal, Period, LedgerRow, Books, Clock, find_journal}
use backend_erp.Accounting.Journal.Entry.{is_open_period}
use backend_erp.Accounting.Journal.Posting.{lines_of, mark_posted, post_lines, post}

pub record Posted (clock : Clock) (pick : List LedgerRow → Option LedgerRow)
    (journal_id posted_by : ℕ) (b b' : Books) (j : Journal) (p : Period) : Type 0 where
  pub found : find_journal journal_id b.journals ≡ some j
  pub was_draft : j.status ≡ draft
  pub in_period : take_first (is_open_period j.period_id) b.periods ≡ some p
  pub balanced : j.total_debit ≡ j.total_credit
  pub result :
      b' ≡ mark_posted journal_id posted_by (post_lines clock pick j (lines_of journal_id b) b)

module _ (clock : Clock) (pick : List LedgerRow → Option LedgerRow) where
  pub post-Posted :
      (journal_id posted_by : ℕ) (b b' : Books)
      → post clock pick journal_id posted_by b ≡ ok (tt, b')
      → (j : Journal) × (p : Period) × Posted clock pick journal_id posted_by b b' j p
  unfolding post
  post-Posted journal_id posted_by b b' h =
      elim (Option-cases (find_journal journal_id b.journals)) [
        | inl e ↦ ground arith
        | inr (j, e) ↦ elim (Option-cases (take_first (is_open_period j.period_id) b.periods)) [
          | inl o ↦ ground arith
          | inr (p, o) ↦ (
            j,
            p,
            record {
              found = e;
              was_draft = ground arith;
              in_period = o;
              balanced = ground arith;
              result = ground arith;
            },
          )
        ]
      ]
