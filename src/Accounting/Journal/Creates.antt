-- ===== src/Accounting/Journal/Creates.antt =====
-- What a call of `create` that succeeds has checked and written.
use backend_erp.Prelude.{
  ℕ, ◌≤◌, ◌≡◌, false, inl, inr, some, arith, Option-cases, sum_of, take_first, exists_where,
}
use backend_erp.Database.{ok}
use backend_erp.Accounting.Schema.{je, Period, Journal, Books, Clock}
use backend_erp.Accounting.Numbering.{bump, number_of, generate}
use backend_erp.Accounting.Journal.Entry.{
  JournalDto, debit_of, credit_of, difference, tolerance, is_bad_line, is_empty, is_open_period,
  has_reference, is_outside, is_unknown_account, new_journal, insert_journal, insert_lines, create,
}

abbrev pub created_journal : Clock → JournalDto → ℕ → Books → Journal
created_journal clock dto created_by b =
    let b' = bump je clock.year b in new_journal dto created_by (number_of je clock.year b') b'

abbrev pub created_books : Clock → JournalDto → ℕ → Books → Books
created_books clock dto created_by b =
    let j = created_journal clock dto created_by b in
    insert_lines j.id dto.lines (insert_journal j (bump je clock.year b))

pub record Created (clock : Clock) (dto : JournalDto) (created_by : ℕ) (b b' : Books) (j : Journal)
    (p : Period) : Type 0 where
  pub not_empty : is_empty dto.lines ≡ false
  pub near : difference (sum_of debit_of dto.lines) (sum_of credit_of dto.lines) ≤ tolerance
  pub no_bad_line : exists_where is_bad_line dto.lines ≡ false
  pub in_period : take_first (is_open_period dto.period_id) b.periods ≡ some p
  pub inside : is_outside dto.entry_date p ≡ false
  pub fresh_reference :
      exists_where (has_reference dto.reference_type dto.reference_id) b.journals ≡ false
  pub known_accounts : exists_where (is_unknown_account b.accounts) dto.lines ≡ false
  pub journal : j ≡ created_journal clock dto created_by b
  pub result : b' ≡ created_books clock dto created_by b

pub create-Created :
    (clock : Clock) (dto : JournalDto) (created_by : ℕ) (b b' : Books) (j : Journal)
    → create clock dto created_by b ≡ ok (j, b')
    → (p : Period) × Created clock dto created_by b b' j p
unfolding create generate
create-Created clock dto created_by b b' j h =
    elim (Option-cases (take_first (is_open_period dto.period_id) b.periods)) [
      | inl o ↦ ground arith
      | inr (p, o) ↦ (
        p,
        record {
          not_empty = ground arith;
          near = ground arith;
          no_bad_line = ground arith;
          in_period = o;
          inside = ground arith;
          fresh_reference = ground arith;
          known_accounts = ground arith;
          journal = ground arith;
          result = ground arith;
        },
      )
    ]
