-- ===== src/Accounting/Journal/Reverses.antt =====
-- What a call of `reverse` that succeeds has found, and what it keeps.
use backend_erp.Prelude.{
  ℕ, ◌≡◌, ◌∙◌, subst, inl, inr, true, Option, some, List, arith, Option-cases,
}
use backend_erp.Database.{ok, >>=-eq-ok}
use backend_erp.Accounting.Schema.{DocumentNumber, Journal, LedgerRow, Books, Clock, find_journal}
use backend_erp.Accounting.Journal.Entry.{JournalDto, create}
use backend_erp.Accounting.Journal.Posting.{lines_of, post}
use backend_erp.Accounting.Journal.Reversal.{
  is_posted, check_reversal, link_reversal, reversal_dto, mark_reversed, set_reversal_of, reverse,
}

check_reversal-found :
    (journal_id period_id : ℕ) (b b' : Books) (j : Journal)
    → check_reversal journal_id period_id b ≡ ok (j, b')
    → (b' ≡ b) × (find_journal journal_id b.journals ≡ some j) × (is_posted j.status ≡ true)
check_reversal-found journal_id period_id b b' j h =
    elim (Option-cases (find_journal journal_id b.journals)) [
      | inl e ↦ ground (arith, e)
      | inr (k, e) ↦ (ground (arith, e), ground (arith, e), ground (arith, e))
    ]

link_reversal-set :
    (read_bigint : DocumentNumber → Option ℕ) (current reversal : Journal) (b b' : Books)
    → link_reversal read_bigint current reversal b ≡ ok (tt, b')
    → (n : ℕ) × (b' ≡ set_reversal_of reversal.id n b)
link_reversal-set read_bigint current reversal b b' h =
    elim (Option-cases (read_bigint current.number)) [
      | inl e ↦ ground (arith, e)
      | inr (n, e) ↦ (n, ground (arith, e))
    ]

module _ (clock : Clock) (pick : List LedgerRow → Option LedgerRow)
    (read_bigint : DocumentNumber → Option ℕ) (journal_id reversed_by period_id : ℕ) where
  -- The entry that is reversed, the steps, and the books after each of them.
  pub record Reversed (b b' : Books) (j current : Journal) (c d : Books) (n : ℕ) : Type 0 where
    pub found : find_journal journal_id b.journals ≡ some current
    pub was_posted : is_posted current.status ≡ true
    pub created :
        create clock (reversal_dto clock current period_id (lines_of journal_id b)) reversed_by b
        ≡ ok (j, c)
    pub posted : post clock pick j.id reversed_by c ≡ ok (tt, d)
    pub result : b' ≡ set_reversal_of j.id n (mark_reversed journal_id j.id d)

  pub reverse-Reversed :
      (b b' : Books) (j : Journal)
      → reverse clock pick read_bigint journal_id reversed_by period_id b ≡ ok (j, b')
      → (current : Journal) × (c : Books) × (d : Books) × (n : ℕ) × Reversed b b' j current c d n
  unfolding reverse
  reverse-Reversed b b' j h =
      let (current, b1, e1, h1) = >>=-eq-ok (check_reversal journal_id period_id) _ b h in
      let (same, found, was_posted) = check_reversal-found journal_id period_id b b1 current e1 in
      let dto : Books → JournalDto =
        λ z. reversal_dto clock current period_id (lines_of journal_id z) in
      let (reversal, c, e2, h2) = >>=-eq-ok (create clock (dto b1) reversed_by) _ b1 h1 in
      let (u, d, e3, h3) = >>=-eq-ok (post clock pick reversal.id reversed_by) _ c h2 in
      let marked = mark_reversed journal_id reversal.id d in
      let (v, b2, e4, h4) = >>=-eq-ok (link_reversal read_bigint current reversal) _ marked h3 in
      let (n, linked) = link_reversal-set read_bigint current reversal marked b2 e4 in
      let is : reversal ≡ j = ground (arith, h4) in
      let last : b' ≡ b2 = ground (arith, h4) in
      (
        current,
        c,
        d,
        n,
        subst (λ r. Reversed b b' r current c d n) is
            (record {
              found = found;
              was_posted = was_posted;
              created = subst (λ z. create clock (dto z) reversed_by z ≡ ok (reversal, c)) same e2;
              posted = e3;
              result = last ∙ linked;
            }),
      )
