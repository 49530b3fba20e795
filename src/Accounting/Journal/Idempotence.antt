-- ===== src/Accounting/Journal/Idempotence.antt =====
-- A second `autoPost` for one business reference.
use backend_erp.Prelude.{
  ℕ, ◌==◌, ◌≡◌, refl, sym, ◌∙◌, true, false, inl, inr, Option, none, some, List, ◌∷◌, arith,
  Option-cases, take_first, exists_where, update_where, take_first-none, take_first-exists,
}
use backend_erp.Database.{
  ok, err, unique_violation, journal_entry_business_reference, in_failed_transaction, pool,
  transaction,
}
use backend_erp.Accounting.Schema.{Period, Journal, LedgerRow, Books, Clock, ReferenceType, posted}
use backend_erp.Accounting.Numbering.{generate}
use backend_erp.Accounting.Period.{get_active_period_for_date, is_active_for}
use backend_erp.Accounting.Journal.Entry.{JournalDto, has_reference, is_open_period, create}
use backend_erp.Accounting.Journal.Posting.{lines_of}
use backend_erp.Accounting.Journal.Posts.{post-Posted}
use backend_erp.Accounting.Journal.Creates.{Created, create-Created}
use backend_erp.Accounting.Journal.Reversal.{
  AutoPostDto, with_period, period_for, post_new, auto_post,
}
use backend_erp.Accounting.Journal.Trial.{post_lines-SameJournals}
use backend_erp.Accounting.Journal.AutoPosts.{Steps, post_new-Steps}

-- The choice of a period reads the periods and the years only.
period_for-other_books :
    (o : Option ℕ) (date p : ℕ) (b c : Books)
    → c.periods ≡ b.periods
    → c.fiscal_years ≡ b.fiscal_years
    → period_for o date b ≡ ok (p, b)
    → period_for o date c ≡ ok (p, c)
unfolding get_active_period_for_date
period_for-other_books (some n) date p b c ps ys h = ground arith
period_for-other_books none date p b c ps ys h =
    let same : take_first (is_active_for c.fiscal_years date) c.periods
        ≡ take_first (is_active_for b.fiscal_years date) b.periods =
      λ i. take_first (is_active_for (ys i) date) (ps i) in
    elim (Option-cases (take_first (is_active_for b.fiscal_years date) b.periods)) [
      | inl e ↦ ground (arith, same)
      | inr (q, e) ↦ ground (arith, same)
    ]

-- A reference that is taken makes `create` fail with 23505 once the other checks have passed.
create_taken :
    (clock clock' : Clock) (dto : JournalDto) (created_by : ℕ) (b b' c : Books) (j : Journal)
    (p : Period)
    → Created clock dto created_by b b' j p
    → c.periods ≡ b.periods
    → exists_where (has_reference dto.reference_type dto.reference_id) c.journals ≡ true
    → create clock' dto created_by c ≡ err (unique_violation journal_entry_business_reference)
unfolding create generate
create_taken clock clock' dto created_by b b' c j p h ps taken =
    let found : take_first (is_open_period dto.period_id) c.periods ≡ some p =
      (λ i. take_first (is_open_period dto.period_id) (ps i)) ∙ h.in_period in
    ground (arith, h.not_empty, h.near, h.no_bad_line, h.inside, found)

-- the entry that is posted, in front of the table
abbrev mark : ℕ → Journal → Journal
mark posted_by j = record j { status = posted; posted_by = some posted_by }

take_first-mark :
    (t : ReferenceType) (i posted_by : ℕ) (j : Journal) (rest : List Journal)
    → j.reference_type ≡ some t
    → j.reference_id ≡ some i
    → take_first
        (has_reference (some t) (some i))
        (update_where (λ k. k.id == j.id) (mark posted_by) (j ∷ rest))
      ≡ some (mark posted_by j)
take_first-mark t i posted_by j rest et ei = ground arith

module _ (clock : Clock) (pick : List LedgerRow → Option LedgerRow) where
  -- The books after a new entry: the same periods and years, and the entry posted in front.
  record Settled (dto : AutoPostDto) (n : ℕ) (b b' : Books) : Type 0 where
    same_periods : b'.periods ≡ b.periods
    same_years : b'.fiscal_years ≡ b.fiscal_years
    entry : Journal
    is_first :
        take_first (has_reference dto.reference_type dto.reference_id) b'.journals ≡ some entry
    is_posted : entry.status ≡ posted
    id : entry.id ≡ n

  Steps-Settled :
      (dto : AutoPostDto) (t : ReferenceType) (i posted_by n : ℕ) (b b' : Books) (p : ℕ)
      (j : Journal) (c : Books)
      → dto.reference_type ≡ some t
      → dto.reference_id ≡ some i
      → Steps clock pick dto posted_by n b b' p j c
      → Settled dto n b b'
  Steps-Settled dto t i posted_by n b b' p j c et ei s =
      let (period, created) = create-Created clock (with_period dto p) posted_by b c j s.created in
      let (k, q, done) = post-Posted clock pick j.id posted_by c b' s.posted in
      let (js, m, ps, ys, d, e, a) = post_lines-SameJournals clock pick k (lines_of j.id c) c in
      let rows : b'.journals ≡ update_where (λ k. k.id == j.id) (mark posted_by) (j ∷ b.journals) =
        (λ i. (done.result i).journals)
        ∙ (λ i. update_where (λ k. k.id == j.id) (mark posted_by) (js i))
        ∙ (λ i. update_where (λ k. k.id == j.id) (mark posted_by) (created.result i).journals)
        ∙ (λ i.
            update_where (λ k. k.id == j.id) (mark posted_by)
              (sym created.journal i ∷ b.journals)) in
      let type : j.reference_type ≡ some t = (λ i. (created.journal i).reference_type) ∙ et in
      let number : j.reference_id ≡ some i = (λ i. (created.journal i).reference_id) ∙ ei in
      record {
        same_periods = (λ i. (done.result i).periods) ∙ ps ∙ (λ i. (created.result i).periods);
        same_years =
            (λ i. (done.result i).fiscal_years) ∙ ys ∙ (λ i. (created.result i).fiscal_years);
        entry = mark posted_by j;
        is_first =
            rw (et, ei)
              ((λ z. take_first (has_reference (some t) (some i)) (rows z))
                ∙ take_first-mark t i posted_by j b.journals type number);
        is_posted = refl;
        id = sym s.id;
      }

  -- A reference that nobody holds leaves nothing to recover.
  fresh-post_new :
      (dto : AutoPostDto) (posted_by n : ℕ) (b b' : Books)
      → exists_where (has_reference dto.reference_type dto.reference_id) b.journals ≡ false
      → auto_post clock pick pool dto posted_by b ≡ ok (n, b')
      → post_new clock pick dto posted_by b ≡ ok (n, b')
  unfolding auto_post
  fresh-post_new dto posted_by n b b' fresh h =
      let missing = take_first-none _ b.journals fresh in ground (arith, missing)

  post_new-taken :
      (clock' : Clock) (dto : AutoPostDto) (posted_by n : ℕ) (b b' : Books)
      → post_new clock pick dto posted_by b ≡ ok (n, b')
      → Settled dto n b b'
      → post_new clock' pick dto posted_by b'
        ≡ err (unique_violation journal_entry_business_reference)
  unfolding post_new
  post_new-taken clock' dto posted_by n b b' h s =
      let (p, j, c, steps) = post_new-Steps clock pick dto posted_by n b b' h in
      let (q, created) = create-Created clock (with_period dto p) posted_by b c j steps.created in
      let period =
        period_for-other_books dto.period_id dto.entry_date p b b' s.same_periods s.same_years
          steps.period in
      let taken =
        create_taken clock clock' (with_period dto p) posted_by b c b' j q created s.same_periods
          (take_first-exists _ b'.journals s.entry s.is_first) in
      ground (arith, period, taken)

  -- Once an entry has been made for a reference, a later call outside a transaction returns the
  -- same entry and changes nothing; inside a transaction it fails, since PostgreSQL has aborted the
  -- transaction by then.
  pub auto_post_again :
      (clock' : Clock) (dto : AutoPostDto) (t : ReferenceType) (i posted_by n : ℕ) (b b' : Books)
      → dto.reference_type ≡ some t
      → dto.reference_id ≡ some i
      → exists_where (has_reference dto.reference_type dto.reference_id) b.journals ≡ false
      → auto_post clock pick pool dto posted_by b ≡ ok (n, b')
      → (auto_post clock' pick pool dto posted_by b' ≡ ok (n, b'))
        × (auto_post clock' pick transaction dto posted_by b' ≡ err in_failed_transaction)
  unfolding auto_post
  auto_post_again clock' dto t i posted_by n b b' et ei fresh h =
      let new = fresh-post_new dto posted_by n b b' fresh h in
      let (p, j, c, steps) = post_new-Steps clock pick dto posted_by n b b' new in
      let s = Steps-Settled dto t i posted_by n b b' p j c et ei steps in
      let taken = post_new-taken clock' dto posted_by n b b' new s in
      (ground (arith, taken, s.is_first, s.is_posted, s.id), ground (arith, taken))
