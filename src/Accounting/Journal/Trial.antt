-- ===== src/Accounting/Journal/Trial.antt =====
-- Debits equal credits: what `create` and `post` keep of the journals and of the general ledger.
use backend_erp.Prelude.{
  ℕ, suc, ◌+◌, ◌<◌, ◌==◌, if◌then◌else◌, ◌≡◌, refl, sym, subst, ◌∙◌, true, Option, some, List, [],
  ◌∷◌, ◌++◌, arith, All, All-map, All-zip, All-append, All-update_where, All-take_first, sum_of,
}
use backend_erp.Database.{ok}
use backend_erp.Accounting.Schema.{Journal, JournalLine, LedgerRow, Books, Clock}
use backend_erp.Accounting.Journal.Entry.{LineDto, JournalDto, new_lines, create}
use backend_erp.Accounting.Journal.Posting.{lines_of, post_line, post_lines, post}
use backend_erp.Accounting.Journal.Posts.{post-Posted}
use backend_erp.Accounting.Journal.Creates.{create-Created}
use backend_erp.Accounting.Journal.Sums.{
  ledger_sum, line_sum, line_sum-folio, line_sum-new_lines_debit, line_sum-new_lines_credit,
  line_sum-new_lines_other, line_sum-append, line_sum-fresh,
}

-- The totals on a journal are the sums of its lines.
abbrev pub HasTotals : List JournalLine → Journal → Type 0
HasTotals lines j =
    (j.total_debit ≡ line_sum (λ l. l.debit) j.id lines)
    × (j.total_credit ≡ line_sum (λ l. l.credit) j.id lines)

pub record IsSound (b : Books) : Type 0 where
  pub totals : All (HasTotals b.lines) b.journals
  pub known_journals : All (λ j. j.id < b.next_journal) b.journals
  pub known_lines : All (λ l. l.journal_entry_id < b.next_journal) b.lines
  pub trial : (p : ℕ) → ledger_sum (λ r. r.debit) p b.ledger ≡ ledger_sum (λ r. r.credit) p b.ledger

new_lines-All :
    (n journal_id line_id : ℕ) (ls : List LineDto)
    → journal_id < n
    → All (λ l. l.journal_entry_id < n) (new_lines journal_id line_id ls)
new_lines-All n journal_id line_id [] h = tt
new_lines-All n journal_id line_id (l ∷ ls) h = (h, new_lines-All n journal_id (suc line_id) ls h)

-- The lines of a new journal leave the totals of the others alone.
HasTotals-insert :
    (dto : JournalDto) (b : Books) (j : Journal)
    → HasTotals b.lines j × (j.id < b.next_journal)
    → HasTotals (b.lines ++ new_lines b.next_journal b.next_line dto.lines) j
HasTotals-insert dto b j (h, lt) =
    let new = new_lines b.next_journal b.next_line dto.lines in
    (
      omega (
        arith,
        h.0,
        line_sum-append (λ l. l.debit) j.id b.lines new,
        line_sum-new_lines_other (λ l. l.debit) j.id b.next_journal b.next_line dto.lines lt,
      ),
      omega (
        arith,
        h.1,
        line_sum-append (λ l. l.credit) j.id b.lines new,
        line_sum-new_lines_other (λ l. l.credit) j.id b.next_journal b.next_line dto.lines lt,
      ),
    )

-- A journal that is created has the totals of its lines, and the others keep theirs.
pub create-IsSound :
    (clock : Clock) (dto : JournalDto) (created_by : ℕ) (b b' : Books) (j : Journal)
    → create clock dto created_by b ≡ ok (j, b')
    → IsSound b
    → IsSound b'
create-IsSound clock dto created_by b b' j h s =
    let (p, c) = create-Created clock dto created_by b b' j h in
    subst IsSound (sym c.result) (record {
      totals = (
        (
          omega (
            arith,
            line_sum-append (λ l. l.debit) b.next_journal b.lines
                (new_lines b.next_journal b.next_line dto.lines),
            line_sum-fresh (λ l. l.debit) b.next_journal b.lines s.known_lines,
            line_sum-new_lines_debit b.next_journal b.next_line dto.lines,
          ),
          omega (
            arith,
            line_sum-append (λ l. l.credit) b.next_journal b.lines
                (new_lines b.next_journal b.next_line dto.lines),
            line_sum-fresh (λ l. l.credit) b.next_journal b.lines s.known_lines,
            line_sum-new_lines_credit b.next_journal b.next_line dto.lines,
          ),
        ),
        All-map (λ j. HasTotals b.lines j × (j.id < b.next_journal)) _ b.journals
            (HasTotals-insert dto b) (All-zip _ _ b.journals s.totals s.known_journals),
      );
      known_journals = (omega arith, All-map _ _ b.journals (λ k h. omega arith) s.known_journals);
      known_lines =
          All-append _ b.lines _ (All-map _ _ b.lines (λ k h. omega arith) s.known_lines)
            (new_lines-All _ _ _ dto.lines (omega arith));
      trial = s.trial;
    })

module _ (clock : Clock) (pick : List LedgerRow → Option LedgerRow) where
  -- What is posted adds to the sums of the journal's period, and to no other.
  ledger_sum-post_lines_debit :
      (p : ℕ) (j : Journal) (ls : List JournalLine) (b : Books)
      → ledger_sum (λ r. r.debit) p (post_lines clock pick j ls b).ledger
        ≡ (if j.period_id == p then sum_of (λ l. l.debit) ls else 0)
          + ledger_sum (λ r. r.debit) p b.ledger
  unfolding post_lines post_line
  ledger_sum-post_lines_debit p j [] b = ground arith
  ledger_sum-post_lines_debit p j (l ∷ ls) b =
      ground (arith, ledger_sum-post_lines_debit p j ls (post_line clock pick j l b))

  ledger_sum-post_lines_credit :
      (p : ℕ) (j : Journal) (ls : List JournalLine) (b : Books)
      → ledger_sum (λ r. r.credit) p (post_lines clock pick j ls b).ledger
        ≡ (if j.period_id == p then sum_of (λ l. l.credit) ls else 0)
          + ledger_sum (λ r. r.credit) p b.ledger
  unfolding post_lines post_line
  ledger_sum-post_lines_credit p j [] b = ground arith
  ledger_sum-post_lines_credit p j (l ∷ ls) b =
      ground (arith, ledger_sum-post_lines_credit p j ls (post_line clock pick j l b))

  -- What posting leaves of the tables of journals and lines.
  abbrev pub SameJournals : Books → Books → Type 0
  SameJournals b b' =
      (b'.journals ≡ b.journals)
      × (b'.next_journal ≡ b.next_journal)
      × (b'.periods ≡ b.periods)
      × (b'.fiscal_years ≡ b.fiscal_years)
      × ((k : ℕ) → line_sum (λ l. l.debit) k b'.lines ≡ line_sum (λ l. l.debit) k b.lines)
      × ((k : ℕ) → line_sum (λ l. l.credit) k b'.lines ≡ line_sum (λ l. l.credit) k b.lines)
      × (All (λ l. l.journal_entry_id < b.next_journal) b.lines
          → All (λ l. l.journal_entry_id < b.next_journal) b'.lines)

  pub post_lines-SameJournals :
      (j : Journal) (ls : List JournalLine) (b : Books)
      → SameJournals b (post_lines clock pick j ls b)
  unfolding post_lines post_line
  post_lines-SameJournals j [] b = (refl, refl, refl, refl, λ k. refl, λ k. refl, λ h. h)
  post_lines-SameJournals j (l ∷ ls) b =
      let (js, n, ps, ys, d, c, a) = post_lines-SameJournals j ls (post_line clock pick j l b) in
      (
        js,
        n,
        ps,
        ys,
        λ k. d k ∙ line_sum-folio (λ l. l.debit) (some j.number) k l.id b.lines (λ l. refl),
        λ k. c k ∙ line_sum-folio (λ l. l.credit) (some j.number) k l.id b.lines (λ l. refl),
        λ h. a (
            All-update_where _ (λ k. k.id == l.id) (λ k. record k { folio = some j.number }) b.lines
              (λ k h e. h) h),
      )

  posted_trial :
      (q : ℕ) (j : Journal) (journal_id : ℕ) (b : Books)
      → (j.id == journal_id) ≡ true
      → HasTotals b.lines j
      → j.total_debit ≡ j.total_credit
      → ledger_sum (λ r. r.debit) q b.ledger ≡ ledger_sum (λ r. r.credit) q b.ledger
      → let after = post_lines clock pick j (lines_of journal_id b) b in
        ledger_sum (λ r. r.debit) q after.ledger ≡ ledger_sum (λ r. r.credit) q after.ledger
  posted_trial q j journal_id b same total balanced trial =
      let e : j.id ≡ journal_id = ground arith in
      let equal : line_sum (λ l. l.debit) journal_id b.lines
          ≡ line_sum (λ l. l.credit) journal_id b.lines =
        subst (λ k. line_sum (λ l. l.debit) k b.lines ≡ line_sum (λ l. l.credit) k b.lines) e
          (sym total.0 ∙ balanced ∙ total.1) in
      ground (
        arith,
        equal,
        ledger_sum-post_lines_debit q j (lines_of journal_id b) b,
        ledger_sum-post_lines_credit q j (lines_of journal_id b) b,
      )

  -- The general ledger stays balanced in every period when a journal is posted.
  pub post-IsSound :
      (journal_id posted_by : ℕ) (b b' : Books)
      → post clock pick journal_id posted_by b ≡ ok (tt, b')
      → IsSound b
      → IsSound b'
  post-IsSound journal_id posted_by b b' h s =
      let (j, p, r) = post-Posted clock pick journal_id posted_by b b' h in
      let ls = lines_of journal_id b in
      let (js, n, ps, ys, d, c, a) = post_lines-SameJournals j ls b in
      let after = post_lines clock pick j ls b in
      let (total, same) =
        All-take_first (HasTotals b.lines) (λ k. k.id == journal_id) b.journals j s.totals
          r.found in
      subst IsSound (sym r.result) (record {
        totals =
            All-update_where _ (λ k. k.id == journal_id) _ after.journals (λ k h e. h)
              (subst (All (HasTotals after.lines)) (sym js) (
                All-map (HasTotals b.lines) _ b.journals
                  (λ k h. (h.0 ∙ sym (d k.id), h.1 ∙ sym (c k.id))) s.totals));
        known_journals =
            All-update_where _ (λ k. k.id == journal_id) _ after.journals (λ k h e. h)
              (subst (λ m. All (λ k. k.id < m) after.journals) (sym n)
                (subst (All (λ k. k.id < b.next_journal)) (sym js) s.known_journals));
        known_lines =
            subst (λ m. All (λ l. l.journal_entry_id < m) after.lines) (sym n) (a s.known_lines);
        trial = λ q. posted_trial q j journal_id b same total r.balanced (s.trial q);
      })
