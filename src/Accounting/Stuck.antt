-- ===== src/Accounting/Stuck.antt =====
-- An entry that `create` accepts off balance stays a draft whatever is called, since `post` and
-- `reverse` of src/modules/accounting/services/journal-entry.service.ts refuse it.
use backend_erp.Prelude.{
  ℕ, ◌<◌, ◌==◌, if◌then◌else◌, ◌≡◌, ◌≢◌, refl, sym, subst, ◌∙◌, inl, inr, ap, true, false, Option,
  some, List, [], ◌∷◌, arith, Bool-cases, update_where,
}
use backend_erp.Database.{ok}
use backend_erp.Accounting.Schema.{
  DocumentNumber, draft, Journal, LedgerRow, Books, Clock, find_journal,
}
use backend_erp.Accounting.Journal.Entry.{JournalDto, create}
use backend_erp.Accounting.Journal.Posting.{lines_of, post_lines, post}
use backend_erp.Accounting.Journal.Posts.{post-Posted}
use backend_erp.Accounting.Journal.Creates.{create-Created}
use backend_erp.Accounting.Journal.Reversal.{reversal_dto, mark_reversed, reverse}
use backend_erp.Accounting.Journal.Reverses.{reverse-Reversed}
use backend_erp.Accounting.Journal.Trial.{post_lines-SameJournals}

module _ (n p : ℕ) where
  abbrev pub IsDraftOff : Journal → Type 0
  IsDraftOff j =
      (j.id ≡ n) × (j.status ≡ draft) × (j.period_id ≡ p) × (j.total_debit ≢ j.total_credit)

  pub record IsStuck (b : Books) : Type 0 where
    pub entry : Journal
    pub found : find_journal n b.journals ≡ some entry
    pub off : IsDraftOff entry
    pub known : n < b.next_journal

  find_journal-update :
      (k : ℕ) (f : Journal → Journal) (js : List Journal) (j : Journal)
      → ((i : Journal) → (f i).id ≡ i.id)
      → find_journal n js ≡ some j
      → find_journal n (update_where (λ i. i.id == k) f js) ≡ some (if j.id == k then f j else j)
  find_journal-update k f [] j same h = cc
  find_journal-update k f (i ∷ is) j same h =
      let kept : (if i.id == k then f i else i).id ≡ i.id = ground (arith, same i) in
      elim (Bool-cases (i.id == n)) [
        | inl e ↦
            let here : i ≡ j = ground (arith, h, e) in
            let test : ((if i.id == k then f i else i).id == n) ≡ true = ground (arith, kept, e) in
            rw test (ap (λ z. some (if z.id == k then f z else z)) here)
        | inr e ↦
            let test : ((if i.id == k then f i else i).id == n) ≡ false = ground (arith, kept, e) in
            rw test (find_journal-update k f is j same (rw e at h))
      ]

  -- An update that leaves an entry off balance alone, or at least its identifier, period, status and
  -- totals.
  IsStuck-update :
      (k : ℕ) (f : Journal → Journal) (b : Books)
      → ((i : Journal) → (f i).id ≡ i.id)
      → ((i : Journal) → k ≡ n → IsDraftOff i → IsDraftOff (f i))
      → IsStuck b
      → IsStuck (record b { journals = update_where (λ i. i.id == k) f b.journals })
  IsStuck-update k f b same keep s = record {
    entry = if s.entry.id == k then f s.entry else s.entry;
    found = find_journal-update k f b.journals s.entry same s.found;
    off = elim (Bool-cases (s.entry.id == k)) [
      | inl e ↦ rw e (keep s.entry (ground (arith, e, s.off.0)) s.off)
      | inr e ↦ rw e s.off
    ];
    known = s.known;
  }

  pub create-IsStuck :
      (clock : Clock) (dto : JournalDto) (created_by : ℕ) (b b' : Books) (j : Journal)
      → create clock dto created_by b ≡ ok (j, b')
      → IsStuck b
      → IsStuck b'
  create-IsStuck clock dto created_by b b' j h s =
      let (q, c) = create-Created clock dto created_by b b' j h in
      subst IsStuck (sym c.result) (record {
        entry = s.entry;
        found = ground (arith, s.known, s.found);
        off = s.off;
        known = omega (arith, s.known);
      })

  module _ (clock : Clock) (pick : List LedgerRow → Option LedgerRow) where
    pub post-other :
        (k posted_by : ℕ) (b b' : Books)
        → post clock pick k posted_by b ≡ ok (tt, b')
        → IsStuck b
        → k ≢ n
    post-other k posted_by b b' h s e =
        let (j, q, r) = post-Posted clock pick k posted_by b b' h in
        let same : s.entry ≡ j = ground (arith, s.found, r.found, e) in
        s.off.3 (subst (λ z. z.total_debit ≡ z.total_credit) (sym same) r.balanced)

    pub post-IsStuck :
        (k posted_by : ℕ) (b b' : Books)
        → post clock pick k posted_by b ≡ ok (tt, b')
        → IsStuck b
        → IsStuck b'
    post-IsStuck k posted_by b b' h s =
        let (j, q, r) = post-Posted clock pick k posted_by b b' h in
        let after = post_lines clock pick j (lines_of k b) b in
        let (js, m, _, _, _, _, _) = post_lines-SameJournals clock pick j (lines_of k b) b in
        subst IsStuck (sym r.result) (
          IsStuck-update k _ after (λ i. refl) (λ i e o. absurd (post-other k posted_by b b' h s e))
            (record {
              entry = s.entry;
              found = ap (find_journal n) js ∙ s.found;
              off = s.off;
              known = subst (λ z. n < z) (sym m) s.known;
            }))

  pub reverse-other :
      (clock : Clock) (pick : List LedgerRow → Option LedgerRow)
      (read_bigint : DocumentNumber → Option ℕ) (k reversed_by period_id : ℕ) (b b' : Books)
      (j : Journal)
      → reverse clock pick read_bigint k reversed_by period_id b ≡ ok (j, b')
      → IsStuck b
      → k ≢ n
  reverse-other clock pick read_bigint k reversed_by period_id b b' j h s e =
      let (current, c, d, m, r) =
        reverse-Reversed clock pick read_bigint k reversed_by period_id b b' j h in
      let same : s.entry ≡ current = ground (arith, s.found, r.found, e) in
      ground (arith, r.was_posted, same, s.off.1)

  pub reverse-IsStuck :
      (clock : Clock) (pick : List LedgerRow → Option LedgerRow)
      (read_bigint : DocumentNumber → Option ℕ) (k reversed_by period_id : ℕ) (b b' : Books)
      (j : Journal)
      → reverse clock pick read_bigint k reversed_by period_id b ≡ ok (j, b')
      → IsStuck b
      → IsStuck b'
  reverse-IsStuck clock pick read_bigint k reversed_by period_id b b' j h s =
      let (current, c, d, m, r) =
        reverse-Reversed clock pick read_bigint k reversed_by period_id b b' j h in
      let other = reverse-other clock pick read_bigint k reversed_by period_id b b' j h s in
      let dto = reversal_dto clock current period_id (lines_of k b) in
      let after =
        post-IsStuck clock pick j.id reversed_by c d r.posted
          (create-IsStuck clock dto reversed_by b c j r.created s) in
      let marked = IsStuck-update k _ d (λ i. refl) (λ i e o. absurd (other e)) after in
      subst IsStuck (sym r.result)
        (IsStuck-update j.id _ (mark_reversed k j.id d) (λ i. refl) (λ i e o. o) marked)
