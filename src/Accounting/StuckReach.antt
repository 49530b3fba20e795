-- ===== src/Accounting/StuckReach.antt =====
-- An entry off balance stays a draft over all sequences of calls of the accounting services.
use backend_erp.Prelude.{
  ℕ, ◌<◌, ◌==◌, ◌≡◌, ◌≢◌, refl, sym, subst, ◌∙◌, inl, inr, ap, true, Option, some, List, [], ◌∷◌,
  arith, Bool-cases, sum_of, exists_where, suc,
}
use backend_erp.Database.{ok}
use backend_erp.Accounting.Schema.{Journal, LedgerRow, Books, Clock, find_journal}
use backend_erp.Accounting.Period.{is_draft_of}
use backend_erp.Accounting.Period.Calendar.{
  update_period_status-Updated, create_period-CreatedPeriod, close_fiscal_year-result,
  create_fiscal_year-result,
}
use backend_erp.Accounting.Journal.Entry.{JournalDto, debit_of, credit_of, create}
use backend_erp.Accounting.Journal.Creates.{create-Created}
use backend_erp.Accounting.Journal.AutoPosts.{auto_post-keeps}
use backend_erp.Accounting.Reach.{
  Step, year_created, year_closed, period_created, status_updated, journal_created, journal_posted,
  journal_reversed, auto_posted, Reach, here, next,
}
use backend_erp.Accounting.Stuck.{
  IsDraftOff, IsStuck, create-IsStuck, post-IsStuck, reverse-IsStuck,
}

module _ (n p : ℕ) where
  IsStuck-same :
      (b c : Books)
      → c.journals ≡ b.journals
      → c.next_journal ≡ b.next_journal
      → IsStuck n p b
      → IsStuck n p c
  IsStuck-same b c js m s = record {
    entry = s.entry;
    found = ap (find_journal n) js ∙ s.found;
    off = s.off;
    known = subst (λ z. n < z) (sym m) s.known;
  }

  Step-IsStuck :
      (pick : List LedgerRow → Option LedgerRow) (b b' : Books)
      → Step pick b b'
      → IsStuck n p b
      → IsStuck n p b'
  Step-IsStuck pick b b' (year_created dto y h) s =
      let same = create_fiscal_year-result dto b b' y h in
      IsStuck-same b b' (ap (λ z. z.journals) same) (ap (λ z. z.next_journal) same) s
  Step-IsStuck pick b b' (year_closed year_id h) s =
      let (_, same) = close_fiscal_year-result year_id b b' h in
      IsStuck-same b b' (ap (λ z. z.journals) same) (ap (λ z. z.next_journal) same) s
  Step-IsStuck pick b b' (period_created dto q h) s =
      let (_, made) = create_period-CreatedPeriod dto b b' q h in
      let same = made.result in
      IsStuck-same b b' (ap (λ z. z.journals) same) (ap (λ z. z.next_journal) same) s
  Step-IsStuck pick b b' (status_updated period_id status h) s =
      let (_, u) = update_period_status-Updated period_id status b b' h in
      let same = u.result in
      IsStuck-same b b' (ap (λ z. z.journals) same) (ap (λ z. z.next_journal) same) s
  Step-IsStuck pick b b' (journal_created clock dto created_by j h) s =
      create-IsStuck n p clock dto created_by b b' j h s
  Step-IsStuck pick b b' (journal_posted clock k posted_by h) s =
      post-IsStuck n p clock pick k posted_by b b' h s
  Step-IsStuck pick b b' (journal_reversed clock read k reversed_by period_id j h) s =
      reverse-IsStuck n p clock pick read k reversed_by period_id b b' j h s
  Step-IsStuck pick b b' (auto_posted clock session dto posted_by k h) s =
      auto_post-keeps clock pick (IsStuck n p) (create-IsStuck n p clock)
        (post-IsStuck n p clock pick) session dto posted_by k b b' h s

  pub Reach-IsStuck :
      (pick : List LedgerRow → Option LedgerRow) (b c : Books)
      → Reach pick b c
      → IsStuck n p b
      → IsStuck n p c
  Reach-IsStuck pick b c here s = s
  Reach-IsStuck pick b c (next {c = d} r step) s =
      Step-IsStuck pick d c step (Reach-IsStuck pick b d r s)

  pub IsDraftOff-exists :
      (js : List Journal) (j : Journal)
      → find_journal n js ≡ some j
      → IsDraftOff n p j
      → exists_where (is_draft_of p) js ≡ true
  IsDraftOff-exists [] j h o = cc
  IsDraftOff-exists (i ∷ is) j h o = elim (Bool-cases (i.id == n)) [
    | inl e ↦
        let here : i ≡ j = ground (arith, h, e) in
        let is_draft_here : is_draft_of p i ≡ true = ground (arith, here, o.1, o.2) in
        rw is_draft_here refl
    | inr e ↦ ground (arith, IsDraftOff-exists is j (rw e at h) o)
  ]

pub created-IsStuck :
    (clock : Clock) (dto : JournalDto) (created_by : ℕ) (b b' : Books) (j : Journal)
    → create clock dto created_by b ≡ ok (j, b')
    → sum_of debit_of dto.lines ≢ sum_of credit_of dto.lines
    → IsStuck j.id dto.period_id b'
created-IsStuck clock dto created_by b b' j h off =
    let (q, made) = create-Created clock dto created_by b b' j h in
    let front : b'.journals ≡ j ∷ b.journals =
      (λ i. (made.result i).journals) ∙ (λ i. sym made.journal i ∷ b.journals) in
    let id : j.id ≡ b.next_journal = ap (λ z. z.id) made.journal in
    let counted : b'.next_journal ≡ suc b.next_journal = ap (λ z. z.next_journal) made.result in
    record {
      entry = j;
      found = ap (find_journal j.id) front ∙ ground arith;
      off = (
        refl,
        ap (λ z. z.status) made.journal,
        ap (λ z. z.period_id) made.journal,
        λ e.
            off
              ((λ i. (sym made.journal i).total_debit) ∙ e ∙ (λ i. (made.journal i).total_credit)),
      );
      known = omega (arith, id, counted);
    }
