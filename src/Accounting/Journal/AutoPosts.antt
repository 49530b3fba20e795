-- ===== src/Accounting/Journal/AutoPosts.antt =====
-- `autoPost` as a whole: it keeps the books sound, and a second call for the same business
-- reference finds the first one's entry, but not inside a transaction.
use backend_erp.Prelude.{
  ℕ, ◌&&◌, ◌≡◌, refl, sym, subst, ◌∙◌, inl, inr, Option, List, arith, Bool-cases, Option-cases,
  take_first,
}
use backend_erp.Database.{Result, ok, err, Failure, >>=-eq-ok, Session, pool, transaction}
use backend_erp.Accounting.Schema.{
  Journal, LedgerRow, Books, Clock, JournalStatus, draft, posted, reversed,
}
use backend_erp.Accounting.Period.{get_active_period_for_date}
use backend_erp.Accounting.Journal.Entry.{JournalDto, has_reference, create}
use backend_erp.Accounting.Journal.Posting.{post}
use backend_erp.Accounting.Journal.Reversal.{
  AutoPostDto, with_period, period_for, post_new, settle, find_existing, recover, auto_post,
  is_reference_taken, has_business_reference,
}

period_for-same :
    (o : Option ℕ) (date n : ℕ) (b b' : Books) → period_for o date b ≡ ok (n, b') → b' ≡ b
unfolding get_active_period_for_date
period_for-same o date n b b' h = ground arith

module _ (clock : Clock) (pick : List LedgerRow → Option LedgerRow) where
  -- The three steps of a new entry that succeeds.
  pub record Steps (dto : AutoPostDto) (posted_by n : ℕ) (b b' : Books) (p : ℕ) (j : Journal)
      (c : Books) : Type 0 where
    pub period : period_for dto.period_id dto.entry_date b ≡ ok (p, b)
    pub created : create clock (with_period dto p) posted_by b ≡ ok (j, c)
    pub posted : post clock pick j.id posted_by c ≡ ok (tt, b')
    pub id : n ≡ j.id

  pub post_new-Steps :
      (dto : AutoPostDto) (posted_by n : ℕ) (b b' : Books)
      → post_new clock pick dto posted_by b ≡ ok (n, b')
      → (p : ℕ) × (j : Journal) × (c : Books) × Steps dto posted_by n b b' p j c
  unfolding post_new
  post_new-Steps dto posted_by n b b' h =
      let (p, b1, e1, h1) = >>=-eq-ok (period_for dto.period_id dto.entry_date) _ b h in
      let same = period_for-same dto.period_id dto.entry_date p b b1 e1 in
      let (j, c, e2, h2) = >>=-eq-ok (create clock (with_period dto p) posted_by) _ b1 h1 in
      let (u, d, e3, h3) = >>=-eq-ok (post clock pick j.id posted_by) _ c h2 in
      (
        p,
        j,
        c,
        record {
          period = ground arith;
          created = subst (λ x. create clock (with_period dto p) posted_by x ≡ ok (j, c)) same e2;
          posted = ground arith;
          id = ground arith;
        },
      )

-- What every `create` and every `post` keeps, `autoPost` keeps: it makes and posts a new entry, or
-- settles the one that holds the reference, or changes nothing.
module _ (clock : Clock) (pick : List LedgerRow → Option LedgerRow) (P : Books → Type 0)
    (create_keeps : (dto : JournalDto) (created_by : ℕ) (b b' : Books) (j : Journal)
      → create clock dto created_by b ≡ ok (j, b')
      → P b
      → P b')
    (post_keeps : (journal_id posted_by : ℕ) (b b' : Books)
      → post clock pick journal_id posted_by b ≡ ok (tt, b')
      → P b
      → P b') where
  post_new-keeps :
      (dto : AutoPostDto) (posted_by n : ℕ) (b b' : Books)
      → post_new clock pick dto posted_by b ≡ ok (n, b')
      → P b
      → P b'
  post_new-keeps dto posted_by n b b' h s =
      let (p, j, c, steps) = post_new-Steps clock pick dto posted_by n b b' h in
      post_keeps j.id posted_by c b' steps.posted
        (create_keeps (with_period dto p) posted_by b c j steps.created s)

  settle-keeps :
      (j : Journal) (status : JournalStatus) (posted_by n : ℕ) (b b' : Books)
      → settle clock pick j status posted_by b ≡ ok (n, b')
      → P b
      → P b'
  settle-keeps j draft posted_by n b b' h s =
      let (u, c, e, k) = >>=-eq-ok (post clock pick j.id posted_by) _ b h in
      let same : b' ≡ c = ground arith in subst P (sym same) (post_keeps j.id posted_by b c e s)
  settle-keeps j posted posted_by n b b' h s = subst P (ground arith) s
  settle-keeps j reversed posted_by n b b' h s = cc

  find_existing-keeps :
      (session : Session) (dto : AutoPostDto) (posted_by n : ℕ) (b b' : Books)
      → find_existing clock pick session dto posted_by b ≡ ok (n, b')
      → P b
      → P b'
  find_existing-keeps transaction dto posted_by n b b' k s = cc
  find_existing-keeps pool dto posted_by n b b' k s =
      elim (Option-cases
        (take_first (has_reference dto.reference_type dto.reference_id) b.journals)) [
          | inl missing ↦ ground arith
          | inr (j, e) ↦ settle-keeps j j.status posted_by n b b' (rw e at k) s
        ]

  recover-keeps :
      (session : Session) (dto : AutoPostDto) (posted_by n : ℕ) (e : Failure) (b b' : Books)
      → recover clock pick session dto posted_by e b ≡ ok (n, b')
      → P b
      → P b'
  recover-keeps session dto posted_by n e b b' h s =
      elim (Bool-cases
        (is_reference_taken e && has_business_reference dto.reference_type dto.reference_id)) [
          | inr other ↦ cc (rw other at h)
          | inl taken ↦ find_existing-keeps session dto posted_by n b b' (rw taken at h) s
        ]

  pub auto_post-keeps :
      (session : Session) (dto : AutoPostDto) (posted_by n : ℕ) (b b' : Books)
      → auto_post clock pick session dto posted_by b ≡ ok (n, b')
      → P b
      → P b'
  unfolding auto_post
  auto_post-keeps session dto posted_by n b b' h s = go (post_new clock pick dto posted_by b) refl h
    where
      go :
          (q : Result (ℕ × Books))
          → post_new clock pick dto posted_by b ≡ q
          → (elim q as (λ _. Result (ℕ × Books)) [
            | ok r ↦ ok r
            | err e ↦ recover clock pick session dto posted_by e b
          ])
            ≡ ok (n, b')
          → P b'
      go (ok r) e k =
          let same : r ≡ (n, b') = ground arith in
          post_new-keeps dto posted_by n b b' (e ∙ (λ i. ok (same i))) s
      go (err x) e k = recover-keeps session dto posted_by n x b b' k s
