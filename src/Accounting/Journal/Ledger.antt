-- ===== src/Accounting/Journal/Ledger.antt =====
-- The balances that `post` leaves behind: right for a journal of distinct accounts, and not always
-- for one that names an account more than once.
use mathlib.Core.List.{Memᴰ}
use backend_erp.Prelude.{
  ℕ, ◌≤◌, ltb, if◌then◌else◌, ◌≡◌, refl, sym, subst, inl, inr, Option, none, some, List, [], ◌∷◌,
  arith, Bool-cases, All, All-map,
}
use backend_erp.Prelude.Int.{pos, ◌+ℤ◌, ◌-ℤ◌}
use backend_erp.Database.{ok}
use backend_erp.Accounting.Schema.{Journal, JournalLine, LedgerRow, Books, Clock, find_journal}
use backend_erp.Accounting.Journal.Posting.{
  LatestFirst, lines_of, new_balance, post_line, post_lines, post,
}
use backend_erp.Accounting.Journal.Posts.{post-Posted}
use backend_erp.Accounting.Journal.Running.{
  rows_of, AllRunning, AreFresh, DistinctAccounts, post_lines-Running,
}
use backend_erp.Accounting.Journal.Balances.{AllAgree, post_lines-Agree}

-- Posting a journal whose lines name distinct accounts, at a time after all rows of those accounts
-- in its period, keeps every running balance right, and keeps the account balances equal to the
-- sums and the net of the ledger.
pub post-AllAgree :
    (clock : Clock) (pick : List LedgerRow → Option LedgerRow) (latest : LatestFirst pick)
    (journal_id posted_by : ℕ) (b b' : Books) (j : Journal)
    → post clock pick journal_id posted_by b ≡ ok (tt, b')
    → find_journal journal_id b.journals ≡ some j
    → DistinctAccounts (lines_of journal_id b)
    → AreFresh pick latest clock j (lines_of journal_id b) b
    → AllRunning b.ledger
    → AllAgree b
    → AllRunning b'.ledger × AllAgree b'
post-AllAgree clock pick latest journal_id posted_by b b' j h found distinct fresh run agree =
    let (k, p, r) = post-Posted clock pick journal_id posted_by b b' h in
    let same : j ≡ k = ground (arith, r.found) in
    let ls = lines_of journal_id b in
    let fresh' = subst (λ x. AreFresh pick latest clock x ls b) same fresh in
    (
      subst (λ x. AllRunning x.ledger) (sym r.result)
          (post_lines-Running pick latest clock k ls b distinct fresh' run),
      subst AllAgree (sym r.result)
          (post_lines-Agree clock k pick latest ls b distinct fresh' run agree),
    )

-- Of the rows of the latest time, the one that was written first.
abbrev pub oldest_latest : List LedgerRow → Option LedgerRow
oldest_latest [] = none
oldest_latest (r ∷ rs) = elim (oldest_latest rs) [
  | none ↦ some r
  | some t ↦ if ltb t.created_at r.created_at then some r else some t
]

oldest_latest-some :
    (r : LedgerRow) (rs : List LedgerRow)
    → (t : LedgerRow) × (oldest_latest (r ∷ rs) ≡ some t)
      × Memᴰ t (r ∷ rs)
      × All (λ s. s.created_at ≤ t.created_at) (r ∷ rs)
oldest_latest-some r [] = (r, refl, Memᴰ.head refl, (omega arith, tt))
oldest_latest-some r (s ∷ rs) =
    let (t, e, m, le) = oldest_latest-some s rs in
    elim (Bool-cases (ltb t.created_at r.created_at)) [
      | inl later ↦ (
        r,
        rw (e, later),
        Memᴰ.head refl,
        (omega arith, All-map _ _ (s ∷ rs) (λ x h. ground arith) le),
      )
      | inr earlier ↦ (t, rw (e, earlier), Memᴰ.tail m, (ground arith, le))
    ]

pub oldest_latest-LatestFirst : LatestFirst oldest_latest
oldest_latest-LatestFirst = record { none_of_nil = refl; some_of_cons = oldest_latest-some }

-- Rows of one transaction bear one time, and the query orders by the time alone. So for an account
-- that has no rows in the period yet there is a choice of PostgreSQL's, allowed by ORDER BY
-- created_at DESC LIMIT 1, with which the balance that is posted for the third line of the account in
-- a journal leaves the second line out.
pub repeated_account_loses_line :
    (clock : Clock) (j : Journal) (k l m : JournalLine) (b : Books)
    → l.account_id ≡ k.account_id
    → m.account_id ≡ k.account_id
    → rows_of k.account_id j.period_id b.ledger ≡ []
    → (pick : List LedgerRow → Option LedgerRow) × LatestFirst pick
      × (new_balance pick j m (post_lines clock pick j (k ∷ l ∷ []) b)
          ≡ pos 0 +ℤ pos k.debit -ℤ pos k.credit +ℤ pos m.debit -ℤ pos m.credit)
unfolding post_lines post_line
repeated_account_loses_line clock j k l m b e f empty =
    (oldest_latest, oldest_latest-LatestFirst, ground (arith, e, f, empty))
