-- ===== src/Accounting/Journal/Running.antt =====
-- The running balance of the general ledger: what `post` reads back as the last balance of an
-- account, and what it writes.
use mathlib.Core.List.{Memᴰ}
use backend_erp.Prelude.{
  ℕ, ◌<◌, ◌≤◌, ◌==◌, ◌≡◌, ◌≢◌, subst, ap, ◌∙◌, false, ◌&&◌, inl, inr, Option, some, List, [], ◌∷◌,
  arith, Bool-cases, All, select_where,
}
use backend_erp.Prelude.Int.{ℤ, pos, ◌+ℤ◌, ◌-ℤ◌}
use backend_erp.Accounting.Schema.{Journal, JournalLine, LedgerRow, Books, Clock}
use backend_erp.Accounting.Journal.Posting.{
  is_row_of, balance_or_zero, LatestFirst, ledger_row, new_balance, post_line, post_lines,
}

-- Debits less credits.
abbrev pub net : List LedgerRow → ℤ
net [] = pos 0
net (r ∷ rs) = net rs +ℤ pos r.debit -ℤ pos r.credit

-- Each row carries the net of the rows up to it, and is later than those before it.
abbrev pub IsRunning : List LedgerRow → Type 0
IsRunning [] = Unit
IsRunning (r ∷ rs) =
    (r.balance ≡ net (r ∷ rs)) × All (λ s. s.created_at < r.created_at) rs × IsRunning rs

-- The rows of an account in a period, the newest first.
abbrev pub rows_of : ℕ → ℕ → List LedgerRow → List LedgerRow
rows_of account_id period_id = select_where (is_row_of account_id period_id)

abbrev pub AllRunning : List LedgerRow → Type 0
AllRunning ledger = (a p : ℕ) → IsRunning (rows_of a p ledger)

abbrev pub DistinctAccounts : List JournalLine → Type 0
DistinctAccounts [] = Unit
DistinctAccounts (l ∷ ls) = All (λ k. k.account_id ≢ l.account_id) ls × DistinctAccounts ls

not_member :
    (t r : LedgerRow) (rs : List LedgerRow)
    → All (λ s. s.created_at < r.created_at) rs
    → r.created_at ≤ t.created_at
    → Memᴰ t rs
    → ⊥
not_member t r [] h le m = elim m [ ]
not_member t r (s ∷ rs) h le (Memᴰ.head e) =
    let same : t.created_at ≡ s.created_at = λ i. (e i).created_at in absurd (omega (arith, h.0))
not_member t r (s ∷ rs) h le (Memᴰ.tail m) = not_member t r rs h.1 le m

module _ (pick : List LedgerRow → Option LedgerRow) (latest : LatestFirst pick) where
  -- The row that is read back is the newest, so its balance is the net of all.
  pub pick-eq-net : (rs : List LedgerRow) → IsRunning rs → balance_or_zero (pick rs) ≡ net rs
  pick-eq-net [] h = rw latest.none_of_nil
  pick-eq-net (r ∷ rs) h = go (latest.some_of_cons r rs)
    where
      newest :
          (t : LedgerRow) → Memᴰ t (r ∷ rs) → r.created_at ≤ t.created_at → t.balance ≡ net (r ∷ rs)
      newest t (Memᴰ.head e) le = (λ i. (e i).balance) ∙ h.0
      newest t (Memᴰ.tail m) le = absurd (not_member t r rs h.1 le m)

      go :
          ((t : LedgerRow) × (pick (r ∷ rs) ≡ some t)
            × Memᴰ t (r ∷ rs)
            × All (λ s. s.created_at ≤ t.created_at) (r ∷ rs))
          → balance_or_zero (pick (r ∷ rs)) ≡ net (r ∷ rs)
      go (t, e, m, le) = rw e (newest t m le.0)

  pub new_balance-eq-net :
      (j : Journal) (l : JournalLine) (b : Books)
      → AllRunning b.ledger
      → new_balance pick j l b
        ≡ net (rows_of l.account_id j.period_id b.ledger) +ℤ pos l.debit -ℤ pos l.credit
  new_balance-eq-net j l b h =
      ap (λ (z : ℤ). z +ℤ pos l.debit -ℤ pos l.credit) (pick-eq-net _ (h l.account_id j.period_id))

  module _ (clock : Clock) (j : Journal) where
    new_row-IsRunning :
        (l : JournalLine) (b : Books)
        → AllRunning b.ledger
        → All (λ r. r.created_at < clock.now) (rows_of l.account_id j.period_id b.ledger)
        → IsRunning (
            ledger_row clock j l (new_balance pick j l b)
            ∷ rows_of l.account_id j.period_id b.ledger)
    new_row-IsRunning l b h fresh = (new_balance-eq-net j l b h, fresh, h l.account_id j.period_id)

    -- A line that is posted after all rows of its account leaves every balance right.
    pub post_line-Running :
        (l : JournalLine) (b : Books)
        → AllRunning b.ledger
        → All (λ r. r.created_at < clock.now) (rows_of l.account_id j.period_id b.ledger)
        → AllRunning (post_line clock pick j l b).ledger
    unfolding post_line
    post_line-Running l b h fresh a p = elim (Bool-cases (l.account_id == a && j.period_id == p)) [
      | inr other ↦ rw other (h a p)
      | inl same ↦
          let ea : l.account_id ≡ a = ground arith in
          let ep : j.period_id ≡ p = ground arith in
          let row = ledger_row clock j l (new_balance pick j l b) in
          rw same (
            subst (λ x. IsRunning (row ∷ rows_of x p b.ledger)) ea
              (subst (λ y. IsRunning (row ∷ rows_of l.account_id y b.ledger)) ep
                (new_row-IsRunning l b h fresh)))
    ]

    -- No row of an account that is still to be posted is as late as this transaction.
    abbrev pub AreFresh : List JournalLine → Books → Type 0
    AreFresh ls b =
        All (λ l. All (λ r. r.created_at < clock.now) (rows_of l.account_id j.period_id b.ledger))
          ls

    pub post_line-AreFresh :
        (l : JournalLine) (b : Books) (ls : List JournalLine)
        → All (λ k. k.account_id ≢ l.account_id) ls
        → AreFresh ls b
        → AreFresh ls (post_line clock pick j l b)
    unfolding post_line
    post_line-AreFresh l b [] d f = tt
    post_line-AreFresh l b (k ∷ ks) d f =
        let apart : (l.account_id == k.account_id && j.period_id == j.period_id) ≡ false =
          ground arith in
        (rw apart f.0, post_line-AreFresh l b ks d.1 f.1)

    -- A journal of distinct accounts leaves every balance right.
    pub post_lines-Running :
        (ls : List JournalLine) (b : Books)
        → DistinctAccounts ls
        → AreFresh ls b
        → AllRunning b.ledger
        → AllRunning (post_lines clock pick j ls b).ledger
    unfolding post_lines
    post_lines-Running [] b d f h = h
    post_lines-Running (l ∷ ls) b d f h =
        post_lines-Running ls (post_line clock pick j l b) d.1 (post_line-AreFresh l b ls d.0 f.1)
          (post_line-Running l b h f.0)
