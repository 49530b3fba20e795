-- ===== src/Accounting/Journal/Balances.antt =====
-- The table account_balances against the general ledger: its totals are the sums of the rows that
-- have been posted, and its closing balance is their net.
use backend_erp.Prelude.{
  ℕ, ◌==◌, if◌then◌else◌, ◌≡◌, refl, subst, Bool, true, false, ◌&&◌, inl, inr, Option, none, some,
  List, [], ◌∷◌, arith, Bool-cases, sum_of, take_first, exists_where, update_where,
}
use backend_erp.Prelude.Int.{ℤ}
use backend_erp.Accounting.Schema.{Journal, JournalLine, LedgerRow, AccountBalance, Books, Clock}
use backend_erp.Accounting.Journal.Posting.{
  is_balance_of, add_to_balance, upsert_balance, LatestFirst, ledger_row, balance_row, new_balance,
  post_line, post_lines,
}
use backend_erp.Accounting.Journal.Running.{
  net, rows_of, AllRunning, AreFresh, DistinctAccounts, new_balance-eq-net, post_line-Running,
  post_line-AreFresh,
}

abbrev pub find_balance : ℕ → ℕ → List AccountBalance → Option AccountBalance
find_balance account_id period_id = take_first (is_balance_of account_id period_id)

abbrev merge : AccountBalance → Option AccountBalance → AccountBalance
merge new none = new
merge new (some r) = add_to_balance new r

abbrev same_key : ℕ → ℕ → AccountBalance → Bool
same_key a p new = new.account_id == a && new.period_id == p

find_balance-update :
    (a p : ℕ) (new : AccountBalance) (rows : List AccountBalance)
    → find_balance a p
        (update_where (is_balance_of new.account_id new.period_id) (add_to_balance new) rows)
      ≡ (if same_key a p new
          then elim (find_balance a p rows) [ none ↦ none | some r ↦ some (add_to_balance new r) ]
          else find_balance a p rows)
find_balance-update a p new [] = ground arith
find_balance-update a p new (r ∷ rows) = ground (arith, find_balance-update a p new rows)

find_balance-exists :
    (a p : ℕ) (rows : List AccountBalance)
    → exists_where (is_balance_of a p) rows
      ≡ elim (find_balance a p rows) [ none ↦ false | some _ ↦ true ]
find_balance-exists a p [] = refl
find_balance-exists a p (r ∷ rows) = ground (arith, find_balance-exists a p rows)

find_balance-upsert :
    (a p : ℕ) (new : AccountBalance) (rows : List AccountBalance)
    → find_balance a p (upsert_balance new rows) ≡ (
        if same_key a p new
        then some (merge new (find_balance a p rows))
        else find_balance a p rows)
find_balance-upsert a p new rows = elim (Bool-cases (same_key a p new)) [
  | inr other ↦ ground (arith, find_balance-update a p new rows)
  | inl same ↦
      let ea : new.account_id ≡ a = ground arith in
      let ep : new.period_id ≡ p = ground arith in
      ground (
        arith,
        ea,
        ep,
        find_balance-update a p new rows,
        find_balance-exists new.account_id new.period_id rows,
        find_balance-exists a p rows,
      )
]

-- What the row of an account and a period says of its ledger rows.
abbrev pub Agrees : List LedgerRow → Option AccountBalance → Type 0
Agrees rows none = rows ≡ []
Agrees rows (some b) =
    (b.closing_balance ≡ net rows)
    × (b.total_debit ≡ sum_of (λ r. r.debit) rows)
    × (b.total_credit ≡ sum_of (λ r. r.credit) rows)

abbrev pub AllAgree : Books → Type 0
AllAgree b = (a p : ℕ) → Agrees (rows_of a p b.ledger) (find_balance a p b.balances)

module _ (clock : Clock) (j : Journal) where
  merge-Agrees :
      (l : JournalLine) (balance : ℤ) (rows : List LedgerRow) (o : Option AccountBalance)
      → balance ≡ net (ledger_row clock j l balance ∷ rows)
      → Agrees rows o
      → Agrees (ledger_row clock j l balance ∷ rows) (some (merge (balance_row j l balance) o))
  merge-Agrees l balance rows none e h = (e, rw h (omega arith), rw h (omega arith))
  merge-Agrees l balance rows (some b) e h = (e, omega (arith, h), omega (arith, h))

  module _ (pick : List LedgerRow → Option LedgerRow) (latest : LatestFirst pick) where
    post_line-Agree :
        (l : JournalLine) (b : Books)
        → AllRunning b.ledger
        → AllAgree b
        → AllAgree (post_line clock pick j l b)
    unfolding post_line
    post_line-Agree l b run h a p =
        let new = balance_row j l (new_balance pick j l b) in
        let row = ledger_row clock j l (new_balance pick j l b) in
        rw (find_balance-upsert a p new b.balances)
          (elim (Bool-cases (l.account_id == a && j.period_id == p)) [
            | inr other ↦ rw other (h a p)
            | inl same ↦
                let ea : l.account_id ≡ a = ground arith in
                let ep : j.period_id ≡ p = ground arith in
                let at_key : (x y : ℕ) → Type 0 = λ x y.
                  Agrees (row ∷ rows_of x y b.ledger)
                    (some (merge new (find_balance x y b.balances))) in
                rw same (
                  subst (λ x. at_key x p) ea
                    (subst (λ y. at_key l.account_id y) ep
                      (merge-Agrees l (new_balance pick j l b) _ _
                        (new_balance-eq-net pick latest j l b run) (h l.account_id j.period_id))))
          ])

    -- A journal of distinct accounts leaves the balances in step with the ledger.
    pub post_lines-Agree :
        (ls : List JournalLine) (b : Books)
        → DistinctAccounts ls
        → AreFresh pick latest clock j ls b
        → AllRunning b.ledger
        → AllAgree b
        → AllAgree (post_lines clock pick j ls b)
    unfolding post_lines
    post_lines-Agree [] b d f run h = h
    post_lines-Agree (l ∷ ls) b d f run h =
        post_lines-Agree ls (post_line clock pick j l b) d.1
          (post_line-AreFresh pick latest clock j l b ls d.0 f.1)
          (post_line-Running pick latest clock j l b run f.0) (post_line-Agree l b run h)
