-- ===== src/Accounting/Journal/Sums.antt =====
-- Sums of a column over the lines of a journal, and over the ledger rows of a period.
use backend_erp.Prelude.{
  ℕ, suc, ◌+◌, ◌<◌, ◌==◌, ◌≡◌, refl, Option, List, [], ◌∷◌, ◌++◌, arith, All, sum_of, select_where,
  update_where,
}
use backend_erp.Accounting.Schema.{DocumentNumber, JournalLine, LedgerRow}
use backend_erp.Accounting.Journal.Entry.{LineDto, debit_of, credit_of, new_lines}

-- The sum of a column over the ledger rows of a period.
abbrev pub ledger_sum : (LedgerRow → ℕ) → ℕ → List LedgerRow → ℕ
ledger_sum column period_id rows = sum_of column (select_where (λ r. r.period_id == period_id) rows)

abbrev pub line_sum : (JournalLine → ℕ) → ℕ → List JournalLine → ℕ
line_sum column journal_id lines =
    sum_of column (select_where (λ l. l.journal_entry_id == journal_id) lines)

-- The folio that `post` writes into a line leaves the sums alone.
pub line_sum-folio :
    (column : JournalLine → ℕ) (n : Option DocumentNumber) (journal_id line_id : ℕ)
    (ls : List JournalLine)
    → ((l : JournalLine) → column (record l { folio = n }) ≡ column l)
    → line_sum column journal_id
        (update_where (λ k. k.id == line_id) (λ k. record k { folio = n }) ls)
      ≡ line_sum column journal_id ls
line_sum-folio column n journal_id line_id [] h = refl
line_sum-folio column n journal_id line_id (l ∷ ls) h =
    ground (arith, h l, line_sum-folio column n journal_id line_id ls h)

pub line_sum-new_lines_debit :
    (journal_id line_id : ℕ) (ls : List LineDto)
    → line_sum (λ l. l.debit) journal_id (new_lines journal_id line_id ls) ≡ sum_of debit_of ls
line_sum-new_lines_debit journal_id line_id [] = refl
line_sum-new_lines_debit journal_id line_id (l ∷ ls) =
    ground (arith, line_sum-new_lines_debit journal_id (suc line_id) ls)

pub line_sum-new_lines_credit :
    (journal_id line_id : ℕ) (ls : List LineDto)
    → line_sum (λ l. l.credit) journal_id (new_lines journal_id line_id ls) ≡ sum_of credit_of ls
line_sum-new_lines_credit journal_id line_id [] = refl
line_sum-new_lines_credit journal_id line_id (l ∷ ls) =
    ground (arith, line_sum-new_lines_credit journal_id (suc line_id) ls)

pub line_sum-new_lines_other :
    (column : JournalLine → ℕ) (k journal_id line_id : ℕ) (ls : List LineDto)
    → k < journal_id
    → line_sum column k (new_lines journal_id line_id ls) ≡ 0
line_sum-new_lines_other column k journal_id line_id [] h = refl
line_sum-new_lines_other column k journal_id line_id (l ∷ ls) h =
    ground (arith, line_sum-new_lines_other column k journal_id (suc line_id) ls h)

pub line_sum-append :
    (column : JournalLine → ℕ) (k : ℕ) (xs ys : List JournalLine)
    → line_sum column k (xs ++ ys) ≡ line_sum column k xs + line_sum column k ys
line_sum-append column k [] ys = omega arith
line_sum-append column k (x ∷ xs) ys = ground (arith, line_sum-append column k xs ys)

-- no line belongs to a journal that does not exist yet
pub line_sum-fresh :
    (column : JournalLine → ℕ) (n : ℕ) (xs : List JournalLine)
    → All (λ l. l.journal_entry_id < n) xs
    → line_sum column n xs ≡ 0
line_sum-fresh column n [] h = refl
line_sum-fresh column n (x ∷ xs) h = ground (arith, line_sum-fresh column n xs h.1)
