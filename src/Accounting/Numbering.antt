-- ===== src/Accounting/Numbering.antt =====
-- src/common/document-number.service.ts: the next number of a kind of document, from the counter
-- of the kind and the year.
use backend_erp.Prelude.{
  ℕ, ◌+◌, ◌==◌, if◌then◌else◌, Bool, ◌&&◌, none, some, List, ◌∷◌, take_first, exists_where,
  update_where,
}
use backend_erp.Database.{Action, ◌>>◌, gets, modify}
use backend_erp.Accounting.Schema.{DocType, DocumentNumber, DocumentCounter, Books, Clock, doc_code}

abbrev pub is_counter : DocType → ℕ → DocumentCounter → Bool
is_counter t year c = doc_code c.doc_type == doc_code t && c.year == year

-- INSERT … ON CONFLICT DO NOTHING
abbrev pub ensure_counter : DocType → ℕ → List DocumentCounter → List DocumentCounter
ensure_counter t year cs =
    if exists_where (is_counter t year) cs
    then cs
    else record { doc_type = t; year = year; counter = 0 } ∷ cs

-- UPDATE … SET counter = counter + 1
abbrev pub increment : DocType → ℕ → List DocumentCounter → List DocumentCounter
increment t year = update_where (is_counter t year) (λ c. record c { counter = c.counter + 1 })

abbrev pub read_counter : DocType → ℕ → List DocumentCounter → ℕ
read_counter t year cs = elim (take_first (is_counter t year) cs) [ none ↦ 0 | some c ↦ c.counter ]

abbrev pub bump : DocType → ℕ → Books → Books
bump t year b = record b { counters = increment t year (ensure_counter t year b.counters) }

abbrev pub number_of : DocType → ℕ → Books → DocumentNumber
number_of t year b = record { doc_type = t; year = year; counter = read_counter t year b.counters }

-- `generate`; the row exists and its counter is at least 1, so the last check of the source never
-- throws
unfoldable pub generate : Clock → DocType → Action Books DocumentNumber
generate clock t = do modify (bump t clock.year); gets (number_of t clock.year)
