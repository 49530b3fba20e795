-- ===== src/Sales/Totals.antt =====
-- `calculateTotals` and `calcLineSubtotal` of src/modules/sales-order/services/sales-order.service.ts.
--
-- The sums are exact here: a product of a quantity and a price has eight decimals, less the
-- discount twelve, and with tax sixteen. `Math.round(x * 100) / 100` rounds them to cents.
use backend_erp.Prelude.{ℕ, ◌+◌, ◌-◌, ◌*◌, ◌/◌, List, [], ◌∷◌}

pub record LineAmounts : Type 0 where
  pub quantity : ℕ
  pub unit_price : ℕ
  pub discount_pct : ℕ
  pub tax_pct : ℕ

-- to cents, from a number of parts that make up a cent
abbrev pub round_to_cents : ℕ → ℕ → ℕ
round_to_cents part n = (n + part / 2) / part

-- The parts of a cent: of twelve decimals, and of sixteen.
abbrev pub part12 : ℕ
part12 = 10000000000

abbrev pub part16 : ℕ
part16 = 100000000000000

-- a cent in ten-thousandths
abbrev pub cent : ℕ
cent = 100

abbrev pub gross : LineAmounts → ℕ
gross l = l.quantity * l.unit_price

-- with twelve decimals; the percentage is at most 100
abbrev pub after_discount : LineAmounts → ℕ
after_discount l = gross l * (10000 - l.discount_pct)

abbrev pub discount_of : LineAmounts → ℕ
discount_of l = gross l * l.discount_pct

-- with sixteen decimals
abbrev pub tax_of : LineAmounts → ℕ
tax_of l = after_discount l * l.tax_pct

pub record Sums : Type 0 where
  pub subtotal : ℕ
  pub discount_amount : ℕ
  pub tax_amount : ℕ

-- the loop
abbrev pub sums_of : List LineAmounts → Sums
sums_of [] = record { subtotal = 0; discount_amount = 0; tax_amount = 0 }
sums_of (l ∷ ls) = record {
  subtotal = after_discount l + (sums_of ls).subtotal;
  discount_amount = discount_of l + (sums_of ls).discount_amount;
  tax_amount = tax_of l + (sums_of ls).tax_amount;
}

pub record Totals : Type 0 where
  pub subtotal : ℕ
  pub discount_amount : ℕ
  pub tax_amount : ℕ
  pub total_amount : ℕ

abbrev pub totals_of : Sums → Totals
totals_of s = record {
  subtotal = round_to_cents part12 s.subtotal * cent;
  discount_amount = round_to_cents part12 s.discount_amount * cent;
  tax_amount = round_to_cents part16 s.tax_amount * cent;
  total_amount = round_to_cents part16 (s.subtotal * 10000 + s.tax_amount) * cent;
}

-- `calculateTotals`
unfoldable pub calculate_totals : List LineAmounts → Totals
calculate_totals ls = totals_of (sums_of ls)

-- `calcLineSubtotal`
unfoldable pub calc_line_subtotal : LineAmounts → ℕ
calc_line_subtotal l =
    round_to_cents part16 (gross l * (10000 - l.discount_pct) * (10000 + l.tax_pct)) * cent
