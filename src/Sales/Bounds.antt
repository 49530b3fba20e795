-- ===== src/Sales/Bounds.antt =====
-- How far the rounded totals of an order may lie apart.
use backend_erp.Prelude.{
  ℕ, ◌+◌, ◌-◌, ◌*◌, ◌≤◌, ◌≡◌, refl, List, [], ◌∷◌, arith, sum_of, length, subst,
}
use backend_erp.Sales.Totals.{
  LineAmounts, part16, cent, round_to_cents, gross, after_discount, sums_of, calculate_totals,
  calc_line_subtotal,
}

-- Two amounts lie at most `n` apart.
abbrev pub IsWithin : ℕ → ℕ → ℕ → Type 0
IsWithin n a b = (a ≤ b + n) × (b ≤ a + n)

abbrev exact_line : LineAmounts → ℕ
exact_line l = gross l * (10000 - l.discount_pct) * (10000 + l.tax_pct)

mul_add : (a b c : ℕ) → a * (b + c) ≡ a * b + a * c
mul_add a b c = omega arith

sums_of-exact :
    (ls : List LineAmounts)
    → (sums_of ls).subtotal * 10000 + (sums_of ls).tax_amount ≡ sum_of exact_line ls
sums_of-exact [] = refl
sums_of-exact (l ∷ ls) = omega (arith, sums_of-exact ls, mul_add (after_discount l) 10000 l.tax_pct)

-- Rounding moves an amount by half a cent at most.
abbrev round16 : ℕ → ℕ
round16 n = round_to_cents part16 n

round-IsWithin : (n : ℕ) → IsWithin 50000000000000 (round16 n * part16) n
round-IsWithin n = (omega arith, omega arith)

lines-IsWithin :
    (ls : List LineAmounts)
    → IsWithin
        (length ls * 50000000000000)
        (sum_of (λ l. round16 (exact_line l)) ls * part16)
        (sum_of exact_line ls)
lines-IsWithin [] = (omega arith, omega arith)
lines-IsWithin (l ∷ ls) =
    let here = round-IsWithin (exact_line l) in
    let rest = lines-IsWithin ls in (omega (arith, here.0, rest.0), omega (arith, here.1, rest.1))

sum_of-cents :
    (ls : List LineAmounts)
    → sum_of calc_line_subtotal ls ≡ sum_of (λ l. round16 (exact_line l)) ls * cent
unfolding calc_line_subtotal
sum_of-cents [] = refl
sum_of-cents (l ∷ ls) = omega (arith, sum_of-cents ls)

halves :
    (n cents total exact : ℕ)
    → IsWithin (n * 50000000000000) (cents * part16) exact
    → IsWithin 50000000000000 (total * part16) exact
    → IsWithin ((n + 1) * cent) (2 * (cents * cent)) (2 * (total * cent))
halves n cents total exact h k = (omega (arith, h.0, k.1), omega (arith, h.1, k.0))

-- The total of an order is at most a cent away from subtotal and tax together, each of them being
-- rounded by itself; and twice the sum of the line subtotals is at most as many cents away from
-- twice the total as there are lines and one.
pub calculate_totals-IsWithin :
    (ls : List LineAmounts)
    → (IsWithin cent
        (calculate_totals ls).total_amount
        ((calculate_totals ls).subtotal + (calculate_totals ls).tax_amount))
      × (IsWithin
          ((length ls + 1) * cent)
          (2 * sum_of calc_line_subtotal ls)
          (2 * (calculate_totals ls).total_amount))
unfolding calculate_totals
calculate_totals-IsWithin ls =
    let s = (sums_of ls).subtotal in
    let t = (sums_of ls).tax_amount in
    let total = round16 (s * 10000 + t) in
    let lines =
      halves (length ls) (sum_of (λ l. round16 (exact_line l)) ls) total (sum_of exact_line ls)
        (lines-IsWithin ls)
        (subst (λ z. IsWithin 50000000000000 (total * part16) z) (sums_of-exact ls)
          (round-IsWithin (s * 10000 + t))) in
    (
      (omega arith, omega arith),
      (omega (arith, sum_of-cents ls, lines.0), omega (arith, sum_of-cents ls, lines.1)),
    )
