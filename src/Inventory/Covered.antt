-- ===== src/Inventory/Covered.antt =====
-- What the check of `validateSufficientStock` lets through does not go below zero.
use backend_erp.Prelude.{◌≡◌, inl, inr, true, List, All}
use backend_erp.Prelude.Int.{pos, ◌+ℤ◌, ◌≤ℤ◌, int_laws}
use backend_erp.Database.{ok}
use backend_erp.Inventory.Schema.{Direction, Item, Key, Stock}
use backend_erp.Inventory.OnHand.{stock_on_hand}
use backend_erp.Inventory.Movements.{requirements_of, check_requirements}
use backend_erp.Inventory.Requirements.{
  is_real, need-requirements_of, requirements_of-Distinct, requirements_of-All, need-bounded,
  check_requirements-All,
}
use backend_erp.Inventory.Levels.{sum_of_direction, sum_of_direction-bounded}

pub taken-covered :
    (d : Direction) (is : List Item) (s : Stock) (k : Key)
    → is_real k.batch_id ≡ true
    → All (λ i. is_real i.batch_id ≡ true) is
    → check_requirements (requirements_of is) s ≡ ok (tt, s)
    → pos 0 ≤ℤ stock_on_hand k s
    → pos 0 ≤ℤ stock_on_hand k s +ℤ sum_of_direction d k is
taken-covered d is s k real reals h level =
    let (_, enough) = check_requirements-All (requirements_of is) s s h in
    let takes = sum_of_direction-bounded d k is in
    let total = need-requirements_of k is in
    elim (need-bounded (λ j. stock_on_hand j s) k (requirements_of is) real
      (requirements_of-Distinct is) (requirements_of-All is reals) enough) [
        | inl none_needed ↦ omega (int_laws, takes, total, none_needed, level)
        | inr covered ↦ omega (int_laws, takes, total, covered)
      ]
