-- ===== src/Inventory/Summary.antt =====
-- The materialized view stock_summary against `getStockOnHand`.
use backend_erp.Prelude.{
  ℕ, if◌then◌else◌, ◌≡◌, refl, ap, ◌∙◌, false, Option, none, some, List, [], ◌∷◌, All,
}
use backend_erp.Prelude.Int.{ℤ, pos, ◌+ℤ◌, int_laws}
use backend_erp.Inventory.Schema.{Direction, in_, out, transfer, Item, Key, SummaryRow, Stock}
use backend_erp.Inventory.Movements.{same_warehouse}
use backend_erp.Inventory.OnHand.{
  direction_of, delta, sum_deltas, stock_on_hand, quantity_in, quantity_out, key_at, same_key,
  add_to_group, add_side, add_item, summary_of, refresh_stock_summary,
}

-- What the view shows for a key: the first row of the key, or nothing.
abbrev pub quantity_at : Key → List SummaryRow → ℤ
quantity_at k [] = pos 0
quantity_at k (r ∷ rs) = if same_key r.key k then r.quantity_on_hand else quantity_at k rs

quantity_at-add_to_group :
    (j k : Key) (n : ℤ) (rows : List SummaryRow)
    → quantity_at k (add_to_group j n rows)
      ≡ (if same_key j k then quantity_at k rows +ℤ n else quantity_at k rows)
quantity_at-add_to_group j k n [] = grind int_laws
quantity_at-add_to_group j k n (r ∷ rows) = grind (int_laws, quantity_at-add_to_group j k n rows)

abbrev side : Item → Option ℕ → Key → ℤ → ℤ
side i none k n = pos 0
side i (some w) k n = if same_key (key_at i w) k then n else pos 0

quantity_at-add_side :
    (i : Item) (o : Option ℕ) (k : Key) (n : ℤ) (rows : List SummaryRow)
    → quantity_at k (add_side i o n rows) ≡ quantity_at k rows +ℤ side i o k n
quantity_at-add_side i none k n rows = grind int_laws
quantity_at-add_side i (some w) k n rows =
    grind (int_laws, quantity_at-add_to_group (key_at i w) k n rows)

-- Its warehouses differ.
abbrev pub IsProper : Item → Type 0
IsProper i = same_warehouse i.from_warehouse_id i.to_warehouse_id ≡ false

sides-eq-delta :
    (d : Direction) (i : Item) (k : Key)
    → (d ≡ transfer → IsProper i)
    → side i i.to_warehouse_id k (quantity_in d i.quantity)
        +ℤ side i i.from_warehouse_id k (quantity_out d i.quantity)
      ≡ delta (some d) k i
sides-eq-delta in_ i k proper = grind int_laws
sides-eq-delta out i k proper = grind int_laws
sides-eq-delta transfer i k proper = grind (int_laws, proper refl)

add_item-delta :
    (d : Option Direction) (i : Item) (k : Key) (rows : List SummaryRow)
    → (d ≡ some transfer → IsProper i)
    → quantity_at k (add_item d i rows) ≡ quantity_at k rows +ℤ delta d k i
add_item-delta none i k rows proper = grind int_laws
add_item-delta (some d) i k rows proper =
    let after = add_side i i.from_warehouse_id (quantity_out d i.quantity) rows in
    grind (
      int_laws,
      quantity_at-add_side i i.to_warehouse_id k (quantity_in d i.quantity) after,
      quantity_at-add_side i i.from_warehouse_id k (quantity_out d i.quantity) rows,
      sides-eq-delta d i k,
    )

summary_of-sum :
    (s : Stock) (k : Key) (is : List Item)
    → All (λ i. direction_of s i.movement_id ≡ some transfer → IsProper i) is
    → quantity_at k (summary_of s is) ≡ sum_deltas s k is
summary_of-sum s k [] h = refl
summary_of-sum s k (i ∷ is) h =
    add_item-delta (direction_of s i.movement_id) i k (summary_of s is) h.0
    ∙ ap (λ z. z +ℤ delta (direction_of s i.movement_id) k i) (summary_of-sum s k is h.1)

-- After a refresh the view shows for every key what `getStockOnHand` computes, if no confirmed
-- transfer goes from a warehouse to itself.
pub refresh-stock_on_hand :
    (s : Stock) (k : Key)
    → All (λ i. direction_of s i.movement_id ≡ some transfer → IsProper i) s.items
    → quantity_at k (refresh_stock_summary s).summary ≡ stock_on_hand k s
refresh-stock_on_hand s k h = summary_of-sum s k s.items h
