-- ===== src/Inventory/OnHand.antt =====
-- The stock on hand: `getStockOnHand` of src/database/stock-lock.ts, and the materialized view
-- stock_summary (src/database/migrations/tenant/016_correct_stock_summary_transfers.sql).
use backend_erp.Prelude.{
  ℕ, ◌==◌, if◌then◌else◌, Bool, ◌&&◌, ◌||◌, Option, none, some, List, [], ◌∷◌,
}
use backend_erp.Prelude.Int.{ℤ, pos, ◌+ℤ◌, ◌-ℤ◌}
use backend_erp.Inventory.Schema.{
  Direction, in_, out, transfer, Movement, MovementType, Item, Key, SummaryRow, Stock,
  find_movement, find_type, is_confirmed, same_batch, is_at,
}

abbrev pub direction_in : Movement → List MovementType → Option Direction
direction_in m types =
    if is_confirmed m.status
    then elim (find_type m.movement_type_id types) [ none ↦ none | some t ↦ some t.direction ]
    else none

-- The join of an item with its movement, if that is confirmed, and with the movement's type.
abbrev pub direction_of : Stock → ℕ → Option Direction
direction_of s movement_id = elim (find_movement movement_id s.movements) [
  | none ↦ none
  | some m ↦ direction_in m s.types
]

-- CASE WHEN … END
abbrev pub signed_quantity : Direction → ℕ → Item → ℤ
signed_quantity in_ w i = if is_at i.to_warehouse_id w then pos i.quantity else pos 0
signed_quantity out w i = if is_at i.from_warehouse_id w then pos 0 -ℤ pos i.quantity else pos 0
signed_quantity transfer w i =
    if is_at i.to_warehouse_id w
    then pos i.quantity
    else (if is_at i.from_warehouse_id w then pos 0 -ℤ pos i.quantity else pos 0)

-- WHERE, of the item's columns
abbrev pub is_of_key : Key → Item → Bool
is_of_key k i =
    (i.variant_id == k.variant_id && same_batch i.batch_id k.batch_id)
    && (is_at i.from_warehouse_id k.warehouse_id || is_at i.to_warehouse_id k.warehouse_id)

-- What an item adds to the stock of a key.
abbrev pub delta : Option Direction → Key → Item → ℤ
delta none k i = pos 0
delta (some d) k i = if is_of_key k i then signed_quantity d k.warehouse_id i else pos 0

abbrev pub sum_deltas : Stock → Key → List Item → ℤ
sum_deltas s k [] = pos 0
sum_deltas s k (i ∷ is) = sum_deltas s k is +ℤ delta (direction_of s i.movement_id) k i

-- `getStockOnHand`
abbrev pub stock_on_hand : Key → Stock → ℤ
stock_on_hand k s = sum_deltas s k s.items

-- The two branches of UNION ALL: what an item brings to its `to` warehouse and takes from its
-- `from` warehouse.
abbrev pub quantity_in : Direction → ℕ → ℤ
quantity_in out n = pos 0
quantity_in _ n = pos n

abbrev pub quantity_out : Direction → ℕ → ℤ
quantity_out in_ n = pos 0
quantity_out _ n = pos 0 -ℤ pos n

abbrev pub key_at : Item → ℕ → Key
key_at i w = record { variant_id = i.variant_id; warehouse_id = w; batch_id = i.batch_id }

abbrev pub same_key : Key → Key → Bool
same_key j k =
    (j.variant_id == k.variant_id && same_batch j.batch_id k.batch_id)
    && j.warehouse_id == k.warehouse_id

-- GROUP BY with SUM: the amount goes to the row of the key, or makes one
abbrev pub add_to_group : Key → ℤ → List SummaryRow → List SummaryRow
add_to_group k amount [] = record { key = k; quantity_on_hand = amount } ∷ []
add_to_group k amount (r ∷ rs) =
    if same_key r.key k
    then record r { quantity_on_hand = r.quantity_on_hand +ℤ amount } ∷ rs
    else r ∷ add_to_group k amount rs

abbrev pub add_side : Item → Option ℕ → ℤ → List SummaryRow → List SummaryRow
add_side i none amount rows = rows
add_side i (some w) amount rows = add_to_group (key_at i w) amount rows

abbrev pub add_item : Option Direction → Item → List SummaryRow → List SummaryRow
add_item none i rows = rows
add_item (some d) i rows =
    add_side i i.to_warehouse_id (quantity_in d i.quantity)
      (add_side i i.from_warehouse_id (quantity_out d i.quantity) rows)

abbrev pub summary_of : Stock → List Item → List SummaryRow
summary_of s [] = []
summary_of s (i ∷ is) = add_item (direction_of s i.movement_id) i (summary_of s is)

-- REFRESH MATERIALIZED VIEW stock_summary
abbrev pub refresh_stock_summary : Stock → Stock
refresh_stock_summary s = record s { summary = summary_of s s.items }
