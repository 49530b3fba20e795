-- ===== src/Inventory/Adjustments.antt =====
-- `createAdjustmentMovements` of src/modules/inventory/services/stock-opname.service.ts: the movements
-- that adjust the stock of a warehouse to a count.
use backend_erp.Prelude.{
  ℕ, ◌/◌, ◌==◌, if◌then◌else◌, Bool, ◌&&◌, Option, none, some, List, [], ◌∷◌, map, select_where,
  take_first, exists_where,
}
use backend_erp.Prelude.Int.{ℤ, pos, magnitude, ◌-ℤ◌, ltb_ℤ}
use backend_erp.Database.{
  Action, bad_request, unique_violation, inventory_movement_source_document, ◌>>=◌, ◌>>◌, pure,
  gets, throw_if, modify,
}
use backend_erp.Accounting.Schema.{Clock, ms_per_day, stock_opname, same_reference, same_id}
use backend_erp.Inventory.Schema.{
  MovementStatus, MovementType, Movement, Item, OpnameItem, Key, Stock,
}
use backend_erp.Inventory.OnHand.{stock_on_hand}
use backend_erp.Inventory.Movements.{insert_movement, insert_items}
use backend_erp.Inventory.Issues.{find_code}

-- the generated column; an item that was not counted has none
abbrev pub difference_of : OpnameItem → Option ℤ
difference_of x = elim x.actual_quantity [
  | none ↦ none
  | some n ↦ some (pos n -ℤ x.system_quantity)
]

-- a row of `itemsWithDiff`
pub record Difference : Type 0 where
  pub variant_id : ℕ
  pub batch_id : Option ℕ
  pub difference : ℤ

abbrev add_difference : OpnameItem → Option ℤ → List Difference → List Difference
add_difference x none rows = rows
add_difference x (some z) rows =
    if magnitude z == 0
    then rows
    else record { variant_id = x.variant_id; batch_id = x.batch_id; difference = z } ∷ rows

abbrev pub differences : List OpnameItem → List Difference
differences [] = []
differences (x ∷ xs) = add_difference x (difference_of x) (differences xs)

-- `adjInItems` and `adjOutItems`
abbrev pub is_surplus : Difference → Bool
is_surplus d = ltb_ℤ (pos 0) d.difference

abbrev pub is_shortage : Difference → Bool
is_shortage d = ltb_ℤ d.difference (pos 0)

abbrev pub key_of : ℕ → Difference → Key
key_of warehouse_id d = record {
  variant_id = d.variant_id;
  warehouse_id = warehouse_id;
  batch_id = d.batch_id;
}

-- the check of the shortages against the stock on hand
abbrev pub check_shortages : ℕ → List Difference → Action Stock (Unit {0})
check_shortages warehouse_id [] = pure tt
check_shortages warehouse_id (d ∷ ds) = do
  throw_if (ltb_ℤ (← gets (stock_on_hand (key_of warehouse_id d))) (pos (magnitude d.difference)))
      bad_request
  check_shortages warehouse_id ds

-- The texts ADJUSTMENT_IN and ADJUSTMENT_OUT.
abbrev pub adjustment_in : ℕ
adjustment_in = 4

abbrev pub adjustment_out : ℕ
adjustment_out = 8

-- `uomMap`; the foreign key of `variant_id` gives the variant
abbrev pub base_uom_of : ℕ → Stock → ℕ
base_uom_of variant_id s = elim (take_first (λ v. v.id == variant_id) s.variants) [
  | none ↦ 0
  | some v ↦ v.base_uom_id
]

abbrev pub adjustment : Clock → MovementType → ℕ → ℕ → Stock → Movement
adjustment clock type opname_id created_by s = record {
  id = s.next_movement;
  movement_type_id = type.id;
  reference_type = some stock_opname;
  reference_id = some opname_id;
  movement_date = clock.now / ms_per_day;
  status = MovementStatus.confirmed;
  created_by = created_by;
  confirmed_by = some created_by;
  cancelled_by = none;
}

abbrev pub item_in : ℕ → ℕ → Stock → Difference → Item
item_in movement_id warehouse_id s d = record {
  movement_id = movement_id;
  variant_id = d.variant_id;
  batch_id = d.batch_id;
  from_warehouse_id = none;
  to_warehouse_id = some warehouse_id;
  quantity = magnitude d.difference;
  uom_id = base_uom_of d.variant_id s;
  unit_cost = 0;
}

abbrev pub item_out : ℕ → ℕ → Stock → Difference → Item
item_out movement_id warehouse_id s d = record (item_in movement_id warehouse_id s d) {
  from_warehouse_id = some warehouse_id;
  to_warehouse_id = none;
}

-- uq_inventory_movement_source_document
abbrev pub is_for_opname : ℕ → Movement → Bool
is_for_opname opname_id m =
    same_reference m.reference_type (some stock_opname) && same_id m.reference_id (some opname_id)

-- one adjustment movement with its items, if there are any and the type exists
abbrev pub insert_adjustment :
    Clock
    → (ℕ → Stock → Difference → Item)
    → ℕ
    → ℕ
    → List Difference
    → Option MovementType
    → Action Stock (Unit {0})
insert_adjustment clock item opname_id created_by [] type = pure tt
insert_adjustment clock item opname_id created_by (d ∷ ds) none = pure tt
insert_adjustment clock item opname_id created_by (d ∷ ds) (some type) = do
  movement ← gets (adjustment clock type opname_id created_by)
  throw_if (← gets (λ s. exists_where (is_for_opname opname_id) s.movements))
      (unique_violation inventory_movement_source_document)
  items ← gets (λ s. map (item movement.id s) (d ∷ ds))
  modify (insert_movement movement)
  modify (insert_items items)

-- `createAdjustmentMovements`
abbrev pub create_adjustment_movements :
    Clock → ℕ → ℕ → List Difference → ℕ → Action Stock (Unit {0})
create_adjustment_movements clock warehouse_id opname_id ds created_by = do
  check_shortages warehouse_id (select_where is_shortage ds)
  in_type ← gets (find_code adjustment_in)
  out_type ← gets (find_code adjustment_out)
  insert_adjustment clock (λ n. item_in n warehouse_id) opname_id created_by
      (select_where is_surplus ds) in_type
  insert_adjustment clock (λ n. item_out n warehouse_id) opname_id created_by
      (select_where is_shortage ds) out_type
