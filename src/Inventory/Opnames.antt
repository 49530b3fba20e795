-- ===== src/Inventory/Opnames.antt =====
-- src/modules/inventory/services/stock-opname.service.ts: counting the stock of a warehouse, and the
-- movements that adjust it to the count.
pub mod Adjusts
pub mod Completes
use backend_erp.Prelude.{
  ℕ, suc, ◌/◌, ltb, ◌==◌, if◌then◌else◌, Bool, true, false, not, ◌&&◌, Option, none, some, List, [],
  ◌∷◌, ◌++◌, map, length, select_where, take_first, exists_where, update_where,
}
use backend_erp.Prelude.Int.{ℤ, pos, pos_part, neg_part, magnitude, ◌-ℤ◌, ltb_ℤ}
use backend_erp.Database.{
  Action, not_found, conflict, bad_request, unique_violation, inventory_movement_source_document,
  ◌>>=◌, ◌>>◌, pure, gets, or_throw, throw_if, modify,
}
use backend_erp.Accounting.Schema.{Clock, ms_per_day, stock_opname, same_reference, same_id}
use backend_erp.Inventory.Schema.{
  MovementStatus, OpnameStatus, MovementType, Movement, Item, Variant, Warehouse, Opname,
  OpnameItem, Key, SummaryRow, Stock,
}
use backend_erp.Inventory.OnHand.{stock_on_hand, refresh_stock_summary}
use backend_erp.Inventory.Adjustments.{
  difference_of, Difference, differences, is_surplus, is_shortage, key_of, check_shortages,
  adjustment_in, adjustment_out, base_uom_of, adjustment, item_in, item_out, is_for_opname,
  insert_adjustment, create_adjustment_movements,
}
use backend_erp.Inventory.Issues.{find_code}
use backend_erp.Inventory.Movements.{insert_movement, insert_items, day_of}

-- `opname_date` is a time.
pub record CreateOpnameDto : Type 0 where
  pub warehouse_id : ℕ
  pub opname_date : Option ℕ

pub record CountDto : Type 0 where
  pub item_id : ℕ
  pub actual_quantity : ℕ

abbrev pub is_active_status : OpnameStatus → Bool
is_active_status OpnameStatus.draft = true
is_active_status OpnameStatus.counting = true
is_active_status _ = false

abbrev pub is_active_in : ℕ → Opname → Bool
is_active_in warehouse_id o = o.warehouse_id == warehouse_id && is_active_status o.status

abbrev is_active_warehouse : ℕ → Warehouse → Bool
is_active_warehouse warehouse_id w = w.id == warehouse_id && w.is_active

abbrev pub new_opname : Clock → CreateOpnameDto → ℕ → Stock → Opname
new_opname clock dto created_by s = record {
  id = s.next_opname;
  warehouse_id = dto.warehouse_id;
  opname_date = day_of clock dto.opname_date;
  status = OpnameStatus.counting;
  created_by = created_by;
  completed_by = none;
}

abbrev pub insert_opname : Opname → Stock → Stock
insert_opname o s = record s { opnames = o ∷ s.opnames; next_opname = suc s.next_opname }

-- a row of the warehouse with stock, in the view
abbrev pub is_in_stock : ℕ → SummaryRow → Bool
is_in_stock warehouse_id r = r.key.warehouse_id == warehouse_id && ltb_ℤ (pos 0) r.quantity_on_hand

abbrev pub snapshot : ℕ → ℕ → List SummaryRow → List OpnameItem
snapshot opname_id item_id [] = []
snapshot opname_id item_id (r ∷ rs) =
    record {
      id = item_id;
      opname_id = opname_id;
      variant_id = r.key.variant_id;
      batch_id = r.key.batch_id;
      system_quantity = r.quantity_on_hand;
      actual_quantity = none;
    }
    ∷ snapshot opname_id (suc item_id) rs

abbrev ids_after : ℕ → List SummaryRow → ℕ
ids_after n [] = n
ids_after n (_ ∷ rs) = ids_after (suc n) rs

abbrev pub insert_snapshot : ℕ → List SummaryRow → Stock → Stock
insert_snapshot opname_id rows s = record s {
  opname_items = snapshot opname_id s.next_opname_item rows ++ s.opname_items;
  next_opname_item = ids_after s.next_opname_item rows;
}

-- `create`
unfoldable pub create_opname : Clock → CreateOpnameDto → ℕ → Action Stock Opname
create_opname clock dto created_by = do
  throw_if (← gets (λ s. exists_where (is_active_in dto.warehouse_id) s.opnames)) conflict
  or_throw (← gets (λ s. take_first (is_active_warehouse dto.warehouse_id) s.warehouses)) not_found
  opname ← gets (new_opname clock dto created_by)
  modify (insert_opname opname)
  current_stock ← gets (λ s. select_where (is_in_stock dto.warehouse_id) s.summary)
  modify (insert_snapshot opname.id current_stock)
  pure opname

abbrev pub find_opname : ℕ → List Opname → Option Opname
find_opname opname_id = take_first (λ o. o.id == opname_id)

abbrev pub is_counting : OpnameStatus → Bool
is_counting OpnameStatus.counting = true
is_counting _ = false

abbrev pub items_of_opname : ℕ → Stock → List OpnameItem
items_of_opname opname_id s = select_where (λ x. x.opname_id == opname_id) s.opname_items

-- the loop over the counts
abbrev pub record_counts : ℕ → List CountDto → List OpnameItem → List OpnameItem
record_counts opname_id [] rows = rows
record_counts opname_id (c ∷ cs) rows = record_counts opname_id cs (
    update_where (λ x. x.id == c.item_id && x.opname_id == opname_id)
      (λ x. record x { actual_quantity = some c.actual_quantity }) rows)

abbrev pub set_counts : ℕ → List CountDto → Stock → Stock
set_counts opname_id cs s = record s { opname_items = record_counts opname_id cs s.opname_items }

abbrev pub set_completed : ℕ → ℕ → Stock → Stock
set_completed opname_id completed_by s = record s {
  opnames =
      update_where (λ o. o.id == opname_id)
        (λ o. record o { status = OpnameStatus.completed; completed_by = some completed_by })
        s.opnames;
}

-- the rows with a difference once the counts are written
abbrev pub differences_of : ℕ → Stock → List Difference
differences_of opname_id s = differences (items_of_opname opname_id s)

-- `complete` after its checks
unfoldable pub adjust_and_complete : Clock → ℕ → ℕ → List CountDto → ℕ → Action Stock (Unit {0})
adjust_and_complete clock warehouse_id opname_id counts completed_by = do
  modify (set_counts opname_id counts)
  items_with_diff ← gets (differences_of opname_id)
  create_adjustment_movements clock warehouse_id opname_id items_with_diff completed_by
  modify (set_completed opname_id completed_by)
  modify refresh_stock_summary

-- `complete`
unfoldable pub complete : Clock → ℕ → List CountDto → ℕ → Action Stock (Unit {0})
complete clock opname_id counts completed_by = do
  opname ← or_throw (← gets (λ s. find_opname opname_id s.opnames)) not_found
  throw_if (not (is_counting opname.status)) conflict
  throw_if (not (length counts == (← gets (λ s. length (items_of_opname opname_id s))))) bad_request
  adjust_and_complete clock opname.warehouse_id opname_id counts completed_by

abbrev is_completed : OpnameStatus → Bool
is_completed OpnameStatus.completed = true
is_completed _ = false

abbrev is_active_opname : ℕ → Opname → Bool
is_active_opname opname_id o = o.id == opname_id && is_active_status o.status

-- `cancel`
unfoldable pub cancel_opname : ℕ → Action Stock (Unit {0})
cancel_opname opname_id = do
  opname ← or_throw (← gets (λ s. find_opname opname_id s.opnames)) not_found
  throw_if (is_completed opname.status) conflict
  throw_if (not (is_active_status opname.status)) conflict
  modify (λ s. record s {
    opnames =
        update_where (is_active_opname opname_id)
          (λ o. record o { status = OpnameStatus.cancelled }) s.opnames;
  })
