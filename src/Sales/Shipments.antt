-- ===== src/Sales/Shipments.antt =====
-- `confirm` of src/modules/sales-order/services/delivery-order.service.ts: a delivery moves stock,
-- updates its order and posts the cost of the goods.
use backend_erp.Prelude.{
  ℕ, ◌/◌, ◌+◌, ◌*◌, ◌==◌, if◌then◌else◌, not, Option, none, some, List, [], ◌∷◌, map, sum_of,
  select_where, take_first, update_where,
}
use backend_erp.Database.{
  Action, not_found, conflict, internal_error, transaction, ◌>>=◌, ◌>>◌, pure, gets, or_throw,
  throw_if, modify,
}
use backend_erp.Accounting.Schema.{
  Clock, LedgerRow, cogs, inventory_finished, Books, sales, delivery_order,
}
use backend_erp.Accounting.Accounts.{get_system_account}
use backend_erp.Accounting.Journal.Reversal.{AutoPostDto, auto_post}
use backend_erp.Inventory.Schema.{Item, Stock}
use backend_erp.Inventory.OnHand.{refresh_stock_summary}
use backend_erp.Inventory.Movements.{requirements_of, check_requirements, insert_items}
use backend_erp.Inventory.Issues.{insert_source_movement, find_code}
use backend_erp.Sales.Schema.{
  Delivery, DeliveryStatus, DeliveryItem, CatalogRow, Sales, in_stock, in_books, find_order,
  find_delivery, is_deliverable,
}
use backend_erp.Sales.Orders.{or_zero}
use backend_erp.Sales.Demands.{refresh_available_stock}
use backend_erp.Sales.Delivered.{update_delivered_quantity}
use backend_erp.Sales.Deliveries.{is_draft_delivery}

abbrev pub items_of_delivery : ℕ → Sales → List DeliveryItem
items_of_delivery do_id s = select_where (λ x. x.do_id == do_id) s.delivery_items

-- `Number(item.cost_price ?? 0)`; the foreign key of `variant_id` gives the variant
abbrev pub cost_of : ℕ → List CatalogRow → ℕ
cost_of variant_id catalog = elim (take_first (λ r. r.variant_id == variant_id) catalog) [
  | none ↦ 0
  | some r ↦ or_zero r.cost_price
]

abbrev pub issued_item : ℕ → ℕ → List CatalogRow → DeliveryItem → Item
issued_item movement_id warehouse_id catalog x = record {
  movement_id = movement_id;
  variant_id = x.variant_id;
  batch_id = x.batch_id;
  from_warehouse_id = some warehouse_id;
  to_warehouse_id = none;
  quantity = x.quantity_delivered;
  uom_id = x.uom_id;
  unit_cost = cost_of x.variant_id catalog;
}

abbrev pub issued_items : ℕ → Delivery → Sales → List Item
issued_items movement_id d s =
    map (issued_item movement_id d.warehouse_id s.catalog) (items_of_delivery d.id s)

-- steps 1 to 4 of `confirm`: the movement, with its items if there is stock for them
abbrev pub issue_items : List Item → Action Stock (Unit {0})
issue_items is = do check_requirements (requirements_of is); modify (insert_items is)

-- The text SALES_DELIVERY.
abbrev pub sales_delivery : ℕ
sales_delivery = 5

abbrev pub issue_stock : Clock → Delivery → ℕ → Action Sales ℕ
issue_stock clock d confirmed_by = do
  type ← or_throw (← gets (λ s. find_code sales_delivery s.stock)) internal_error
  movement ← in_stock (insert_source_movement clock type delivery_order d.id confirmed_by)
  items ← gets (issued_items movement.id d)
  in_stock (issue_items items)
  pure movement.id

abbrev pub as_confirmed_delivery : ℕ → ℕ → Delivery → Delivery
as_confirmed_delivery movement_id by d = record d {
  status = DeliveryStatus.confirmed;
  inventory_movement_id = some movement_id;
  confirmed_by = some by;
}

abbrev pub set_delivery : ℕ → (Delivery → Delivery) → Sales → Sales
set_delivery do_id f s = record s { deliveries = update_where (λ d. d.id == do_id) f s.deliveries }

-- `calculateCogs`, with eight decimals
abbrev pub calculate_cogs : List Item → ℕ
calculate_cogs is = sum_of (λ i. i.quantity * i.unit_cost) is

-- The amounts go to columns of four decimals. An amount that is 0 there is refused.
abbrev pub cogs_entry : Clock → ℕ → ℕ → ℕ → ℕ → AutoPostDto
cogs_entry clock do_id amount cogs_id inventory_id = record {
  period_id = none;
  entry_date = clock.now;
  entry_type = sales;
  reference_type = some delivery_order;
  reference_id = some do_id;
  lines =
      record { account_id = cogs_id; line_number = 1; debit = some amount; credit = some 0 }
      ∷ record { account_id = inventory_id; line_number = 2; debit = some 0; credit = some amount }
      ∷ [];
}

-- the checks of `confirm`
abbrev pub check_delivery : ℕ → Action Sales Delivery
check_delivery do_id = do
  d ← or_throw (← gets (λ s. find_delivery do_id s.deliveries)) not_found
  throw_if (not (is_draft_delivery d.status)) conflict
  order ← or_throw (← gets (λ s. find_order d.so_id s.orders)) conflict
  throw_if (not (is_deliverable order.status)) conflict
  pure d

-- steps 5 to 7
abbrev pub settle_delivery : Delivery → ℕ → ℕ → Sales → Sales
settle_delivery d movement_id confirmed_by s =
    let t = set_delivery d.id (as_confirmed_delivery movement_id confirmed_by) s in
    let u = refresh_available_stock (record t { stock = refresh_stock_summary t.stock }) in
    update_delivered_quantity d.so_id u

module _ (clock : Clock) (pick : List LedgerRow → Option LedgerRow) where
  -- step 8 of `confirm`
  abbrev pub post_cogs : ℕ → ℕ → ℕ → Action Books (Unit {0})
  post_cogs do_id total_cost confirmed_by = do
    cogs_account ← get_system_account cogs
    inventory_account ← get_system_account inventory_finished
    auto_post clock pick transaction
        (cogs_entry clock do_id ((total_cost + 5000) / 10000) cogs_account.id inventory_account.id)
        confirmed_by
    pure tt

  abbrev pub post_if_costly : ℕ → ℕ → ℕ → Action Books (Unit {0})
  post_if_costly do_id total_cost confirmed_by =
      if total_cost == 0 then pure tt else post_cogs do_id total_cost confirmed_by

  -- `confirm`
  unfoldable pub confirm_delivery : ℕ → ℕ → Action Sales (Unit {0})
  confirm_delivery do_id confirmed_by = do
    d ← check_delivery do_id
    movement_id ← issue_stock clock d confirmed_by
    cost ← gets (λ s. calculate_cogs (issued_items movement_id d s))
    modify (settle_delivery d movement_id confirmed_by)
    in_books (post_if_costly do_id cost confirmed_by)
