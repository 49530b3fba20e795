-- ===== src/Sales/Demands.antt =====
-- What orders ask for: the materialized view available_stock
-- (src/database/migrations/tenant/016_correct_stock_summary_transfers.sql), and the demands of
-- src/modules/production/services/mrp-demand.service.ts.
use backend_erp.Prelude.{
  ℕ, suc, ◌==◌, if◌then◌else◌, Bool, true, false, not, ◌&&◌, none, some, List, [], ◌∷◌, map,
  select_where, exists_where, update_where,
}
use backend_erp.Prelude.Int.{ℤ, pos, ◌+ℤ◌, ◌-ℤ◌, ltb_ℤ}
use backend_erp.Inventory.Schema.{SummaryRow}
use backend_erp.Sales.Schema.{
  Order, OrderItem, Demand, DemandType, DemandStatus, AvailableRow, Sales, pending, is_deliverable,
}

abbrev pub set_order : ℕ → (Order → Order) → Sales → Sales
set_order so_id f s = record s { orders = update_where (λ o. o.id == so_id) f s.orders }

-- The subquery of available_stock: what confirmed and partly delivered orders still wait for.
abbrev pub is_open_order : Sales → ℕ → ℕ → Bool
is_open_order s so_id warehouse_id =
    exists_where (λ o. o.id == so_id && (is_deliverable o.status && o.warehouse_id == warehouse_id))
      s.orders

abbrev pub is_reserved : Sales → ℕ → ℕ → OrderItem → Bool
is_reserved s variant_id warehouse_id i =
    i.variant_id == variant_id
    && (is_open_order s i.so_id warehouse_id && ltb_ℤ (pos 0) (pending i))

abbrev pub sum_pending : List OrderItem → ℤ
sum_pending [] = pos 0
sum_pending (i ∷ is) = pending i +ℤ sum_pending is

abbrev pub quantity_reserved : ℕ → ℕ → Sales → ℤ
quantity_reserved variant_id warehouse_id s =
    sum_pending (select_where (is_reserved s variant_id warehouse_id) s.order_items)

abbrev pub available_row : Sales → SummaryRow → AvailableRow
available_row s r = record {
  variant_id = r.key.variant_id;
  warehouse_id = r.key.warehouse_id;
  batch_id = r.key.batch_id;
  quantity_available =
      r.quantity_on_hand -ℤ quantity_reserved r.key.variant_id r.key.warehouse_id s;
}

-- REFRESH MATERIALIZED VIEW available_stock, which reads the view stock_summary
abbrev pub refresh_available_stock : Sales → Sales
refresh_available_stock s = record s { available = map (available_row s) s.stock.summary }

abbrev pub is_cancelled_demand : DemandStatus → Bool
is_cancelled_demand DemandStatus.cancelled = true
is_cancelled_demand _ = false

abbrev pub is_demand_for : ℕ → Demand → Bool
is_demand_for so_item_id d =
    elim d.so_item_id [ none ↦ false | some n ↦ n == so_item_id ]
    && not (is_cancelled_demand d.status)

abbrev pub new_demand : OrderItem → ℕ → ℕ → ℕ → Sales → Demand
new_demand i needed_date warehouse_id created_by s = record {
  id = s.next_demand;
  variant_id = i.variant_id;
  demand_type = DemandType.sales_order;
  so_id = some i.so_id;
  so_item_id = some i.id;
  quantity = i.quantity;
  uom_id = i.uom_id;
  needed_date = needed_date;
  warehouse_id = warehouse_id;
  status = DemandStatus.opened;
  created_by = created_by;
}

-- `createFromSalesOrder`
abbrev pub create_from_sales_order : OrderItem → ℕ → ℕ → ℕ → Sales → Sales
create_from_sales_order i needed_date warehouse_id created_by s =
    if exists_where (is_demand_for i.id) s.demands then s else record s {
      demands = new_demand i needed_date warehouse_id created_by s ∷ s.demands;
      next_demand = suc s.next_demand;
    }

abbrev pub is_manufactured : Sales → OrderItem → Bool
is_manufactured s i =
    exists_where (λ r. r.variant_id == i.variant_id && r.can_be_manufactured) s.catalog

abbrev pub create_demands : List OrderItem → ℕ → ℕ → ℕ → Sales → Sales
create_demands [] needed_date warehouse_id created_by s = s
create_demands (i ∷ is) needed_date warehouse_id created_by s =
    create_demands is needed_date warehouse_id created_by
      (create_from_sales_order i needed_date warehouse_id created_by s)
