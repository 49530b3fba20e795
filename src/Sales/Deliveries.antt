-- ===== src/Sales/Deliveries.antt =====
-- src/modules/sales-order/services/delivery-order.service.ts: delivery orders, made and cancelled.
use backend_erp.Prelude.{
  ℕ, suc, ◌/◌, ◌==◌, Bool, true, false, not, ◌&&◌, ◌||◌, Option, none, some, List, [], ◌∷◌, ◌++◌,
  map, take_first, exists_where, update_where,
}
use backend_erp.Prelude.Int.{ℤ, pos, ltb_ℤ}
use backend_erp.Database.{
  Reading, same_value, Action, not_found, conflict, bad_request, check_violation,
  foreign_key_violation, ◌>>=◌, ◌>>◌, pure, gets, or_throw, throw_if, modify,
}
use backend_erp.Accounting.Schema.{Clock, ms_per_day, do_, DocumentNumber}
use backend_erp.Accounting.Numbering.{generate}
use backend_erp.Sales.Schema.{
  Order, Delivery, DeliveryStatus, DeliveryItem, Sales, in_books, find_delivery, pending,
  is_deliverable,
}
use backend_erp.Sales.Orders.{is_unset_or_in}
use backend_erp.Sales.Delivered.{is_confirmed_delivery}

pub record DeliveryItemDto : Type 0 where
  pub so_item_id : ℕ
  pub variant_id : ℕ
  pub quantity_delivered : ℕ
  pub uom_id : ℕ
  pub batch_id : Option ℕ

-- `delivery_date` is a time.
pub record DeliveryDto : Type 0 where
  pub so_id : ℕ
  pub delivery_date : Option ℕ
  pub items : List DeliveryItemDto

-- `avail?.quantity_available ?? 0`, of whichever batch the query finds first
abbrev pub quantity_available : ℕ → ℕ → Sales → ℤ
quantity_available variant_id warehouse_id s =
    elim (take_first (λ r. r.variant_id == variant_id && r.warehouse_id == warehouse_id)
      s.available) [ none ↦ pos 0 | some r ↦ r.quantity_available ]

-- `validateDoItems`
abbrev pub validate_do_items : Reading → ℕ → List DeliveryItemDto → Action Sales (Unit {0})
validate_do_items reading warehouse_id [] = pure tt
validate_do_items reading warehouse_id (i ∷ is) = do
  so_item ← or_throw (← gets (λ s. take_first (λ x. x.id == i.so_item_id) s.order_items)) not_found
  throw_if (not (same_value reading so_item.variant_id i.variant_id)) bad_request
  throw_if (ltb_ℤ (pending so_item) (pos i.quantity_delivered)) bad_request
  throw_if
      (ltb_ℤ (← gets (quantity_available i.variant_id warehouse_id)) (pos i.quantity_delivered))
      bad_request
  validate_do_items reading warehouse_id is

abbrev pub day_of_delivery : Clock → Option ℕ → ℕ
day_of_delivery clock none = clock.now / ms_per_day
day_of_delivery clock (some t) = t / ms_per_day

abbrev pub new_delivery : Clock → DeliveryDto → Order → ℕ → DocumentNumber → Sales → Delivery
new_delivery clock dto order created_by number s = record {
  id = s.next_delivery;
  number = number;
  so_id = dto.so_id;
  warehouse_id = order.warehouse_id;
  delivery_date = day_of_delivery clock dto.delivery_date;
  status = DeliveryStatus.draft;
  inventory_movement_id = none;
  created_by = created_by;
  confirmed_by = none;
  cancelled_by = none;
}

abbrev pub new_delivery_item : ℕ → DeliveryItemDto → DeliveryItem
new_delivery_item do_id i = record {
  do_id = do_id;
  so_item_id = i.so_item_id;
  variant_id = i.variant_id;
  batch_id = i.batch_id;
  quantity_delivered = i.quantity_delivered;
  uom_id = i.uom_id;
}

abbrev pub insert_delivery : Delivery → List DeliveryItem → Sales → Sales
insert_delivery d is s = record s {
  deliveries = d ∷ s.deliveries;
  delivery_items = is ++ s.delivery_items;
  next_delivery = suc s.next_delivery;
}

-- the foreign keys that no check has looked at
abbrev pub has_bad_key : Sales → DeliveryItemDto → Bool
has_bad_key s i =
    not (exists_where (λ u. u == i.uom_id) s.stock.uoms)
    || not (is_unset_or_in s.stock.batches i.batch_id)

-- the transaction of `create`
abbrev pub insert_new_delivery : Clock → DeliveryDto → Order → ℕ → Action Sales Delivery
insert_new_delivery clock dto order created_by = do
  number ← in_books (generate clock do_)
  delivery ← gets (new_delivery clock dto order created_by number)
  throw_if (exists_where (λ i. i.quantity_delivered == 0) dto.items) check_violation
  throw_if (← gets (λ s. exists_where (has_bad_key s) dto.items)) foreign_key_violation
  modify (insert_delivery delivery (map (new_delivery_item delivery.id) dto.items))
  pure delivery

abbrev pub is_no_delivery : List DeliveryItemDto → Bool
is_no_delivery [] = true
is_no_delivery (_ ∷ _) = false

abbrev pub is_deliverable_order : ℕ → Order → Bool
is_deliverable_order so_id o = o.id == so_id && is_deliverable o.status

-- `create`
unfoldable pub create_delivery : Reading → Clock → DeliveryDto → ℕ → Action Sales Delivery
create_delivery reading clock dto created_by = do
  order ← or_throw (← gets (λ s. take_first (is_deliverable_order dto.so_id) s.orders)) not_found
  throw_if (is_no_delivery dto.items) bad_request
  validate_do_items reading order.warehouse_id dto.items
  insert_new_delivery clock dto order created_by

abbrev pub is_draft_delivery : DeliveryStatus → Bool
is_draft_delivery DeliveryStatus.draft = true
is_draft_delivery _ = false

abbrev pub as_cancelled_delivery : ℕ → Delivery → Delivery
as_cancelled_delivery by d = record d { status = DeliveryStatus.cancelled; cancelled_by = some by }

abbrev pub is_draft_with : ℕ → Delivery → Bool
is_draft_with do_id d = d.id == do_id && is_draft_delivery d.status

-- `cancel`
unfoldable pub cancel_delivery : ℕ → ℕ → Action Sales (Unit {0})
cancel_delivery do_id cancelled_by = do
  d ← or_throw (← gets (λ s. find_delivery do_id s.deliveries)) not_found
  throw_if (is_confirmed_delivery d.status) conflict
  throw_if (not (is_draft_delivery d.status)) conflict
  modify (λ s. record s {
    deliveries =
        update_where (is_draft_with do_id) (as_cancelled_delivery cancelled_by) s.deliveries;
  })
