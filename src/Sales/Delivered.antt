-- ===== src/Sales/Delivered.antt =====
-- What of an order is delivered: `updateDeliveredQuantity` of
-- src/modules/sales-order/services/sales-order.service.ts.
use backend_erp.Prelude.{
  ℕ, ◌==◌, ltb, leb, if◌then◌else◌, Bool, true, false, ◌&&◌, Option, none, some, List, [], ◌∷◌,
  sum_of, select_where, exists_where, update_where,
}
use backend_erp.Sales.Schema.{
  OrderStatus, OrderItem, Delivery, DeliveryStatus, Sales, find_delivery,
}
use backend_erp.Sales.Demands.{set_order}

abbrev pub is_confirmed_delivery : DeliveryStatus → Bool
is_confirmed_delivery DeliveryStatus.confirmed = true
is_confirmed_delivery _ = false

-- the join of an item with a confirmed delivery of the order
abbrev pub is_delivered_for : List Delivery → ℕ → ℕ → Bool
is_delivered_for deliveries so_id do_id = elim (find_delivery do_id deliveries) [
  | none ↦ false
  | some d ↦ d.so_id == so_id && is_confirmed_delivery d.status
]

-- `deliveredMap[item.id] ?? 0`
abbrev pub total_delivered : ℕ → ℕ → Sales → ℕ
total_delivered so_id so_item_id s =
    sum_of
      (λ x.
        if x.so_item_id == so_item_id && is_delivered_for s.deliveries so_id x.do_id
        then x.quantity_delivered
        else 0)
      s.delivery_items

abbrev pub with_delivered : Sales → OrderItem → OrderItem
with_delivered s i = record i { quantity_delivered = total_delivered i.so_id i.id s }

abbrev pub every_where : (OrderItem → Bool) → List OrderItem → Bool
every_where test [] = true
every_where test (i ∷ is) = test i && every_where test is

abbrev pub status_after : List OrderItem → Option OrderStatus
status_after is =
    if every_where (λ i. leb i.quantity i.quantity_delivered) is
    then some OrderStatus.delivered
    else (if exists_where (λ i. ltb 0 i.quantity_delivered) is
        then some OrderStatus.partial
        else none)

abbrev pub set_status : ℕ → Option OrderStatus → Sales → Sales
set_status so_id none s = s
set_status so_id (some status) s = set_order so_id (λ o. record o { status = status }) s

abbrev pub set_delivered : ℕ → Sales → Sales
set_delivered so_id s = record s {
  order_items = update_where (λ i. i.so_id == so_id) (with_delivered s) s.order_items;
}

-- `updateDeliveredQuantity`
abbrev pub update_delivered_quantity : ℕ → Sales → Sales
update_delivered_quantity so_id s =
    let t = set_delivered so_id s in
    set_status so_id (status_after (select_where (λ i. i.so_id == so_id) t.order_items)) t
