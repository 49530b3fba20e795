-- ===== src/Sales/Refusals.antt =====
-- A driver that gives BIGINT columns as strings, which is PostgreSQL's default, and comparisons of
-- such a column with a number by `!==` (src/modules/sales-order/services).
use backend_erp.Prelude.{
  ℕ, ◌≡◌, ◌≢◌, inl, inr, false, List, [], ◌∷◌, arith, Bool-cases, Option-cases, take_first,
}
use backend_erp.Database.{as_strings, ok, >>=-eq-ok}
use backend_erp.Accounting.Schema.{Clock}
use backend_erp.Sales.Schema.{Delivery, Sales}
use backend_erp.Sales.Deliveries.{
  DeliveryItemDto, DeliveryDto, validate_do_items, is_no_delivery, is_deliverable_order,
  create_delivery,
}

validate_do_items_refused :
    (w : ℕ) (is : List DeliveryItemDto) (s s' : Sales)
    → is_no_delivery is ≡ false
    → validate_do_items as_strings w is s ≢ ok (tt, s')
validate_do_items_refused w [] s s' e h = cc
validate_do_items_refused w (i ∷ is) s s' e h = ground arith

-- If the driver gives BIGINT columns as strings, no delivery order can be created: each call is
-- refused, whatever the order, its items and the stock.
pub create_delivery_refused :
    (clock : Clock) (dto : DeliveryDto) (by : ℕ) (d : Delivery) (s s' : Sales)
    → create_delivery as_strings clock dto by s ≢ ok (d, s')
unfolding create_delivery
create_delivery_refused clock dto by d s s' h =
    elim (Option-cases (take_first (is_deliverable_order dto.so_id) s.orders)) [
      | inl e ↦ cc (rw e at h)
      | inr (o, e) ↦ elim (Bool-cases (is_no_delivery dto.items)) [
        | inl f ↦ cc (rw f at (rw e at h))
        | inr f ↦
            let (_, s1, x, y) =
              >>=-eq-ok (validate_do_items as_strings o.warehouse_id dto.items) _ s
                (rw f at (rw e at h)) in
            validate_do_items_refused o.warehouse_id dto.items s s1 f x
      ]
    ]
