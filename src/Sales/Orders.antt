-- ===== src/Sales/Orders.antt =====
-- src/modules/sales-order/services/sales-order.service.ts: orders, until they are
-- confirmed or cancelled.
use backend_erp.Prelude.{
  ℕ, suc, ◌/◌, ◌==◌, Bool, true, false, not, ◌&&◌, ◌||◌, Option, none, some, List, [], ◌∷◌, map,
  select_where, take_first, exists_where,
}
use backend_erp.Database.{
  Reading, same_value, Action, not_found, conflict, bad_request, check_violation,
  foreign_key_violation, ◌>>=◌, ◌>>◌, pure, gets, or_throw, throw_if, modify,
}
use backend_erp.Accounting.Schema.{Clock, ms_per_day, so, DocumentNumber}
use backend_erp.Accounting.Numbering.{generate}
use backend_erp.Sales.Schema.{
  OrderStatus, Order, OrderItem, Customer, QuotationStatus, Sales, in_books, find_order,
}
use backend_erp.Sales.Demands.{set_order, is_manufactured, create_demands, refresh_available_stock}
use backend_erp.Sales.Totals.{LineAmounts, Totals, calculate_totals, calc_line_subtotal}

pub record OrderItemDto : Type 0 where
  pub variant_id : ℕ
  pub quantity : ℕ
  pub uom_id : ℕ
  pub unit_price : ℕ
  pub discount_pct : Option ℕ
  pub tax_pct : Option ℕ
  pub quotation_item_id : Option ℕ

-- `requested_date` is a time.
pub record OrderDto : Type 0 where
  pub customer_id : ℕ
  pub warehouse_id : ℕ
  pub quotation_id : Option ℕ
  pub requested_date : Option ℕ
  pub payment_term_days : Option ℕ
  pub items : List OrderItemDto

abbrev pub or_zero : Option ℕ → ℕ
or_zero none = 0
or_zero (some n) = n

abbrev pub amounts_of : OrderItemDto → LineAmounts
amounts_of i = record {
  quantity = i.quantity;
  unit_price = i.unit_price;
  discount_pct = or_zero i.discount_pct;
  tax_pct = or_zero i.tax_pct;
}

abbrev pub is_accepted : QuotationStatus → Bool
is_accepted QuotationStatus.accepted = true
is_accepted _ = false

-- the quotation that an order is made from
abbrev pub check_quotation : Reading → ℕ → Option ℕ → Action Sales (Unit {0})
check_quotation reading customer_id none = pure tt
check_quotation reading customer_id (some quotation_id) = do
  sq ← or_throw (← gets (λ s. take_first (λ q. q.id == quotation_id) s.quotations)) not_found
  throw_if (not (is_accepted sq.status)) conflict
  throw_if (not (same_value reading sq.customer_id customer_id)) bad_request

abbrev pub is_no_item : List OrderItemDto → Bool
is_no_item [] = true
is_no_item (_ ∷ _) = false

abbrev pub day_of_time : Option ℕ → Option ℕ
day_of_time none = none
day_of_time (some t) = some (t / ms_per_day)

abbrev pub term_of : Option ℕ → Customer → ℕ
term_of none c = c.payment_term
term_of (some n) c = n

abbrev pub new_order : Clock → OrderDto → Customer → Totals → ℕ → DocumentNumber → Sales → Order
new_order clock dto customer totals created_by number s = record {
  id = s.next_order;
  number = number;
  customer_id = dto.customer_id;
  quotation_id = dto.quotation_id;
  warehouse_id = dto.warehouse_id;
  order_date = clock.now / ms_per_day;
  requested_date = day_of_time dto.requested_date;
  status = OrderStatus.draft;
  subtotal = totals.subtotal;
  tax_amount = totals.tax_amount;
  discount_amount = totals.discount_amount;
  total_amount = totals.total_amount;
  payment_term_days = term_of dto.payment_term_days customer;
  created_by = created_by;
  confirmed_by = none;
  cancelled_by = none;
}

abbrev pub insert_order : Order → Sales → Sales
insert_order o s = record s { orders = o ∷ s.orders; next_order = suc s.next_order }

abbrev pub new_order_item : ℕ → ℕ → OrderItemDto → OrderItem
new_order_item so_id item_id i = record {
  id = item_id;
  so_id = so_id;
  variant_id = i.variant_id;
  quotation_item_id = i.quotation_item_id;
  quantity = i.quantity;
  uom_id = i.uom_id;
  unit_price = i.unit_price;
  discount_pct = or_zero i.discount_pct;
  tax_pct = or_zero i.tax_pct;
  subtotal = calc_line_subtotal (amounts_of i);
  quantity_delivered = 0;
}

abbrev pub insert_order_item : ℕ → OrderItemDto → Sales → Sales
insert_order_item so_id i s = record s {
  order_items = new_order_item so_id s.next_order_item i ∷ s.order_items;
  next_order_item = suc s.next_order_item;
}

abbrev pub insert_order_items : ℕ → List OrderItemDto → Sales → Sales
insert_order_items so_id [] s = s
insert_order_items so_id (i ∷ is) s = insert_order_items so_id is (insert_order_item so_id i s)

abbrev pub is_unset_or_in : List ℕ → Option ℕ → Bool
is_unset_or_in ids none = true
is_unset_or_in ids (some n) = exists_where (λ m. m == n) ids

-- the foreign keys of an item
abbrev pub has_bad_reference : Sales → OrderItemDto → Bool
has_bad_reference s i =
    not (exists_where (λ v. v.id == i.variant_id) s.stock.variants)
    || (not (exists_where (λ u. u == i.uom_id) s.stock.uoms)
        || not (is_unset_or_in s.quotation_items i.quotation_item_id))

-- the transaction of `create`
abbrev pub insert_new_order : Clock → OrderDto → Customer → ℕ → Action Sales Order
insert_new_order clock dto customer created_by = do
  number ← in_books (generate clock so)
  order ←
      gets (
        new_order clock dto customer (calculate_totals (map amounts_of dto.items)) created_by
          number)
  modify (insert_order order)
  throw_if (exists_where (λ i. i.quantity == 0) dto.items) check_violation
  throw_if (← gets (λ s. exists_where (has_bad_reference s) dto.items)) foreign_key_violation
  modify (insert_order_items order.id dto.items)
  pure order

abbrev pub check_order : Reading → OrderDto → Action Sales Customer
check_order reading dto = do
  customer ←
      or_throw (← gets (λ s. take_first (λ c. c.id == dto.customer_id && c.is_active) s.customers))
        not_found
  or_throw
      (← gets (λ s. take_first (λ w. w.id == dto.warehouse_id && w.is_active) s.stock.warehouses))
      not_found
  throw_if (is_no_item dto.items) bad_request
  check_quotation reading dto.customer_id dto.quotation_id
  pure customer

-- `create`
unfoldable pub create_order : Reading → Clock → OrderDto → ℕ → Action Sales Order
create_order reading clock dto created_by = do
  customer ← check_order reading dto
  insert_new_order clock dto customer created_by

abbrev pub is_draft_order : OrderStatus → Bool
is_draft_order OrderStatus.draft = true
is_draft_order _ = false

abbrev pub as_confirmed_order : ℕ → Order → Order
as_confirmed_order by o = record o { status = OrderStatus.confirmed; confirmed_by = some by }

abbrev pub as_cancelled_order : ℕ → Order → Order
as_cancelled_order by o = record o { status = OrderStatus.cancelled; cancelled_by = some by }

abbrev pub day_or_now : Clock → Option ℕ → ℕ
day_or_now clock none = clock.now / ms_per_day
day_or_now clock (some day) = day

-- `confirm`
unfoldable pub confirm_order : Clock → ℕ → ℕ → Action Sales (Unit {0})
confirm_order clock so_id confirmed_by = do
  order ← or_throw (← gets (λ s. find_order so_id s.orders)) not_found
  throw_if (not (is_draft_order order.status)) conflict
  modify (set_order so_id (as_confirmed_order confirmed_by))
  items ← gets (λ s. select_where (λ i. i.so_id == so_id && is_manufactured s i) s.order_items)
  modify
      (create_demands items (day_or_now clock order.requested_date) order.warehouse_id confirmed_by)
  modify refresh_available_stock

abbrev pub is_settled_order : OrderStatus → Bool
is_settled_order OrderStatus.delivered = true
is_settled_order OrderStatus.invoiced = true
is_settled_order OrderStatus.cancelled = true
is_settled_order _ = false

-- `cancel`
unfoldable pub cancel_order : ℕ → ℕ → Action Sales (Unit {0})
cancel_order so_id cancelled_by = do
  order ← or_throw (← gets (λ s. find_order so_id s.orders)) not_found
  throw_if (is_settled_order order.status) conflict
  modify (set_order so_id (as_cancelled_order cancelled_by))
  modify refresh_available_stock
