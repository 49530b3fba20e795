-- ===== src/Sales/Sold.antt =====
-- What holds of sales at all times, and that orders keep it
-- (src/modules/sales-order/services/sales-order.service.ts).
use backend_erp.Prelude.{
  ℕ, ◌<◌, ◌==◌, ◌≡◌, refl, sym, inl, inr, subst, true, ◌&&◌, List, [], ◌∷◌, map, arith, Bool-cases,
  Option-cases, All, All-map, exists_where, select_where,
}
use backend_erp.Database.{Action, Result, Reading, ok, err, >>=-eq-ok}
use backend_erp.Accounting.Schema.{Clock, so, DocType, DocumentNumber, Books}
use backend_erp.Accounting.Numbering.{generate}
use backend_erp.Accounting.Kept.{IsKept, generate-IsKept}
use backend_erp.Inventory.Schema.{Stock}
use backend_erp.Inventory.Requirements.{is_real}
use backend_erp.Inventory.Reach.{IsStocked}
use backend_erp.Sales.Schema.{Order, OrderItem, Customer, Sales, in_books, in_stock, find_order}
use backend_erp.Sales.Demands.{
  set_order, is_manufactured, create_from_sales_order, create_demands, is_demand_for,
  refresh_available_stock,
}
use backend_erp.Sales.Orders.{
  OrderItemDto, OrderDto, amounts_of, new_order, insert_order, insert_order_item,
  insert_order_items, check_order, insert_new_order, create_order, confirm_order,
  as_confirmed_order, day_or_now, cancel_order,
}
use backend_erp.Sales.Delivered.{total_delivered}
use backend_erp.Sales.Totals.{calculate_totals}
use backend_erp.Sales.Counts.{total_delivered-new}

pub record IsSold (s : Sales) : Type 0 where
  pub stocked : IsStocked s.stock
  pub kept : IsKept s.books
  pub delivered : All (λ i. i.quantity_delivered ≡ total_delivered i.so_id i.id s) s.order_items
  pub real : All (λ x. is_real x.batch_id ≡ true) s.delivery_items
  pub known_items : All (λ x. x.so_item_id < s.next_order_item) s.delivery_items
  pub known_deliveries : All (λ x. x.do_id < s.next_delivery) s.delivery_items
  pub known_order_items : All (λ i. i.id < s.next_order_item) s.order_items

-- A call of another service, on its own tables.
pub in_stock-result :
    {A : Type 0} (m : Action Stock A) (a : A) (s s' : Sales)
    → in_stock m s ≡ ok (a, s')
    → (t : Stock) × (m s.stock ≡ ok (a, t)) × (s' ≡ record s { stock = t })
in_stock-result {A} m a s s' h = go (m s.stock) refl h
  where
    go :
        (q : Result (A × Stock))
        → m s.stock ≡ q
        → (elim q as (λ _. Result (A × Sales)) [
          | ok r ↦ ok (r.0, record s { stock = r.1 })
          | err e ↦ err e
        ])
          ≡ ok (a, s')
        → (t : Stock) × (m s.stock ≡ ok (a, t)) × (s' ≡ record s { stock = t })
    go (ok (x, t)) e k = (t, ground (arith, e, k), ground (arith, k))
    go (err x) e k = cc

pub in_books-result :
    {A : Type 0} (m : Action Books A) (a : A) (s s' : Sales)
    → in_books m s ≡ ok (a, s')
    → (b : Books) × (m s.books ≡ ok (a, b)) × (s' ≡ record s { books = b })
in_books-result {A} m a s s' h = go (m s.books) refl h
  where
    go :
        (q : Result (A × Books))
        → m s.books ≡ q
        → (elim q as (λ _. Result (A × Sales)) [
          | ok r ↦ ok (r.0, record s { books = r.1 })
          | err e ↦ err e
        ])
          ≡ ok (a, s')
        → (b : Books) × (m s.books ≡ ok (a, b)) × (s' ≡ record s { books = b })
    go (ok (x, t)) e k = (t, ground (arith, e, k), ground (arith, k))
    go (err x) e k = cc

pub with_stock : (s : Sales) (t : Stock) → IsStocked t → IsSold s → IsSold (record s { stock = t })
with_stock s t stocked w = record {
  stocked = stocked;
  kept = w.kept;
  delivered = w.delivered;
  real = w.real;
  known_items = w.known_items;
  known_deliveries = w.known_deliveries;
  known_order_items = w.known_order_items;
}

pub with_books : (s : Sales) (b : Books) → IsKept b → IsSold s → IsSold (record s { books = b })
with_books s b kept w = record {
  stocked = w.stocked;
  kept = kept;
  delivered = w.delivered;
  real = w.real;
  known_items = w.known_items;
  known_deliveries = w.known_deliveries;
  known_order_items = w.known_order_items;
}

pub generate-IsSold :
    (clock : Clock) (t : DocType) (n : DocumentNumber) (s s' : Sales)
    → in_books (generate clock t) s ≡ ok (n, s')
    → IsSold s
    → IsSold s'
generate-IsSold clock t n s s' h w =
    let (b, e, result) = in_books-result (generate clock t) n s s' h in
    subst IsSold (sym result) (with_books s b (generate-IsKept clock t n s.books b e w.kept) w)

-- Changes of the tables that the invariant does not read.
pub others-IsSold :
    (s s' : Sales)
    → s'.stock ≡ s.stock
    → s'.books ≡ s.books
    → s'.order_items ≡ s.order_items
    → s'.deliveries ≡ s.deliveries
    → s'.delivery_items ≡ s.delivery_items
    → s'.next_order_item ≡ s.next_order_item
    → s'.next_delivery ≡ s.next_delivery
    → IsSold s
    → IsSold s'
others-IsSold s s' e0 e1 e2 e3 e4 e5 e6 w =
    let like = record s' {
      stock = s.stock;
      books = s.books;
      order_items = s.order_items;
      deliveries = s.deliveries;
      delivery_items = s.delivery_items;
      next_order_item = s.next_order_item;
      next_delivery = s.next_delivery;
    } in
    let same : s' ≡ like = λ i. record s' {
      stock = e0 i;
      books = e1 i;
      order_items = e2 i;
      deliveries = e3 i;
      delivery_items = e4 i;
      next_order_item = e5 i;
      next_delivery = e6 i;
    } in
    subst IsSold (sym same) (record {
      stocked = w.stocked;
      kept = w.kept;
      delivered = w.delivered;
      real = w.real;
      known_items = w.known_items;
      known_deliveries = w.known_deliveries;
      known_order_items = w.known_order_items;
    })

insert_order_item-IsSold :
    (so_id : ℕ) (i : OrderItemDto) (s : Sales) → IsSold s → IsSold (insert_order_item so_id i s)
insert_order_item-IsSold so_id i s w = record {
  stocked = w.stocked;
  kept = w.kept;
  delivered = (
    sym (
        total_delivered-new so_id s.next_order_item s.next_order_item s w.known_items
          (omega arith)),
    w.delivered,
  );
  real = w.real;
  known_items = All-map _ _ s.delivery_items (λ x lt. omega (arith, lt)) w.known_items;
  known_deliveries = w.known_deliveries;
  known_order_items =
      (omega arith, All-map _ _ s.order_items (λ x lt. omega (arith, lt)) w.known_order_items);
}

insert_order_items-IsSold :
    (so_id : ℕ) (is : List OrderItemDto) (s : Sales)
    → IsSold s
    → IsSold (insert_order_items so_id is s)
insert_order_items-IsSold so_id [] s w = w
insert_order_items-IsSold so_id (i ∷ is) s w =
    insert_order_items-IsSold so_id is (insert_order_item so_id i s)
      (insert_order_item-IsSold so_id i s w)

check_order-same :
    (reading : Reading) (dto : OrderDto) (c : Customer) (s s' : Sales)
    → check_order reading dto s ≡ ok (c, s')
    → s' ≡ s
check_order-same reading dto c s s' h = ground arith

insert_new_order-IsSold :
    (clock : Clock) (dto : OrderDto) (c : Customer) (by : ℕ) (o : Order) (s s' : Sales)
    → insert_new_order clock dto c by s ≡ ok (o, s')
    → IsSold s
    → IsSold s'
insert_new_order-IsSold clock dto c by o s s' h w =
    let (n, s1, e, k) = >>=-eq-ok (in_books (generate clock so)) _ s h in
    let totals = calculate_totals (map amounts_of dto.items) in
    let order = new_order clock dto c totals by n s1 in
    let result : s' ≡ insert_order_items order.id dto.items (insert_order order s1) =
      ground (arith, k) in
    subst IsSold (sym result) (
      insert_order_items-IsSold order.id dto.items (insert_order order s1) (
        others-IsSold s1 (insert_order order s1) refl refl refl refl refl refl refl
          (generate-IsSold clock so n s s1 e w)))

pub create_order-IsSold :
    (reading : Reading) (clock : Clock) (dto : OrderDto) (by : ℕ) (o : Order) (s s' : Sales)
    → create_order reading clock dto by s ≡ ok (o, s')
    → IsSold s
    → IsSold s'
unfolding create_order
create_order-IsSold reading clock dto by o s s' h w =
    let (c, s1, e, k) = >>=-eq-ok (check_order reading dto) _ s h in
    let same = check_order-same reading dto c s s1 e in
    insert_new_order-IsSold clock dto c by o s1 s' k (subst IsSold (sym same) w)

create_demands-IsSold :
    (is : List OrderItem) (date w by : ℕ) (s : Sales)
    → IsSold s
    → IsSold (create_demands is date w by s)
create_demands-IsSold [] date w by s h = h
create_demands-IsSold (i ∷ is) date w by s h =
    create_demands-IsSold is date w by (create_from_sales_order i date w by s)
      (elim (Bool-cases (exists_where (is_demand_for i.id) s.demands)) [
        | inl e ↦ rw e h
        | inr e ↦ rw e (others-IsSold s _ refl refl refl refl refl refl refl h)
      ])

pub confirm_order-IsSold :
    (clock : Clock) (so_id by : ℕ) (s s' : Sales)
    → confirm_order clock so_id by s ≡ ok (tt, s')
    → IsSold s
    → IsSold s'
unfolding confirm_order
confirm_order-IsSold clock so_id by s s' h w = elim (Option-cases (find_order so_id s.orders)) [
  | inl e ↦ cc (rw e at h)
  | inr (o, e) ↦
      let t = set_order so_id (as_confirmed_order by) s in
      let items = select_where (λ i. i.so_id == so_id && is_manufactured t i) t.order_items in
      let u = create_demands items (day_or_now clock o.requested_date) o.warehouse_id by t in
      let result : s' ≡ refresh_available_stock u = ground (arith, rw e at h) in
      subst IsSold (sym result) (
        others-IsSold u _ refl refl refl refl refl refl refl (
          create_demands-IsSold items (day_or_now clock o.requested_date) o.warehouse_id by t
            (others-IsSold s t refl refl refl refl refl refl refl w)))
]

pub cancel_order-IsSold :
    (so_id by : ℕ) (s s' : Sales) → cancel_order so_id by s ≡ ok (tt, s') → IsSold s → IsSold s'
unfolding cancel_order
cancel_order-IsSold so_id by s s' h w =
    others-IsSold s s' (ground arith) (ground arith) (ground arith) (ground arith) (ground arith)
      (ground arith) (ground arith) w
