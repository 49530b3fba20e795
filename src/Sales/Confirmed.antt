-- ===== src/Sales/Confirmed.antt =====
-- Confirming a delivery keeps what holds of sales, and takes from the stock what it delivers
-- (`confirm` of src/modules/sales-order/services/delivery-order.service.ts).
use backend_erp.Prelude.{
  ℕ, ◌+◌, ◌/◌, ◌<◌, ◌==◌, ◌≡◌, refl, sym, ◌∙◌, inl, inr, ap, subst, true, false, Option, none, some,
  List, [], ◌∷◌, map, arith, Bool-cases, Option-cases, All, All-map, All-update_where, select_where,
  update_where,
}
use backend_erp.Database.{ok, transaction, >>=-eq-ok}
use backend_erp.Accounting.Schema.{
  Clock, LedgerRow, Books, delivery_order, cogs, inventory_finished,
}
use backend_erp.Accounting.Accounts.{get_system_account, get_system_account-same}
use backend_erp.Accounting.Journal.Reversal.{auto_post}
use backend_erp.Accounting.Kept.{IsKept}
use backend_erp.Accounting.Reach.{Step-IsKept, auto_posted}
use backend_erp.Inventory.Schema.{MovementType}
use backend_erp.Inventory.Movements.{
  requirements_of, check_requirements, insert_items, insert_movement,
}
use backend_erp.Inventory.Requirements.{is_real}
use backend_erp.Inventory.Issues.{source_movement}
use backend_erp.Inventory.Issued.{issued, issued-IsStocked, check_before}
use backend_erp.Inventory.Reach.{IsStocked}
use backend_erp.Sales.Schema.{
  OrderItem, OrderStatus, CatalogRow, Delivery, DeliveryItem, Sales, find_order, find_delivery,
}
use backend_erp.Sales.Delivered.{
  total_delivered, with_delivered, set_delivered, status_after, set_status,
  update_delivered_quantity,
}
use backend_erp.Sales.Deliveries.{is_draft_delivery}
use backend_erp.Sales.Shipments.{
  items_of_delivery, issued_item, issued_items, issue_stock, calculate_cogs, post_cogs,
  post_if_costly, check_delivery, cogs_entry, settle_delivery, confirm_delivery,
}
use backend_erp.Sales.Counts.{counted-confirmed, find_delivery-id}
use backend_erp.Sales.Sold.{IsSold, with_books, in_books-result, others-IsSold}
use backend_erp.Sales.Issuing.{IsIssued, issue_stock-IsIssued}

pub issued_items-made :
    (n w : ℕ) (catalog : List CatalogRow) (xs : List DeliveryItem)
    → All (λ i. i.movement_id ≡ n) (map (issued_item n w catalog) xs)
issued_items-made n w catalog [] = tt
issued_items-made n w catalog (x ∷ xs) = (refl, issued_items-made n w catalog xs)

issued_items-real :
    (n w do_id : ℕ) (catalog : List CatalogRow) (xs : List DeliveryItem)
    → All (λ x. is_real x.batch_id ≡ true) xs
    → All
        (λ i. is_real i.batch_id ≡ true)
        (map (issued_item n w catalog) (select_where (λ x. x.do_id == do_id) xs))
issued_items-real n w do_id catalog [] h = tt
issued_items-real n w do_id catalog (x ∷ xs) h = elim (Bool-cases (x.do_id == do_id)) [
  | inl e ↦ rw e (h.0, issued_items-real n w do_id catalog xs h.1)
  | inr e ↦ rw e (issued_items-real n w do_id catalog xs h.1)
]

with_delivered-delivered :
    (so_id : ℕ) (s : Sales) (is : List OrderItem)
    → All
        (λ i. (i.so_id == so_id) ≡ false → i.quantity_delivered ≡ total_delivered i.so_id i.id s)
        is
    → All
        (λ i. i.quantity_delivered ≡ total_delivered i.so_id i.id s)
        (update_where (λ i. i.so_id == so_id) (with_delivered s) is)
with_delivered-delivered so_id s [] h = tt
with_delivered-delivered so_id s (i ∷ is) h = (
  elim (Bool-cases (i.so_id == so_id)) [ inl e ↦ rw e refl | inr e ↦ rw e (h.0 e) ],
  with_delivered-delivered so_id s is h.1,
)

set_status-IsSold :
    (so_id : ℕ) (o : Option OrderStatus) (s : Sales) → IsSold s → IsSold (set_status so_id o s)
set_status-IsSold so_id none s w = w
set_status-IsSold so_id (some status) s w = others-IsSold s _ refl refl refl refl refl refl refl w

-- The totals of the other orders' items are as before, and those of the order are written.
update_delivered_quantity-IsSold :
    (so_id : ℕ) (s : Sales)
    → IsStocked s.stock
    → IsKept s.books
    → All
        (λ i. (i.so_id == so_id) ≡ false → i.quantity_delivered ≡ total_delivered i.so_id i.id s)
        s.order_items
    → All (λ x. is_real x.batch_id ≡ true) s.delivery_items
    → All (λ x. x.so_item_id < s.next_order_item) s.delivery_items
    → All (λ x. x.do_id < s.next_delivery) s.delivery_items
    → All (λ i. i.id < s.next_order_item) s.order_items
    → IsSold (update_delivered_quantity so_id s)
update_delivered_quantity-IsSold so_id s stocked kept totals real items deliveries orders =
    set_status-IsSold so_id
      (status_after (select_where (λ i. i.so_id == so_id) (set_delivered so_id s).order_items))
      (set_delivered so_id s)
      (record {
        stocked = stocked;
        kept = kept;
        delivered = with_delivered-delivered so_id s s.order_items totals;
        real = real;
        known_items = items;
        known_deliveries = deliveries;
        known_order_items =
            All-update_where _ (λ i. i.so_id == so_id) (with_delivered s) s.order_items
              (λ i lt _. lt) orders;
      })

settle_delivery-IsSold :
    (clock : Clock) (d : Delivery) (by n : ℕ) (s : Sales) (t : MovementType)
    → find_delivery d.id s.deliveries ≡ some d
    → check_requirements
        (requirements_of (issued_items s.stock.next_movement d s))
        (insert_movement (source_movement clock t delivery_order d.id by s.stock) s.stock)
      ≡ ok (tt, insert_movement (source_movement clock t delivery_order d.id by s.stock) s.stock)
    → IsSold s
    → IsSold (
        settle_delivery d n by (record s {
          stock =
              insert_items
                (issued_items s.stock.next_movement d s)
                (insert_movement (source_movement clock t delivery_order d.id by s.stock) s.stock);
        }))
settle_delivery-IsSold clock d by n s t found checked w =
    let m = source_movement clock t delivery_order d.id by s.stock in
    let is = issued_items s.stock.next_movement d s in
    update_delivered_quantity-IsSold d.so_id _
      (issued-IsStocked s.stock m is refl
        (issued_items-made s.stock.next_movement d.warehouse_id s.catalog
          (items_of_delivery d.id s))
        (issued_items-real s.stock.next_movement d.warehouse_id d.id s.catalog s.delivery_items
          w.real)
        (check_before s.stock m (requirements_of is) refl w.stocked.known checked) w.stocked)
      w.kept
      (All-map _ _ s.order_items
        (λ i e other.
          e
          ∙ sym (
              counted-confirmed d.id n by i.so_id i.id d s.deliveries s.delivery_items found
                (ground (arith, other))))
        w.delivered)
      w.real w.known_items w.known_deliveries w.known_order_items

check_delivery-result :
    (do_id : ℕ) (d : Delivery) (s s' : Sales)
    → check_delivery do_id s ≡ ok (d, s')
    → (s' ≡ s) × (find_delivery d.id s.deliveries ≡ some d) × (d.id ≡ do_id)
check_delivery-result do_id d s s' h = elim (Option-cases (find_delivery do_id s.deliveries)) [
  | inl e ↦ cc (rw e at h)
  | inr (x, e) ↦ elim (Bool-cases (is_draft_delivery x.status)) [
    | inr f ↦ cc (rw f at (rw e at h))
    | inl f ↦ elim (Option-cases (find_order x.so_id s.orders)) [
      | inl g ↦ cc (rw g at (rw f at (rw e at h)))
      | inr (o, g) ↦
          let k = rw g at (rw f at (rw e at h)) in
          let same : x ≡ d = ground (arith, k) in
          let id : do_id ≡ d.id =
            sym (find_delivery-id do_id s.deliveries x e) ∙ ap (λ z. z.id) same in
          (
            ground (arith, k),
            subst (λ z. find_delivery z s.deliveries ≡ some d) id (e ∙ ap some same),
            sym id,
          )
    ]
  ]
]

module _ (clock : Clock) (pick : List LedgerRow → Option LedgerRow) where
  -- The steps of a confirmation that succeeds.
  pub record IsShipped (do_id by : ℕ) (s s' : Sales) (d : Delivery) (n : ℕ) (t : MovementType)
      (s1 : Sales) : Type 0 where
    pub found : find_delivery d.id s.deliveries ≡ some d
    pub id : d.id ≡ do_id
    pub issued : IsIssued clock d by n s s1 t
    pub result :
        (cost : ℕ) × (b : Books) × (post_if_costly clock pick do_id cost by
            (settle_delivery d n by s1).books
          ≡ ok (tt, b))
        × (s' ≡ record (settle_delivery d n by s1) { books = b })

  pub confirm_delivery-IsShipped :
      (do_id by : ℕ) (s s' : Sales)
      → confirm_delivery clock pick do_id by s ≡ ok (tt, s')
      → (d : Delivery) × (n : ℕ) × (t : MovementType) × (s1 : Sales) × IsShipped do_id by s s' d n t
          s1
  unfolding confirm_delivery
  confirm_delivery-IsShipped do_id by s s' h =
      let (d, s0, e, k) = >>=-eq-ok (check_delivery do_id) _ s h in
      let (same, found, id) = check_delivery-result do_id d s s0 e in
      let (n, s1, e1, k1) = >>=-eq-ok (issue_stock clock d by) _ s0 k in
      let (t, issued) =
        issue_stock-IsIssued clock d by n s s1
          (subst (λ z. issue_stock clock d by z ≡ ok (n, s1)) same e1) in
      let cost = calculate_cogs (issued_items n d s1) in
      let (b, e2, r) =
        in_books-result (post_if_costly clock pick do_id cost by) tt (settle_delivery d n by s1) s'
          k1 in
      (d, n, t, s1, record { found = found; id = id; issued = issued; result = (cost, b, e2, r) })

  post_cogs-IsKept :
      (do_id cost by : ℕ) (b b' : Books)
      → post_cogs clock pick do_id cost by b ≡ ok (tt, b')
      → IsKept b
      → IsKept b'
  post_cogs-IsKept do_id cost by b b' h k =
      let (a, b1, x, y) = >>=-eq-ok (get_system_account cogs) _ b h in
      let (c, b2, x2, y2) = >>=-eq-ok (get_system_account inventory_finished) _ b1 y in
      let entry = cogs_entry clock do_id ((cost + 5000) / 10000) a.id c.id in
      let (n, b3, x3, y3) = >>=-eq-ok (auto_post clock pick transaction entry by) _ b2 y2 in
      let same1 = get_system_account-same cogs a b b1 x in
      let same2 = get_system_account-same inventory_finished c b1 b2 x2 in
      let start : IsKept b2 = subst IsKept (sym (same2 ∙ same1)) k in
      let same : b' ≡ b3 = ground (arith, y3) in
      subst IsKept (sym same)
        (Step-IsKept pick b2 b3 (auto_posted clock transaction entry by n x3) start)

  post_if_costly-IsKept :
      (do_id cost by : ℕ) (b b' : Books)
      → post_if_costly clock pick do_id cost by b ≡ ok (tt, b')
      → IsKept b
      → IsKept b'
  post_if_costly-IsKept do_id cost by b b' h k = elim (Bool-cases (cost == 0)) [
    | inl e ↦ let same : b' ≡ b = ground (arith, rw e at h) in subst IsKept (sym same) k
    | inr e ↦ post_cogs-IsKept do_id cost by b b' (rw e at h) k
  ]

  pub confirm_delivery-IsSold :
      (do_id by : ℕ) (s s' : Sales)
      → confirm_delivery clock pick do_id by s ≡ ok (tt, s')
      → IsSold s
      → IsSold s'
  confirm_delivery-IsSold do_id by s s' h w =
      let (d, n, t, s1, c) = confirm_delivery-IsShipped do_id by s s' h in
      let (cost, b, posted, result) = c.result in
      let settled =
        subst (λ z. IsSold (settle_delivery d n by z)) (sym c.issued.result)
          (settle_delivery-IsSold clock d by n s t c.found c.issued.checked w) in
      subst IsSold (sym result) (
        with_books (settle_delivery d n by s1) b
          (post_if_costly-IsKept do_id cost by (settle_delivery d n by s1).books b posted
            settled.kept)
          settled)
