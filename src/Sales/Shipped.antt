-- ===== src/Sales/Shipped.antt =====
-- Deliveries keep what holds of sales (src/modules/sales-order/services/delivery-order.service.ts).
use backend_erp.Prelude.{
  ℕ, suc, ◌<◌, ◌==◌, ltb, ◌≡◌, refl, sym, ◌∙◌, inl, inr, subst, true, false, Option, none, some,
  List, [], ◌∷◌, ◌++◌, map, arith, Bool-cases, Option-cases, All, All-map, All-append,
  All-take_first, exists_where, take_first, update_where,
}
use backend_erp.Database.{Reading, ok, >>=-eq-ok}
use backend_erp.Accounting.Schema.{Clock, do_}
use backend_erp.Accounting.Numbering.{generate}
use backend_erp.Inventory.Requirements.{is_real}
use backend_erp.Inventory.Creates.{known_batch}
use backend_erp.Sales.Schema.{Order, Delivery, Sales, in_books}
use backend_erp.Sales.Orders.{is_unset_or_in}
use backend_erp.Sales.Delivered.{is_confirmed_delivery}
use backend_erp.Sales.Deliveries.{
  DeliveryItemDto, DeliveryDto, validate_do_items, new_delivery, new_delivery_item, insert_delivery,
  has_bad_key, insert_new_delivery, is_deliverable_order, is_no_delivery, create_delivery,
  is_draft_with, as_cancelled_delivery, cancel_delivery,
}
use backend_erp.Sales.Counts.{counted-drafted, counted-cancelled}
use backend_erp.Sales.Sold.{IsSold, in_books-result, generate-IsSold}

validate_do_items-known :
    (reading : Reading) (warehouse_id : ℕ) (is : List DeliveryItemDto) (s s' : Sales)
    → validate_do_items reading warehouse_id is s ≡ ok (tt, s')
    → All (λ i. i.id < s.next_order_item) s.order_items
    → (s' ≡ s) × All (λ i. i.so_item_id < s.next_order_item) is
validate_do_items-known reading warehouse_id [] s s' h known = (ground arith, tt)
validate_do_items-known reading warehouse_id (i ∷ is) s s' h known =
    elim (Option-cases (take_first (λ x. x.id == i.so_item_id) s.order_items)) [
      | inl e ↦ cc (rw e at h)
      | inr (x, e) ↦
          let (lt, test) = All-take_first _ (λ x. x.id == i.so_item_id) s.order_items x known e in
          let rest : validate_do_items reading warehouse_id is s ≡ ok (tt, s') =
            ground (arith, rw e at h) in
          let (same, others) = validate_do_items-known reading warehouse_id is s s' rest known in
          (same, (ground (arith, lt, test), others))
    ]

real_batch :
    (batches : List ℕ) (o : Option ℕ)
    → All (λ b. ltb 0 b ≡ true) batches
    → is_unset_or_in batches o ≡ true
    → is_real o ≡ true
real_batch batches none h e = refl
real_batch batches (some n) h e = known_batch n batches h e

new_delivery_items-real :
    (do_id : ℕ) (s : Sales) (is : List DeliveryItemDto)
    → All (λ b. ltb 0 b ≡ true) s.stock.batches
    → exists_where (has_bad_key s) is ≡ false
    → All (λ x. is_real x.batch_id ≡ true) (map (new_delivery_item do_id) is)
new_delivery_items-real do_id s [] h e = tt
new_delivery_items-real do_id s (i ∷ is) h e = (
  real_batch s.stock.batches i.batch_id h (ground arith),
  new_delivery_items-real do_id s is h (ground arith),
)

new_delivery_items-known :
    (do_id k : ℕ) (is : List DeliveryItemDto)
    → All (λ i. i.so_item_id < k) is
    → All (λ x. x.so_item_id < k) (map (new_delivery_item do_id) is)
new_delivery_items-known do_id k [] h = tt
new_delivery_items-known do_id k (i ∷ is) h = (h.0, new_delivery_items-known do_id k is h.1)

new_delivery_items-id :
    (do_id : ℕ) (is : List DeliveryItemDto)
    → All (λ x. x.do_id < suc do_id) (map (new_delivery_item do_id) is)
new_delivery_items-id do_id [] = tt
new_delivery_items-id do_id (i ∷ is) = (omega arith, new_delivery_items-id do_id is)

insert_delivery-IsSold :
    (d : Delivery) (is : List DeliveryItemDto) (s : Sales)
    → d.id ≡ s.next_delivery
    → is_confirmed_delivery d.status ≡ false
    → All (λ i. i.so_item_id < s.next_order_item) is
    → exists_where (has_bad_key s) is ≡ false
    → IsSold s
    → IsSold (insert_delivery d (map (new_delivery_item d.id) is) s)
insert_delivery-IsSold d is s id draft known keys w =
    let new = map (new_delivery_item d.id) is in
    let older : All (λ x. x.do_id < d.id) s.delivery_items =
      All-map _ _ s.delivery_items (λ x lt. omega (arith, lt, id)) w.known_deliveries in
    record {
      stocked = w.stocked;
      kept = w.kept;
      delivered =
          All-map _ _ s.order_items
            (λ i e.
              e ∙ sym (counted-drafted d s.deliveries i.so_id i.id draft is s.delivery_items older))
            w.delivered;
      real =
          All-append _ new s.delivery_items
            (new_delivery_items-real d.id s is w.stocked.real_batches keys) w.real;
      known_items =
          All-append _ new s.delivery_items
            (new_delivery_items-known d.id s.next_order_item is known) w.known_items;
      known_deliveries =
          subst (λ n. All (λ x. x.do_id < suc n) (new ++ s.delivery_items)) id
            (All-append _ new s.delivery_items (new_delivery_items-id d.id is)
              (All-map _ _ s.delivery_items (λ x lt. omega (arith, lt)) older));
      known_order_items = w.known_order_items;
    }

insert_new_delivery-IsSold :
    (clock : Clock) (dto : DeliveryDto) (o : Order) (by : ℕ) (d : Delivery) (s s' : Sales)
    → insert_new_delivery clock dto o by s ≡ ok (d, s')
    → All (λ i. i.so_item_id < s.next_order_item) dto.items
    → IsSold s
    → IsSold s'
insert_new_delivery-IsSold clock dto o by d s s' h known w =
    let (n, s1, e, k) = >>=-eq-ok (in_books (generate clock do_)) _ s h in
    let (b, _, r) = in_books-result (generate clock do_) n s s1 e in
    let delivery = new_delivery clock dto o by n s1 in
    let keys : exists_where (has_bad_key s1) dto.items ≡ false = ground (arith, k) in
    let result : s' ≡ insert_delivery delivery (map (new_delivery_item delivery.id) dto.items) s1 =
      ground (arith, k) in
    subst IsSold (sym result) (
      insert_delivery-IsSold delivery dto.items s1 refl refl
        (subst (λ z. All (λ i. i.so_item_id < z.next_order_item) dto.items) (sym r) known) keys
        (generate-IsSold clock do_ n s s1 e w))

pub create_delivery-IsSold :
    (reading : Reading) (clock : Clock) (dto : DeliveryDto) (by : ℕ) (d : Delivery) (s s' : Sales)
    → create_delivery reading clock dto by s ≡ ok (d, s')
    → IsSold s
    → IsSold s'
unfolding create_delivery
create_delivery-IsSold reading clock dto by d s s' h w =
    elim (Option-cases (take_first (is_deliverable_order dto.so_id) s.orders)) [
      | inl e ↦ cc (rw e at h)
      | inr (o, e) ↦ elim (Bool-cases (is_no_delivery dto.items)) [
        | inl f ↦ cc (rw f at (rw e at h))
        | inr f ↦
            let (_, s1, x, y) =
              >>=-eq-ok (validate_do_items reading o.warehouse_id dto.items) _ s
                (rw f at (rw e at h)) in
            let (same, known) =
              validate_do_items-known reading o.warehouse_id dto.items s s1 x w.known_order_items in
            insert_new_delivery-IsSold clock dto o by d s s'
              (subst (λ z. insert_new_delivery clock dto o by z ≡ ok (d, s')) same y) known w
      ]
    ]

pub cancel_delivery-IsSold :
    (do_id by : ℕ) (s s' : Sales) → cancel_delivery do_id by s ≡ ok (tt, s') → IsSold s → IsSold s'
unfolding cancel_delivery
cancel_delivery-IsSold do_id by s s' h w =
    let after = record s {
      deliveries = update_where (is_draft_with do_id) (as_cancelled_delivery by) s.deliveries;
    } in
    let result : s' ≡ after = ground arith in
    subst IsSold (sym result) (record {
      stocked = w.stocked;
      kept = w.kept;
      delivered =
          All-map _ _ s.order_items
            (λ i e. e ∙ sym (counted-cancelled do_id by i.so_id i.id s.deliveries s.delivery_items))
            w.delivered;
      real = w.real;
      known_items = w.known_items;
      known_deliveries = w.known_deliveries;
      known_order_items = w.known_order_items;
    })
