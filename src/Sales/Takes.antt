-- ===== src/Sales/Takes.antt =====
-- What a confirmed delivery takes from the stock.
use backend_erp.Prelude.{
  ℕ, ◌==◌, if◌then◌else◌, ◌≡◌, refl, sym, ◌∙◌, ap, subst, ◌&&◌, Option, none, some, List, [], ◌∷◌,
  map, arith, sum_of, select_where,
}
use backend_erp.Prelude.Int.{pos, ◌+ℤ◌, int_laws}
use backend_erp.Database.{ok}
use backend_erp.Accounting.Schema.{Clock, LedgerRow, delivery_order}
use backend_erp.Inventory.Schema.{out, Key, MovementType, find_type, same_batch}
use backend_erp.Inventory.OnHand.{stock_on_hand, direction_in, refresh_stock_summary}
use backend_erp.Inventory.Levels.{sum_of_direction}
use backend_erp.Inventory.Issues.{source_movement, find_code}
use backend_erp.Inventory.Issued.{stock_on_hand-issued, sum_of_option}
use backend_erp.Sales.Schema.{OrderStatus, Delivery, DeliveryItem, CatalogRow, Sales, find_delivery}
use backend_erp.Sales.Delivered.{set_status, status_after, set_delivered}
use backend_erp.Sales.Shipments.{
  items_of_delivery, issued_item, issued_items, sales_delivery, set_delivery, as_confirmed_delivery,
  settle_delivery, confirm_delivery,
}
use backend_erp.Sales.Demands.{refresh_available_stock}
use backend_erp.Sales.Issuing.{IsIssued}
use backend_erp.Sales.Sold.{IsSold}
use backend_erp.Sales.Confirmed.{issued_items-made, confirm_delivery-IsShipped}

-- What the items deliver of a key, from a warehouse.
abbrev pub quantity_at : Key → ℕ → List DeliveryItem → ℕ
quantity_at k warehouse_id xs =
    sum_of
      (λ x.
        if (x.variant_id == k.variant_id && same_batch x.batch_id k.batch_id)
          && warehouse_id == k.warehouse_id
        then x.quantity_delivered
        else 0)
      xs

sum_of_direction-issued :
    (n w : ℕ) (catalog : List CatalogRow) (k : Key) (xs : List DeliveryItem)
    → sum_of_direction out k (map (issued_item n w catalog) xs) +ℤ pos (quantity_at k w xs) ≡ pos 0
sum_of_direction-issued n w catalog k [] = omega int_laws
sum_of_direction-issued n w catalog k (x ∷ xs) =
    grind (int_laws, sum_of_direction-issued n w catalog k xs)

set_status-stock :
    (so_id : ℕ) (o : Option OrderStatus) (s : Sales) → (set_status so_id o s).stock ≡ s.stock
set_status-stock so_id none s = refl
set_status-stock so_id (some status) s = refl

abbrev settled_items : Delivery → ℕ → ℕ → Sales → Sales
settled_items d n by s =
    let t = set_delivery d.id (as_confirmed_delivery n by) s in
    set_delivered d.so_id
      (refresh_available_stock (record t { stock = refresh_stock_summary t.stock }))

shipped-stock :
    (d : Delivery) (n by : ℕ) (k : Key) (s : Sales)
    → stock_on_hand k (settle_delivery d n by s).stock ≡ stock_on_hand k s.stock
shipped-stock d n by k s = ap (stock_on_hand k) (
    set_status-stock d.so_id
      (status_after (select_where (λ i. i.so_id == d.so_id) (settled_items d n by s).order_items))
      (settled_items d n by s))

issued-takes :
    (clock : Clock) (by n : ℕ) (s s1 : Sales) (d : Delivery) (t : MovementType) (k : Key)
    → IsSold s
    → IsIssued clock d by n s s1 t
    → find_type t.id s.stock.types ≡ some t
    → t.direction ≡ out
    → stock_on_hand k s1.stock +ℤ pos (quantity_at k d.warehouse_id (items_of_delivery d.id s))
      ≡ stock_on_hand k s.stock
issued-takes clock by n s s1 d t k w c typed outward =
    let m = source_movement clock t delivery_order d.id by s.stock in
    let xs = items_of_delivery d.id s in
    let is = issued_items s.stock.next_movement d s in
    let direction : direction_in m s.stock.types ≡ some out = rw typed (ap some outward) in
    let grown =
      stock_on_hand-issued s.stock m is refl
        (issued_items-made s.stock.next_movement d.warehouse_id s.catalog xs) k w.stocked.known in
    let outflow : sum_of_option (direction_in m s.stock.types) k is ≡ sum_of_direction out k is =
      ap (λ z. sum_of_option z k is) direction in
    let after : stock_on_hand k s1.stock ≡ stock_on_hand k s.stock +ℤ sum_of_direction out k is =
      ap (λ z. stock_on_hand k z.stock) c.result
      ∙ grown
      ∙ ap (λ z. stock_on_hand k s.stock +ℤ z) outflow in
    grind
      (int_laws, after, sum_of_direction-issued s.stock.next_movement d.warehouse_id s.catalog k xs)

-- Confirming a delivery, from tables where the invariant of Sales/Sold holds, takes from the stock on
-- hand of every variant, warehouse and batch what its items deliver of them, if the movement type
-- SALES_DELIVERY is an outward one and the row of its identifier.
pub confirm_delivery-takes :
    (clock : Clock) (pick : List LedgerRow → Option LedgerRow) (do_id by : ℕ) (s s' : Sales)
    (d : Delivery) (t : MovementType) (k : Key)
    → IsSold s
    → confirm_delivery clock pick do_id by s ≡ ok (tt, s')
    → find_delivery do_id s.deliveries ≡ some d
    → find_code sales_delivery s.stock ≡ some t
    → find_type t.id s.stock.types ≡ some t
    → t.direction ≡ out
    → stock_on_hand k s'.stock +ℤ pos (quantity_at k d.warehouse_id (items_of_delivery do_id s))
      ≡ stock_on_hand k s.stock
confirm_delivery-takes clock pick do_id by s s' d t k w h found code typed outward =
    let (d1, n, t1, s1, c) = confirm_delivery-IsShipped clock pick do_id by s s' h in
    let (cost, b, posted, result) = c.result in
    let row : some d1 ≡ some d =
      sym c.found ∙ subst (λ z. find_delivery z s.deliveries ≡ some d) (sym c.id) found in
    let same_d : d1 ≡ d = ground (arith, row) in
    let type : some t1 ≡ some t = sym c.issued.typed ∙ code in
    let same_t : t1 ≡ t = ground (arith, type) in
    let issued =
      subst (λ x. IsIssued clock d by n s s1 x) same_t
        (subst (λ x. IsIssued clock x by n s s1 t1) same_d c.issued) in
    let id : d.id ≡ do_id = ap (λ z. z.id) (sym same_d) ∙ c.id in
    let taken = issued-takes clock by n s s1 d t k w issued typed outward in
    let after : stock_on_hand k s'.stock ≡ stock_on_hand k s1.stock =
      ap (λ z. stock_on_hand k z.stock) result ∙ shipped-stock d1 n by k s1 in
    subst
      (λ x.
        stock_on_hand k s'.stock +ℤ pos (quantity_at k d.warehouse_id (items_of_delivery x s))
        ≡ stock_on_hand k s.stock)
      id
      (ap (λ z. z +ℤ pos (quantity_at k d.warehouse_id (items_of_delivery d.id s))) after ∙ taken)
