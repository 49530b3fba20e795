-- ===== src/Sales/Issuing.antt =====
-- How the items of a delivery leave the stock
-- (`confirm` of src/modules/sales-order/services/delivery-order.service.ts).
use backend_erp.Prelude.{ℕ, ◌≡◌, ◌∙◌, inl, inr, subst, some, List, arith, Option-cases}
use backend_erp.Database.{Action, ok, ◌>>◌, >>=-eq-ok, pure}
use backend_erp.Accounting.Schema.{Clock, delivery_order}
use backend_erp.Inventory.Schema.{Item, Stock, MovementType, Movement}
use backend_erp.Inventory.Movements.{
  requirements_of, check_requirements, insert_items, insert_movement,
}
use backend_erp.Inventory.Requirements.{check_requirements-All}
use backend_erp.Inventory.Issues.{source_movement, insert_source_movement, find_code}
use backend_erp.Inventory.Issued.{insert_source_movement-result}
use backend_erp.Sales.Schema.{Delivery, Sales, in_stock}
use backend_erp.Sales.Shipments.{issued_items, issue_items, issue_stock, sales_delivery}
use backend_erp.Sales.Sold.{in_stock-result}

issue_items-result :
    (is : List Item) (s s' : Stock)
    → issue_items is s ≡ ok (tt, s')
    → (check_requirements (requirements_of is) s ≡ ok (tt, s)) × (s' ≡ insert_items is s)
issue_items-result is s s' h =
    let (_, s1, x, y) = >>=-eq-ok (check_requirements (requirements_of is)) _ s h in
    let (same, _) = check_requirements-All (requirements_of is) s s1 x in
    (x ∙ (λ i. ok (tt, same i)), subst (λ z. s' ≡ insert_items is z) same (ground (arith, y)))

-- A delivery whose items have left the stock.
pub record IsIssued (clock : Clock) (d : Delivery) (by n : ℕ) (s s' : Sales) (t : MovementType)
    : Type 0 where
  pub typed : find_code sales_delivery s.stock ≡ some t
  pub number : n ≡ s.stock.next_movement
  pub checked :
      check_requirements
        (requirements_of (issued_items s.stock.next_movement d s))
        (insert_movement (source_movement clock t delivery_order d.id by s.stock) s.stock)
      ≡ ok (tt, insert_movement (source_movement clock t delivery_order d.id by s.stock) s.stock)
  pub result : s' ≡ record s {
    stock =
        insert_items
          (issued_items s.stock.next_movement d s)
          (insert_movement (source_movement clock t delivery_order d.id by s.stock) s.stock);
  }

abbrev rest_of : ℕ → List Item → Action Sales ℕ
rest_of k items = in_stock (issue_items items) >> pure k

module _ (clock : Clock) (d : Delivery) (by n : ℕ) (s : Sales) (t : MovementType) where
  abbrev movement : Movement
  movement = source_movement clock t delivery_order d.id by s.stock

  abbrev moved : Stock
  moved = insert_movement movement s.stock

  after_movement :
      (s' : Sales)
      → rest_of s.stock.next_movement
          (issued_items s.stock.next_movement d s)
          (record s { stock = moved })
        ≡ ok (n, s')
      → find_code sales_delivery s.stock ≡ some t
      → IsIssued clock d by n s s' t
  after_movement s' h typed =
      let items = issued_items s.stock.next_movement d s in
      let (_, s2, x, y) =
        >>=-eq-ok (in_stock (issue_items items)) _ (record s { stock = moved }) h in
      let (st, e, r) = in_stock-result (issue_items items) tt (record s { stock = moved }) s2 x in
      let (checked, result) = issue_items-result items moved st e in
      record {
        typed = typed;
        number = ground (arith, y);
        checked = checked;
        result = ground (arith, y, r, result);
      }

pub issue_stock-IsIssued :
    (clock : Clock) (d : Delivery) (by n : ℕ) (s s' : Sales)
    → issue_stock clock d by s ≡ ok (n, s')
    → (t : MovementType) × IsIssued clock d by n s s' t
issue_stock-IsIssued clock d by n s s' h = elim (Option-cases (find_code sales_delivery s.stock)) [
  | inl e ↦ cc (rw e at h)
  | inr (t, e) ↦
      let (m, s1, x, y) =
        >>=-eq-ok (in_stock (insert_source_movement clock t delivery_order d.id by)) _ s
          (rw e at h) in
      let (st, x1, r) =
        in_stock-result (insert_source_movement clock t delivery_order d.id by) m s s1 x in
      let (made, stock) =
        insert_source_movement-result clock t delivery_order d.id by m s.stock st x1 in
      let made_movement = source_movement clock t delivery_order d.id by s.stock in
      let state : s1 ≡ record s { stock = insert_movement made_movement s.stock } =
        r
        ∙ (λ i. record s { stock = stock i })
        ∙ (λ i. record s { stock = insert_movement (made i) s.stock }) in
      let next = subst (λ q. rest_of q.id (issued_items q.id d s1) s1 ≡ ok (n, s')) made y in
      (
        t,
        after_movement clock d by n s t s'
            (subst
              (λ z.
                rest_of s.stock.next_movement (issued_items s.stock.next_movement d z) z
                ≡ ok (n, s'))
              state next)
            e,
      )
]
