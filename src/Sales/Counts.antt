-- ===== src/Sales/Counts.antt =====
-- What `updateDeliveredQuantity` sums up, under each change of the deliveries.
use backend_erp.Prelude.{
  ℕ, ◌<◌, ◌≤◌, ◌==◌, if◌then◌else◌, ◌≡◌, refl, sym, ◌∙◌, inl, inr, subst, false, ◌&&◌, some, List,
  [], ◌∷◌, ◌++◌, map, arith, Bool-cases, All, All-map, sum_of, sum_of-cong, sum_of-zero,
  sum_of-append, sum_of-same, update_where,
}
use backend_erp.Sales.Schema.{Delivery, DeliveryItem, Sales, find_delivery}
use backend_erp.Sales.Delivered.{is_confirmed_delivery, is_delivered_for, total_delivered}
use backend_erp.Sales.Deliveries.{
  DeliveryItemDto, new_delivery_item, is_draft_with, as_cancelled_delivery,
}
use backend_erp.Sales.Shipments.{as_confirmed_delivery}

-- a term of the sum
abbrev pub counted : List Delivery → ℕ → ℕ → DeliveryItem → ℕ
counted deliveries so_id so_item_id x =
    if x.so_item_id == so_item_id && is_delivered_for deliveries so_id x.do_id
    then x.quantity_delivered
    else 0

-- An item that no delivery names yet has nothing delivered.
pub total_delivered-new :
    (so_id so_item_id next : ℕ) (s : Sales)
    → All (λ x. x.so_item_id < next) s.delivery_items
    → next ≤ so_item_id
    → total_delivered so_id so_item_id s ≡ 0
total_delivered-new so_id so_item_id next s known le =
    sum_of-cong (counted s.deliveries so_id so_item_id) (λ _. 0) s.delivery_items
      (All-map _ _ s.delivery_items (λ x lt. ground (arith, le, lt)) known)
    ∙ sum_of-zero s.delivery_items

-- A draft is not counted.
module _ (d : Delivery) (deliveries : List Delivery) (so_id so_item_id : ℕ)
    (draft : is_confirmed_delivery d.status ≡ false) where
  drafted :
      (is : List DeliveryItemDto)
      → sum_of (counted (d ∷ deliveries) so_id so_item_id) (map (new_delivery_item d.id) is) ≡ 0
  drafted [] = refl
  drafted (i ∷ is) = ground (arith, draft, drafted is)

  pub counted-drafted :
      (is : List DeliveryItemDto) (xs : List DeliveryItem)
      → All (λ x. x.do_id < d.id) xs
      → sum_of (counted (d ∷ deliveries) so_id so_item_id) (map (new_delivery_item d.id) is ++ xs)
        ≡ sum_of (counted deliveries so_id so_item_id) xs
  counted-drafted is xs known =
      sum_of-append (counted (d ∷ deliveries) so_id so_item_id) (map (new_delivery_item d.id) is) xs
      ∙ omega (
        arith,
        drafted is,
        sum_of-cong (counted (d ∷ deliveries) so_id so_item_id)
            (counted deliveries so_id so_item_id) xs
            (All-map _ _ xs (λ x lt. ground (arith, lt)) known),
      )

-- Cancelling a draft.
is_delivered_for-cancelled :
    (n by so_id do_id : ℕ) (ds : List Delivery)
    → is_delivered_for (update_where (is_draft_with n) (as_cancelled_delivery by) ds) so_id do_id
      ≡ is_delivered_for ds so_id do_id
is_delivered_for-cancelled n by so_id do_id [] = refl
is_delivered_for-cancelled n by so_id do_id (d ∷ ds) =
    ground (arith, is_delivered_for-cancelled n by so_id do_id ds)

-- Confirming a delivery of another order.
pub find_delivery-id :
    (n : ℕ) (ds : List Delivery) (d : Delivery) → find_delivery n ds ≡ some d → d.id ≡ n
find_delivery-id n [] d h = cc
find_delivery-id n (x ∷ ds) d h = ground (arith, find_delivery-id n ds d)

module _ (n movement_id by : ℕ) where
  abbrev confirmed_rows : List Delivery → List Delivery
  confirmed_rows ds = update_where (λ x. x.id == n) (as_confirmed_delivery movement_id by) ds

  elsewhere :
      (so_id do_id : ℕ) (ds : List Delivery)
      → (do_id == n) ≡ false
      → is_delivered_for (confirmed_rows ds) so_id do_id ≡ is_delivered_for ds so_id do_id
  elsewhere so_id do_id [] e = refl
  elsewhere so_id do_id (x ∷ ds) e = ground (arith, e, elsewhere so_id do_id ds e)

  there :
      (so_id : ℕ) (d : Delivery) (ds : List Delivery)
      → find_delivery n ds ≡ some d
      → (d.so_id == so_id) ≡ false
      → (is_delivered_for ds so_id n ≡ false)
        × (is_delivered_for (confirmed_rows ds) so_id n ≡ false)
  there so_id d [] found other = (refl, refl)
  there so_id d (x ∷ ds) found other = elim (Bool-cases (x.id == n)) [
    | inl e ↦
        let same : d ≡ x = ground arith in
        let so : (x.so_id == so_id) ≡ false = subst (λ z. (z.so_id == so_id) ≡ false) same other in
        (ground (arith, e, so), ground (arith, e, so))
    | inr e ↦
        let rest = there so_id d ds (rw e at found) other in
        (ground (arith, e, rest), ground (arith, e, rest))
  ]

  is_delivered_for-confirmed :
      (so_id do_id : ℕ) (d : Delivery) (ds : List Delivery)
      → find_delivery n ds ≡ some d
      → (d.so_id == so_id) ≡ false
      → is_delivered_for (confirmed_rows ds) so_id do_id ≡ is_delivered_for ds so_id do_id
  is_delivered_for-confirmed so_id do_id d ds found other = elim (Bool-cases (do_id == n)) [
    | inr e ↦ elsewhere so_id do_id ds e
    | inl e ↦
        let same : n ≡ do_id = ground arith in
        let (before, after) = there so_id d ds found other in
        subst (λ z. is_delivered_for (confirmed_rows ds) so_id z ≡ is_delivered_for ds so_id z) same
          (after ∙ sym before)
  ]

  pub counted-confirmed :
      (so_id so_item_id : ℕ) (d : Delivery) (ds : List Delivery) (xs : List DeliveryItem)
      → find_delivery n ds ≡ some d
      → (d.so_id == so_id) ≡ false
      → sum_of (counted (confirmed_rows ds) so_id so_item_id) xs
        ≡ sum_of (counted ds so_id so_item_id) xs
  counted-confirmed so_id so_item_id d ds xs found other =
      sum_of-same _ _ xs (λ x. rw (is_delivered_for-confirmed so_id x.do_id d ds found other) refl)

pub counted-cancelled :
    (n by so_id so_item_id : ℕ) (ds : List Delivery) (xs : List DeliveryItem)
    → sum_of
        (counted (update_where (is_draft_with n) (as_cancelled_delivery by) ds) so_id so_item_id)
        xs
      ≡ sum_of (counted ds so_id so_item_id) xs
counted-cancelled n by so_id so_item_id ds xs =
    sum_of-same _ _ xs (λ x. rw (is_delivered_for-cancelled n by so_id x.do_id ds) refl)
