-- ===== src/Inventory/Issued.antt =====
-- A movement that a document makes, and items that the check of the stock has let through: the stock
-- stays at or above zero.
use backend_erp.Prelude.{
  Bool-cases, false, ℕ, ◌<◌, ◌≡◌, refl, sym, ◌∙◌, inl, inr, true, Option, none, some, List, [], ◌∷◌,
  ◌++◌, arith, All, All-map, All-append, ap, subst,
}
use backend_erp.Prelude.Int.{ℤ, pos, ◌+ℤ◌, ◌≤ℤ◌, ltb_ℤ, int_laws, +ℤ_zero}
use backend_erp.Database.{ok}
use backend_erp.Inventory.Schema.{Direction, Movement, MovementType, Item, Key, Stock}
use backend_erp.Inventory.OnHand.{
  direction_in, direction_of, delta, sum_deltas, stock_on_hand, refresh_stock_summary,
}
use backend_erp.Inventory.Movements.{
  Requirement, insert_movement, insert_items, requirements_of, check_requirements,
}
use backend_erp.Inventory.Requirements.{is_real}
use backend_erp.Inventory.Levels.{sum_of_direction, sum_deltas-same, SameDirections}
use backend_erp.Inventory.Covered.{taken-covered}
use backend_erp.Accounting.Schema.{Clock, ReferenceType}
use backend_erp.Inventory.Issues.{source_movement, insert_source_movement}
use backend_erp.Inventory.Reach.{IsStocked}

-- What items add whose movement has this direction, or none.
abbrev pub sum_of_option : Option Direction → Key → List Item → ℤ
sum_of_option none k is = pos 0
sum_of_option (some d) k is = sum_of_direction d k is

sum_of_option-cons :
    (d : Option Direction) (k : Key) (x : Item) (xs : List Item)
    → sum_of_option d k (x ∷ xs) ≡ sum_of_option d k xs +ℤ delta d k x
sum_of_option-cons none k x xs = sym (+ℤ_zero (pos 0))
sum_of_option-cons (some d) k x xs = refl

-- Items of one direction at the head of the list.
sum_deltas-directed :
    (d : Option Direction) (t : Stock) (k : Key) (xs ys : List Item)
    → All (λ i. direction_of t i.movement_id ≡ d) xs
    → sum_deltas t k (xs ++ ys) ≡ sum_deltas t k ys +ℤ sum_of_option d k xs
sum_deltas-directed none t k [] ys h = sym (+ℤ_zero (sum_deltas t k ys))
sum_deltas-directed (some d) t k [] ys h = sym (+ℤ_zero (sum_deltas t k ys))
sum_deltas-directed d t k (x ∷ xs) ys h =
    rw h.0 (grind (int_laws, sum_deltas-directed d t k xs ys h.1, sum_of_option-cons d k x xs))

module _ (s : Stock) (m : Movement) (is : List Item) (id : m.id ≡ s.next_movement)
    (here : All (λ i. i.movement_id ≡ s.next_movement) is) where
  abbrev pub issued : Stock
  issued = insert_items is (insert_movement m s)

  new_direction : direction_of issued s.next_movement ≡ direction_in m s.types
  new_direction = ground (arith, id)

  old_direction : (k : ℕ) → k < s.next_movement → direction_of issued k ≡ direction_of s k
  old_direction k h = ground (arith, id)

  issued_directions :
      (xs : List Item)
      → All (λ i. i.movement_id ≡ s.next_movement) xs
      → All (λ i. direction_of issued i.movement_id ≡ direction_in m s.types) xs
  issued_directions xs h = All-map _ _ xs (λ i e. ap (direction_of issued) e ∙ new_direction) h

  old_directions :
      All (λ i. i.movement_id < s.next_movement) s.items → SameDirections s issued s.items
  old_directions h = All-map _ _ s.items (λ i lt. old_direction i.movement_id lt) h

  -- The stock on hand grows by what the new items add.
  pub stock_on_hand-issued :
      (k : Key)
      → All (λ i. i.movement_id < s.next_movement) s.items
      → stock_on_hand k issued ≡ stock_on_hand k s +ℤ sum_of_option (direction_in m s.types) k is
  stock_on_hand-issued k known =
      sum_deltas-directed (direction_in m s.types) issued k is s.items (issued_directions is here)
      ∙ ap (λ z. z +ℤ sum_of_option (direction_in m s.types) k is)
          (sum_deltas-same s issued k s.items (old_directions known))

  option-covered :
      (d : Option Direction) (k : Key)
      → is_real k.batch_id ≡ true
      → All (λ i. is_real i.batch_id ≡ true) is
      → check_requirements (requirements_of is) s ≡ ok (tt, s)
      → pos 0 ≤ℤ stock_on_hand k s
      → pos 0 ≤ℤ stock_on_hand k s +ℤ sum_of_option d k is
  option-covered none k real reals h level = omega (int_laws, level)
  option-covered (some d) k real reals h level = taken-covered d is s k real reals h level

  pub issued-IsStocked :
      All (λ i. is_real i.batch_id ≡ true) is
      → check_requirements (requirements_of is) s ≡ ok (tt, s)
      → IsStocked s
      → IsStocked (refresh_stock_summary issued)
  issued-IsStocked reals h w = record {
    levels = λ k real.
        subst (λ z. pos 0 ≤ℤ z) (sym (stock_on_hand-issued k w.known))
          (option-covered (direction_in m s.types) k real reals h (w.levels k real));
    current = refl;
    known =
        All-append _ is s.items (All-map _ _ is (λ i e. omega (arith, e)) here)
          (All-map _ _ s.items (λ i lt. omega (arith, lt)) w.known);
    real = All-append _ is s.items reals w.real;
    real_batches = w.real_batches;
  }

check_requirements-transfer :
    (s t : Stock) (rs : List Requirement)
    → ((k : Key) → stock_on_hand k t ≡ stock_on_hand k s)
    → check_requirements rs t ≡ ok (tt, t)
    → check_requirements rs s ≡ ok (tt, s)
check_requirements-transfer s t [] same h = refl
check_requirements-transfer s t (r ∷ rs) same h =
    elim (Bool-cases (ltb_ℤ (stock_on_hand r.key t) (pos r.quantity))) [
      | inl e ↦ cc (rw e at h)
      | inr e ↦
          rw (subst (λ z. ltb_ℤ z (pos r.quantity) ≡ false) (same r.key) e)
            (check_requirements-transfer s t rs same (rw e at h))
    ]

-- The movement by itself moves no stock, so the check may come after it.
pub check_before :
    (s : Stock) (m : Movement) (rs : List Requirement)
    → m.id ≡ s.next_movement
    → All (λ i. i.movement_id < s.next_movement) s.items
    → check_requirements rs (insert_movement m s) ≡ ok (tt, insert_movement m s)
    → check_requirements rs s ≡ ok (tt, s)
check_before s m rs id known h =
    check_requirements-transfer s (insert_movement m s) rs
      (λ k.
        sum_deltas-same s (insert_movement m s) k s.items
          (All-map _ _ s.items (λ i lt. old_direction s m [] id tt i.movement_id lt) known))
      h

-- What the service call leaves.
pub insert_source_movement-result :
    (clock : Clock) (type : MovementType) (reference : ReferenceType) (n by : ℕ) (m : Movement)
    (s s' : Stock)
    → insert_source_movement clock type reference n by s ≡ ok (m, s')
    → (m ≡ source_movement clock type reference n by s) × (s' ≡ insert_movement m s)
insert_source_movement-result clock type reference n by m s s' h = ground arith
