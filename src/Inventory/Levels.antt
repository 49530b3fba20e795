-- ===== src/Inventory/Levels.antt =====
-- How the stock on hand follows the status of the movements.
use backend_erp.Prelude.{
  ℕ, ◌==◌, if◌then◌else◌, ◌≡◌, refl, inl, inr, true, false, none, some, List, [], ◌∷◌, arith,
  Bool-cases, Option-cases, All, select_where, update_where,
}
use backend_erp.Prelude.Int.{ℤ, pos, ◌+ℤ◌, ◌≤ℤ◌, int_laws}
use backend_erp.Inventory.Schema.{
  Direction, in_, out, transfer, Movement, MovementType, Item, Key, Stock, find_movement, find_type,
}
use backend_erp.Inventory.OnHand.{direction_in, direction_of, delta, sum_deltas, summary_of}
use backend_erp.Inventory.Movements.{
  as_confirmed, set_confirmed, is_draft, is_open_movement, as_cancelled,
}
use backend_erp.Inventory.Requirements.{taken_by, taken}

-- Stock and view read of the movements only the directions of the items.
abbrev pub SameDirections : Stock → Stock → List Item → Type 0
SameDirections s t = All (λ i. direction_of t i.movement_id ≡ direction_of s i.movement_id)

pub sum_deltas-same :
    (s t : Stock) (k : Key) (is : List Item)
    → SameDirections s t is
    → sum_deltas t k is ≡ sum_deltas s k is
sum_deltas-same s t k [] h = refl
sum_deltas-same s t k (i ∷ is) h = rw (h.0, sum_deltas-same s t k is h.1) refl

pub summary_of-same :
    (s t : Stock) (is : List Item) → SameDirections s t is → summary_of t is ≡ summary_of s is
summary_of-same s t [] h = refl
summary_of-same s t (i ∷ is) h = rw (h.0, summary_of-same s t is h.1) refl

-- What items of one direction add to the stock of a key.
abbrev pub sum_of_direction : Direction → Key → List Item → ℤ
sum_of_direction d k [] = pos 0
sum_of_direction d k (i ∷ is) = sum_of_direction d k is +ℤ delta (some d) k i

pub find_movement-confirmed :
    (n m by : ℕ) (ms : List Movement)
    → find_movement m (update_where (λ x. x.id == n) (as_confirmed by) ms)
      ≡ elim (find_movement m ms) [
        | none ↦ none
        | some x ↦ some (if x.id == n then as_confirmed by x else x)
      ]
find_movement-confirmed n m by [] = refl
find_movement-confirmed n m by (x ∷ ms) = ground (arith, find_movement-confirmed n m by ms)

pub find_movement-id :
    (n : ℕ) (ms : List Movement) (m : Movement) → find_movement n ms ≡ some m → m.id ≡ n
find_movement-id n [] m h = cc
find_movement-id n (x ∷ ms) m h = ground (arith, find_movement-id n ms m)

module _ (n by : ℕ) (m : Movement) (t : MovementType) (s : Stock)
    (found : find_movement n s.movements ≡ some m)
    (typed : find_type m.movement_type_id s.types ≡ some t)
    (drafted : is_draft m.status ≡ true) where
  before_confirm : direction_of s n ≡ none
  before_confirm = ground (arith, found, drafted)

  after_confirm : direction_of (set_confirmed n by s) n ≡ some t.direction
  after_confirm = ground (
    arith,
    found,
    typed,
    find_movement-id n s.movements m found,
    find_movement-confirmed n n by s.movements,
  )

  other_confirm :
      (k : ℕ) → (k == n) ≡ false → direction_of (set_confirmed n by s) k ≡ direction_of s k
  other_confirm k e = elim (Option-cases (find_movement k s.movements)) [
    | inl none_found ↦ ground (arith, none_found, find_movement-confirmed n k by s.movements)
    | inr (x, is_found) ↦ ground (
      arith,
      e,
      is_found,
      find_movement-id k s.movements x is_found,
      find_movement-confirmed n k by s.movements,
    )
  ]

  -- Confirming adds what the items of the movement add.
  pub sum_deltas-confirmed :
      (k : Key) (is : List Item)
      → sum_deltas (set_confirmed n by s) k is
        ≡ sum_deltas s k is
          +ℤ sum_of_direction t.direction k (select_where (λ i. i.movement_id == n) is)
  sum_deltas-confirmed k [] = omega int_laws
  sum_deltas-confirmed k (i ∷ is) = elim (Bool-cases (i.movement_id == n)) [
    | inl e ↦ grind (int_laws, sum_deltas-confirmed k is, before_confirm, after_confirm)
    | inr e ↦ rw e (grind (int_laws, sum_deltas-confirmed k is, other_confirm i.movement_id e))
  ]

-- An item takes no more from a key than the Map asks for it.
delta-bounded :
    (d : Direction) (k : Key) (i : Item)
    → pos 0 ≤ℤ delta (some d) k i +ℤ pos (taken_by k i i.from_warehouse_id)
delta-bounded in_ k i = grind int_laws
delta-bounded out k i = grind int_laws
delta-bounded transfer k i = grind int_laws

pub sum_of_direction-bounded :
    (d : Direction) (k : Key) (is : List Item)
    → pos 0 ≤ℤ sum_of_direction d k is +ℤ pos (taken k is)
sum_of_direction-bounded d k [] = omega int_laws
sum_of_direction-bounded d k (i ∷ is) =
    omega (int_laws, delta-bounded d k i, sum_of_direction-bounded d k is)

delta-in_ : (k : Key) (i : Item) → pos 0 ≤ℤ delta (some in_) k i
delta-in_ k i = ground arith

-- An inward item takes nothing.
pub sum_of_direction-in_ : (k : Key) (is : List Item) → pos 0 ≤ℤ sum_of_direction in_ k is
sum_of_direction-in_ k [] = omega int_laws
sum_of_direction-in_ k (i ∷ is) = omega (int_laws, delta-in_ k i, sum_of_direction-in_ k is)

pub find_movement-cancelled :
    (n k by : ℕ) (ms : List Movement)
    → find_movement k (update_where (is_open_movement n) (as_cancelled by) ms)
      ≡ elim (find_movement k ms) [
        | none ↦ none
        | some x ↦ some (if is_open_movement n x then as_cancelled by x else x)
      ]
find_movement-cancelled n k by [] = refl
find_movement-cancelled n k by (x ∷ ms) = ground (arith, find_movement-cancelled n k by ms)

direction_in-cancelled :
    (n by : ℕ) (x : Movement) (types : List MovementType)
    → direction_in (if is_open_movement n x then as_cancelled by x else x) types
      ≡ direction_in x types
direction_in-cancelled n by x types = ground arith

-- Cancelling moves no stock.
pub direction_of-cancelled :
    (n by k : ℕ) (s : Stock)
    → direction_of
        (record s { movements = update_where (is_open_movement n) (as_cancelled by) s.movements })
        k
      ≡ direction_of s k
direction_of-cancelled n by k s = elim (Option-cases (find_movement k s.movements)) [
  | inl e ↦ ground (arith, e, find_movement-cancelled n k by s.movements)
  | inr (x, e) ↦
      ground (
        arith,
        e,
        find_movement-cancelled n k by s.movements,
        direction_in-cancelled n by x s.types,
      )
]
