-- ===== src/Inventory/Tests.antt =====
-- Runs of the inventory services on a small stock, and the theorems at concrete inputs.
use backend_erp.Prelude.{
  ℕ, ◌*◌, ◌<◌, ◌≡◌, refl, ◌⊎◌, true, Option, none, some, List, [], ◌∷◌, arith, All, select_where,
}
use backend_erp.Prelude.Int.{pos, ◌+ℤ◌, ◌-ℤ◌}
use backend_erp.Database.{Result, ok, err}
use backend_erp.Accounting.Schema.{Clock, ms_per_day}
use backend_erp.Inventory.Schema.{
  MovementStatus, Movement, in_, out, transfer, MovementType, Opname, Key, Stock, find_type,
}
use backend_erp.Inventory.OnHand.{stock_on_hand, refresh_stock_summary, direction_of}
use backend_erp.Inventory.Movements.{items_of, MovementDto, create, confirm, new_movement}
use backend_erp.Inventory.Summary.{quantity_at, IsProper, refresh-stock_on_hand}
use backend_erp.Inventory.Final.{IsFinal, Reach-IsFinal}
use backend_erp.Inventory.Reach.{
  IsStocked, Step, Reach, here, next, created, confirmed, Reach-IsStocked,
}
use backend_erp.Inventory.Adjustments.{is_surplus, is_shortage, adjustment_in, adjustment_out}
use backend_erp.Inventory.Issues.{find_code}
use backend_erp.Inventory.Opnames.{
  CountDto, CreateOpnameDto, differences_of, set_counts, find_opname, create_opname,
  adjust_and_complete, complete,
}
use backend_erp.Inventory.Opnames.Adjusts.{total_difference}
use backend_erp.Inventory.Opnames.Completes.{complete-adjusts, complete_mixed}

abbrev type_in : MovementType
type_in = record { id = 1; code = 4; direction = in_ }

abbrev type_out : MovementType
type_out = record { id = 2; code = 8; direction = out }

abbrev type_transfer : MovementType
type_transfer = record { id = 3; code = 9; direction = transfer }

abbrev empty_stock : Stock
empty_stock = record {
  types = type_in ∷ type_out ∷ type_transfer ∷ [];
  variants = record { id = 1; is_active = true; base_uom_id = 1 } ∷ [];
  uoms = 1 ∷ [];
  warehouses = record { id = 1; is_active = true } ∷ record { id = 2; is_active = true } ∷ [];
  batches = [];
  movements = [];
  items = [];
  summary = [];
  opnames = [];
  opname_items = [];
  next_movement = 1;
  next_opname = 1;
  next_opname_item = 1;
}

abbrev clock : Clock
clock = record { now = 3 * ms_per_day; year = 2026 }

abbrev dto_of : ℕ → Option ℕ → Option ℕ → ℕ → MovementDto
dto_of code from to quantity = record {
  movement_type_code = code;
  movement_date = none;
  items =
      record {
        variant_id = 1;
        batch_id = none;
        from_warehouse_id = from;
        to_warehouse_id = to;
        quantity = quantity;
        uom_id = 1;
        unit_cost = none;
      }
      ∷ [];
}

abbrev receipt : MovementDto
receipt = dto_of 4 none (some 1) 10

abbrev move : MovementDto
move = dto_of 9 (some 1) (some 2) 4

abbrev after : {A : Type 0} → Result (A × Stock) → Stock
after (ok r) = r.1
after (err _) = empty_stock

abbrev received : Stock
received = after (create clock receipt 1 empty_stock)

abbrev in_stock : Stock
in_stock = after (confirm 1 1 received)

abbrev planned : Stock
planned = after (create clock move 1 in_stock)

abbrev moved : Stock
moved = after (confirm 2 1 planned)

receipt_created :
    create clock receipt 1 empty_stock
    ≡ ok (new_movement clock receipt type_in 1 empty_stock, received)
unfolding create
receipt_created = refl

receipt_confirmed : confirm 1 1 received ≡ ok (tt, in_stock)
unfolding create confirm
receipt_confirmed = refl

move_created :
    create clock move 1 in_stock ≡ ok (new_movement clock move type_transfer 1 in_stock, planned)
unfolding create confirm
move_created = refl

move_confirmed : confirm 2 1 planned ≡ ok (tt, moved)
unfolding create confirm ◌+ℤ◌
move_confirmed = refl

empty_stock-IsStocked : IsStocked empty_stock
empty_stock-IsStocked = record {
  levels = λ k real. omega arith;
  current = refl;
  known = tt;
  real = tt;
  real_batches = tt;
}

abbrev receipt-Step : Step empty_stock received
receipt-Step =
    created clock receipt 1 (new_movement clock receipt type_in 1 empty_stock) receipt_created

abbrev move-Step : Step in_stock planned
move-Step = created clock move 1 (new_movement clock move type_transfer 1 in_stock) move_created

moved-Reach : Reach empty_stock moved
moved-Reach =
    next (next (next (next here receipt-Step) (confirmed 1 1 receipt_confirmed)) move-Step)
      (confirmed 2 1 move_confirmed)

Reach-IsStocked_example : IsStocked moved
Reach-IsStocked_example = Reach-IsStocked empty_stock moved moved-Reach empty_stock-IsStocked

abbrev key_in : ℕ → Key
key_in warehouse_id = record { variant_id = 1; warehouse_id = warehouse_id; batch_id = none }

moved-IsProper :
    All (λ i. direction_of moved i.movement_id ≡ some transfer → IsProper i) moved.items
unfolding create confirm ◌+ℤ◌
moved-IsProper = (λ _. refl, (λ _. refl, tt))

moved_levels : (stock_on_hand (key_in 1) moved ≡ pos 6) × (stock_on_hand (key_in 2) moved ≡ pos 4)
unfolding create confirm ◌+ℤ◌ ◌-ℤ◌
moved_levels = (refl, refl)

refresh-stock_on_hand_example :
    quantity_at (key_in 2) (refresh_stock_summary moved).summary ≡ stock_on_hand (key_in 2) moved
refresh-stock_on_hand_example = refresh-stock_on_hand moved (key_in 2) moved-IsProper

abbrev opname_dto : CreateOpnameDto
opname_dto = record { warehouse_id = 1; opname_date = none }

abbrev counting : Stock
counting = after (create_opname clock opname_dto 1 in_stock)

-- three units are missing
abbrev counts : List CountDto
counts = record { item_id = 1; actual_quantity = 7 } ∷ []

abbrev counted : Stock
counted = after (complete clock 1 counts 1 counting)

counted_completed : complete clock 1 counts 1 counting ≡ ok (tt, counted)
unfolding create confirm create_opname complete adjust_and_complete ◌+ℤ◌ ◌-ℤ◌
counted_completed = refl

counting_types :
    (find_code adjustment_in counting ≡ some type_in)
    × (find_code adjustment_out counting ≡ some type_out)
    × (find_type 1 counting.types ≡ some type_in)
    × (find_type 2 counting.types ≡ some type_out)
unfolding create confirm create_opname ◌+ℤ◌ ◌-ℤ◌
counting_types = (refl, refl, refl, refl)

counting-known : All (λ i. i.movement_id < counting.next_movement) counting.items
unfolding create confirm create_opname ◌+ℤ◌ ◌-ℤ◌
counting-known = (omega arith, tt)

complete-adjusts_example :
    (o : Opname) × (find_opname 1 counting.opnames ≡ some o)
    × (stock_on_hand (key_in 1) counted
        ≡ stock_on_hand (key_in 1) counting
          +ℤ total_difference o.warehouse_id
              (key_in 1)
              (differences_of 1 (set_counts 1 counts counting)))
complete-adjusts_example =
    complete-adjusts clock 1 1 counts counting counted type_in type_out counting_types.0
      counting_types.1 (key_in 1) counted_completed counting_types.2 counting_types.3 refl refl
      counting-known

counted_level : stock_on_hand (key_in 1) counted ≡ pos 7
unfolding create confirm create_opname complete adjust_and_complete ◌+ℤ◌ ◌-ℤ◌
counted_level = refl

complete_mixed_example :
    (select_where is_surplus (differences_of 1 (set_counts 1 counts counting)) ≡ [])
    ⊎ (select_where is_shortage (differences_of 1 (set_counts 1 counts counting)) ≡ [])
complete_mixed_example =
    complete_mixed clock 1 1 counts counting counted type_in type_out counting_types.0
      counting_types.1 counted_completed

abbrev receipt_row : Movement
receipt_row = record (new_movement clock receipt type_in 1 empty_stock) {
  status = MovementStatus.confirmed;
  confirmed_by = some 1;
}

receipt-IsFinal : IsFinal 1 receipt_row (items_of 1 in_stock) in_stock
unfolding create confirm
receipt-IsFinal = (refl, refl, refl, omega arith)

Reach-IsFinal_example : IsFinal 1 receipt_row (items_of 1 in_stock) moved
Reach-IsFinal_example =
    Reach-IsFinal 1 receipt_row (items_of 1 in_stock) in_stock moved
      (next (next here move-Step) (confirmed 2 1 move_confirmed)) receipt-IsFinal
