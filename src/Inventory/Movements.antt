-- ===== src/Inventory/Movements.antt =====
-- src/modules/inventory/services/inventory-movement.service.ts: creating, confirming and cancelling
-- a movement of stock.
use backend_erp.Prelude.{
  ℕ, suc, ◌+◌, ◌/◌, ◌==◌, if◌then◌else◌, Bool, true, false, not, ◌&&◌, ◌||◌, Option, none, some,
  List, [], ◌∷◌, ◌++◌, map, select_where, take_first, exists_where, update_where,
}
use backend_erp.Prelude.Int.{pos, ltb_ℤ}
use backend_erp.Database.{
  Action, not_found, conflict, bad_request, check_violation, foreign_key_violation, ◌>>=◌, ◌>>◌,
  pure, gets, or_throw, throw_if, modify,
}
use backend_erp.Accounting.Schema.{Clock, ms_per_day}
use backend_erp.Inventory.Schema.{
  Direction, in_, out, transfer, MovementStatus, MovementType, Movement, Item, Variant, Key, Stock,
  find_movement, find_type,
}
use backend_erp.Inventory.OnHand.{stock_on_hand, key_at, refresh_stock_summary}

pub record ItemDto : Type 0 where
  pub variant_id : ℕ
  pub batch_id : Option ℕ
  pub from_warehouse_id : Option ℕ
  pub to_warehouse_id : Option ℕ
  pub quantity : ℕ
  pub uom_id : ℕ
  pub unit_cost : Option ℕ

-- `movement_date` is a time.
pub record MovementDto : Type 0 where
  pub movement_type_code : ℕ
  pub movement_date : Option ℕ
  pub items : List ItemDto

abbrev pub is_set : Option ℕ → Bool
is_set none = false
is_set (some _) = true

abbrev pub same_warehouse : Option ℕ → Option ℕ → Bool
same_warehouse (some v) (some w) = v == w
same_warehouse _ _ = false

-- the warehouses that the direction asks for
abbrev pub has_bad_warehouses : Direction → ItemDto → Bool
has_bad_warehouses in_ i = not (is_set i.to_warehouse_id)
has_bad_warehouses out i = not (is_set i.from_warehouse_id)
has_bad_warehouses transfer i =
    not (is_set i.from_warehouse_id && is_set i.to_warehouse_id)
    || same_warehouse i.from_warehouse_id i.to_warehouse_id

abbrev is_active_variant : ℕ → Variant → Bool
is_active_variant variant_id v = v.id == variant_id && v.is_active

-- `validateMovementItems`
abbrev pub validate_movement_items : Direction → List ItemDto → Action Stock (Unit {0})
validate_movement_items direction [] = pure tt
validate_movement_items direction (i ∷ is) = do
  or_throw (← gets (λ s. take_first (is_active_variant i.variant_id) s.variants)) not_found
  throw_if (has_bad_warehouses direction i) bad_request
  throw_if (not (← gets (λ s. exists_where (λ u. u == i.uom_id) s.uoms))) not_found
  validate_movement_items direction is

abbrev pub is_empty : List ItemDto → Bool
is_empty [] = true
is_empty (_ ∷ _) = false

abbrev amount_or_zero : Option ℕ → ℕ
amount_or_zero none = 0
amount_or_zero (some n) = n

abbrev pub day_of : Clock → Option ℕ → ℕ
day_of clock none = clock.now / ms_per_day
day_of clock (some t) = t / ms_per_day

abbrev pub new_movement : Clock → MovementDto → MovementType → ℕ → Stock → Movement
new_movement clock dto type created_by s = record {
  id = s.next_movement;
  movement_type_id = type.id;
  reference_type = none;
  reference_id = none;
  movement_date = day_of clock dto.movement_date;
  status = MovementStatus.draft;
  created_by = created_by;
  confirmed_by = none;
  cancelled_by = none;
}

abbrev pub insert_movement : Movement → Stock → Stock
insert_movement m s = record s { movements = m ∷ s.movements; next_movement = suc s.next_movement }

abbrev pub new_item : ℕ → ItemDto → Item
new_item movement_id i = record {
  movement_id = movement_id;
  variant_id = i.variant_id;
  batch_id = i.batch_id;
  from_warehouse_id = i.from_warehouse_id;
  to_warehouse_id = i.to_warehouse_id;
  quantity = i.quantity;
  uom_id = i.uom_id;
  unit_cost = amount_or_zero i.unit_cost;
}

abbrev pub insert_items : List Item → Stock → Stock
insert_items is s = record s { items = is ++ s.items }

-- a foreign key that is set refers to a row
abbrev pub is_unknown : List ℕ → Option ℕ → Bool
is_unknown ids none = false
is_unknown ids (some n) = not (exists_where (λ m. m == n) ids)

abbrev pub warehouse_ids : Stock → List ℕ
warehouse_ids s = map (λ w. w.id) s.warehouses

-- the foreign keys of a row that its validation has not looked at
abbrev pub has_unknown_reference : Stock → ItemDto → Bool
has_unknown_reference s i =
    is_unknown s.batches i.batch_id
    || (is_unknown (warehouse_ids s) i.from_warehouse_id
        || is_unknown (warehouse_ids s) i.to_warehouse_id)

-- `create`
unfoldable pub create : Clock → MovementDto → ℕ → Action Stock Movement
create clock dto created_by = do
  type ←
      or_throw (← gets (λ s. take_first (λ t. t.code == dto.movement_type_code) s.types)) not_found
  throw_if (is_empty dto.items) bad_request
  validate_movement_items type.direction dto.items
  movement ← gets (new_movement clock dto type created_by)
  modify (insert_movement movement)
  throw_if (exists_where (λ i. i.quantity == 0) dto.items) check_violation
  throw_if (← gets (λ s. exists_where (has_unknown_reference s) dto.items)) foreign_key_violation
  modify (insert_items (map (new_item movement.id) dto.items))
  pure movement

-- a value of the Map `requirements`
pub record Requirement : Type 0 where
  pub key : Key
  pub quantity : ℕ

-- `batch_id ?? 0`
abbrev pub batch_number : Option ℕ → ℕ
batch_number none = 0
batch_number (some n) = n

-- the texts of the keys are the same (`keyString`)
abbrev pub same_text : Key → Key → Bool
same_text j k =
    (j.variant_id == k.variant_id && j.warehouse_id == k.warehouse_id)
    && batch_number j.batch_id == batch_number k.batch_id

abbrev pub add_requirement : Key → ℕ → List Requirement → List Requirement
add_requirement k n [] = record { key = k; quantity = n } ∷ []
add_requirement k n (r ∷ rs) =
    if same_text r.key k
    then record r { quantity = r.quantity + n } ∷ rs
    else r ∷ add_requirement k n rs

abbrev pub require_from : Item → Option ℕ → List Requirement → List Requirement
require_from i none rs = rs
require_from i (some w) rs = add_requirement (key_at i w) i.quantity rs

-- the loop that fills the Map; the query that it goes over asks for no order
abbrev pub requirements_of : List Item → List Requirement
requirements_of [] = []
requirements_of (i ∷ is) = require_from i i.from_warehouse_id (requirements_of is)

-- the loop over the Map
abbrev pub check_requirements : List Requirement → Action Stock (Unit {0})
check_requirements [] = pure tt
check_requirements (r ∷ rs) = do
  throw_if (ltb_ℤ (← gets (stock_on_hand r.key)) (pos r.quantity)) bad_request
  check_requirements rs

abbrev pub items_of : ℕ → Stock → List Item
items_of movement_id s = select_where (λ i. i.movement_id == movement_id) s.items

-- `validateSufficientStock`; the locks make calls on one key run one after another
abbrev pub validate_sufficient_stock : ℕ → Action Stock (Unit {0})
validate_sufficient_stock movement_id = do
  items ← gets (items_of movement_id)
  check_requirements (requirements_of items)

abbrev pub is_draft : MovementStatus → Bool
is_draft MovementStatus.draft = true
is_draft _ = false

abbrev pub takes_stock : Direction → Bool
takes_stock in_ = false
takes_stock _ = true

abbrev pub as_confirmed : ℕ → Movement → Movement
as_confirmed confirmed_by m = record m {
  status = MovementStatus.confirmed;
  confirmed_by = some confirmed_by;
}

abbrev pub set_confirmed : ℕ → ℕ → Stock → Stock
set_confirmed movement_id confirmed_by s = record s {
  movements = update_where (λ m. m.id == movement_id) (as_confirmed confirmed_by) s.movements;
}

abbrev pub check_stock : Direction → ℕ → Action Stock (Unit {0})
check_stock direction movement_id =
    if takes_stock direction then validate_sufficient_stock movement_id else pure tt

-- `confirm`
unfoldable pub confirm : ℕ → ℕ → Action Stock (Unit {0})
confirm movement_id confirmed_by = do
  movement ← or_throw (← gets (λ s. find_movement movement_id s.movements)) not_found
  type ← or_throw (← gets (λ s. find_type movement.movement_type_id s.types)) not_found
  throw_if (not (is_draft movement.status)) conflict
  check_stock type.direction movement_id
  modify (set_confirmed movement_id confirmed_by)
  modify refresh_stock_summary

abbrev pub is_open : MovementStatus → Bool
is_open MovementStatus.draft = true
is_open _ = false

abbrev pub as_cancelled : ℕ → Movement → Movement
as_cancelled cancelled_by m = record m {
  status = MovementStatus.cancelled;
  cancelled_by = some cancelled_by;
}

abbrev pub is_open_movement : ℕ → Movement → Bool
is_open_movement movement_id m = m.id == movement_id && is_open m.status

-- `cancel`
unfoldable pub cancel : ℕ → ℕ → Action Stock (Unit {0})
cancel movement_id cancelled_by = do
  movement ← or_throw (← gets (λ s. find_movement movement_id s.movements)) not_found
  throw_if (not (is_open movement.status)) conflict
  modify (λ s. record s {
    movements = update_where (is_open_movement movement_id) (as_cancelled cancelled_by) s.movements;
  })
