-- ===== src/Inventory/Issues.antt =====
-- A movement that another service writes for a document of its own (a delivery order, a goods
-- receipt): the header is inserted as confirmed, and its items after it.
use backend_erp.Prelude.{ℕ, ◌/◌, ◌==◌, ◌&&◌, Bool, Option, none, some, exists_where, take_first}
use backend_erp.Database.{
  Action, unique_violation, inventory_movement_source_document, ◌>>=◌, ◌>>◌, pure, gets, throw_if,
  modify,
}
use backend_erp.Accounting.Schema.{Clock, ReferenceType, ms_per_day, same_reference, same_id}
use backend_erp.Inventory.Schema.{MovementStatus, MovementType, Movement, Stock}
use backend_erp.Inventory.Movements.{insert_movement}

abbrev pub source_movement : Clock → MovementType → ReferenceType → ℕ → ℕ → Stock → Movement
source_movement clock type reference id created_by s = record {
  id = s.next_movement;
  movement_type_id = type.id;
  reference_type = some reference;
  reference_id = some id;
  movement_date = clock.now / ms_per_day;
  status = MovementStatus.confirmed;
  created_by = created_by;
  confirmed_by = some created_by;
  cancelled_by = none;
}

-- uq_inventory_movement_source_document
abbrev pub is_for_document : ReferenceType → ℕ → Movement → Bool
is_for_document reference id m =
    same_reference m.reference_type (some reference) && same_id m.reference_id (some id)

-- the header, with the unique index on its reference
abbrev pub insert_source_movement :
    Clock → MovementType → ReferenceType → ℕ → ℕ → Action Stock Movement
insert_source_movement clock type reference id created_by = do
  movement ← gets (source_movement clock type reference id created_by)
  throw_if (← gets (λ s. exists_where (is_for_document reference id) s.movements))
      (unique_violation inventory_movement_source_document)
  modify (insert_movement movement)
  pure movement

-- the type with a code
abbrev pub find_code : ℕ → Stock → Option MovementType
find_code code s = take_first (λ t. t.code == code) s.types
