-- ===== src/Inventory/Schema.antt =====
-- The tables of inventory (src/database/migrations/tenant/003_create_inventory.sql and
-- src/types/database.types.ts) and the masters that they refer to, the newest row first.
--
-- A quantity counts ten-thousandths. Of a product variant there is what the inventory services
-- read: whether it is active, and the base unit of its product. Storage locations within a
-- warehouse are left out: nothing is computed from them.
use backend_erp.Prelude.{ℕ, ◌==◌, Bool, true, false, Option, none, some, List, take_first}
use backend_erp.Prelude.Int.{ℤ}
use backend_erp.Accounting.Schema.{ReferenceType}

pub data Direction : Type 0 where
  in_ out transfer : Direction

pub data MovementStatus : Type 0 where
  draft confirmed cancelled : MovementStatus

pub data OpnameStatus : Type 0 where
  draft counting completed cancelled : OpnameStatus

-- `code` stands for the text of the code.
pub record MovementType : Type 0 where
  pub id : ℕ
  pub code : ℕ
  pub direction : Direction

pub record Variant : Type 0 where
  pub id : ℕ
  pub is_active : Bool
  pub base_uom_id : ℕ

pub record Warehouse : Type 0 where
  pub id : ℕ
  pub is_active : Bool

pub record Movement : Type 0 where
  pub id : ℕ
  pub movement_type_id : ℕ
  pub reference_type : Option ReferenceType
  pub reference_id : Option ℕ
  pub movement_date : ℕ
  pub status : MovementStatus
  pub created_by : ℕ
  pub confirmed_by : Option ℕ
  pub cancelled_by : Option ℕ

pub record Item : Type 0 where
  pub movement_id : ℕ
  pub variant_id : ℕ
  pub batch_id : Option ℕ
  pub from_warehouse_id : Option ℕ
  pub to_warehouse_id : Option ℕ
  pub quantity : ℕ
  pub uom_id : ℕ
  pub unit_cost : ℕ

pub record Opname : Type 0 where
  pub id : ℕ
  pub warehouse_id : ℕ
  pub opname_date : ℕ
  pub status : OpnameStatus
  pub created_by : ℕ
  pub completed_by : Option ℕ

pub record OpnameItem : Type 0 where
  pub id : ℕ
  pub opname_id : ℕ
  pub variant_id : ℕ
  pub batch_id : Option ℕ
  pub system_quantity : ℤ
  pub actual_quantity : Option ℕ

-- `StockKey`
pub record Key : Type 0 where
  pub variant_id : ℕ
  pub warehouse_id : ℕ
  pub batch_id : Option ℕ

-- a row of stock_summary
pub record SummaryRow : Type 0 where
  pub key : Key
  pub quantity_on_hand : ℤ

-- `summary` is the contents of the materialized view, as of its last refresh.
pub record Stock : Type 0 where
  pub types : List MovementType
  pub variants : List Variant
  pub uoms : List ℕ
  pub warehouses : List Warehouse
  pub batches : List ℕ
  pub movements : List Movement
  pub items : List Item
  pub summary : List SummaryRow
  pub opnames : List Opname
  pub opname_items : List OpnameItem
  pub next_movement : ℕ
  pub next_opname : ℕ
  pub next_opname_item : ℕ

abbrev pub find_movement : ℕ → List Movement → Option Movement
find_movement movement_id = take_first (λ m. m.id == movement_id)

abbrev pub find_type : ℕ → List MovementType → Option MovementType
find_type type_id = take_first (λ t. t.id == type_id)

abbrev pub is_confirmed : MovementStatus → Bool
is_confirmed MovementStatus.confirmed = true
is_confirmed _ = false

-- `batch_id IS NULL` or `batch_id = …`
abbrev pub same_batch : Option ℕ → Option ℕ → Bool
same_batch none none = true
same_batch (some a) (some b) = a == b
same_batch _ _ = false

-- `a = b` in SQL, for a column that may be NULL
abbrev pub is_at : Option ℕ → ℕ → Bool
is_at none w = false
is_at (some v) w = v == w
