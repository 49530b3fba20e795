-- ===== src/Bom/Schema.antt =====
-- The tables of bills of materials (src/database/migrations/tenant/006_create_bom.sql and
-- src/types/database.types.ts) and the masters that they refer to, the newest row first.
--
-- A quantity counts ten-thousandths, a percentage hundredths. A version's name stands for its text.
-- The names of headers, notes and times of writing are left out: nothing is computed from them.
use backend_erp.Prelude.{ℕ, ◌==◌, Bool, true, false, Option, List, take_first}
use backend_erp.Inventory.Schema.{Variant}

pub data VersionStatus : Type 0 where
  draft active obsolete : VersionStatus

pub data ByProductType : Type 0 where
  by_product scrap co_product : ByProductType

pub record Header : Type 0 where
  pub id : ℕ
  pub variant_id : ℕ
  pub is_active : Bool
  pub created_by : ℕ

pub record Version : Type 0 where
  pub id : ℕ
  pub bom_header_id : ℕ
  pub version_number : ℕ
  pub version_name : Option ℕ
  pub status : VersionStatus
  pub output_quantity : ℕ
  pub output_uom_id : ℕ
  pub effective_from : ℕ
  pub effective_to : Option ℕ
  pub created_by : ℕ
  pub approved_by : Option ℕ

pub record BomItem : Type 0 where
  pub id : ℕ
  pub bom_version_id : ℕ
  pub parent_item_id : Option ℕ
  pub variant_id : ℕ
  pub is_phantom : Bool
  pub quantity : ℕ
  pub uom_id : ℕ
  pub scrap_pct : ℕ
  pub quantity_with_scrap : ℕ
  pub level : ℕ
  pub sequence : ℕ

-- `duration_minutes` counts hundredths.
pub record Operation : Type 0 where
  pub id : ℕ
  pub bom_version_id : ℕ
  pub sequence : ℕ
  pub duration_minutes : ℕ
  pub cost_per_minute : ℕ

pub record ByProduct : Type 0 where
  pub id : ℕ
  pub bom_version_id : ℕ
  pub variant_id : ℕ
  pub quantity : ℕ
  pub uom_id : ℕ
  pub type : ByProductType
  pub cost_share_pct : ℕ

-- `used_items` are the items that the materials of work orders refer to (the column bom_item_id).
pub record Boms : Type 0 where
  pub variants : List Variant
  pub uoms : List ℕ
  pub used_items : List ℕ
  pub headers : List Header
  pub versions : List Version
  pub items : List BomItem
  pub operations : List Operation
  pub by_products : List ByProduct
  pub next_header : ℕ
  pub next_version : ℕ
  pub next_item : ℕ
  pub next_operation : ℕ
  pub next_by_product : ℕ

abbrev pub find_header : ℕ → List Header → Option Header
find_header header_id = take_first (λ h. h.id == header_id)

-- `getVersionOrThrow`, less the exception
abbrev pub find_version : ℕ → List Version → Option Version
find_version version_id = take_first (λ v. v.id == version_id)

abbrev pub find_item : ℕ → List BomItem → Option BomItem
find_item item_id = take_first (λ i. i.id == item_id)

abbrev pub is_active : VersionStatus → Bool
is_active VersionStatus.active = true
is_active _ = false

abbrev pub is_obsolete : VersionStatus → Bool
is_obsolete VersionStatus.obsolete = true
is_obsolete _ = false
