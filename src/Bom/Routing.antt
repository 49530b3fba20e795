-- ===== src/Bom/Routing.antt =====
-- The operations and by-products of a version: the last parts of
-- src/modules/bom/services/bom.service.ts.
use backend_erp.Prelude.{
  ℕ, suc, ◌==◌, not, Option, ◌∷◌, select_where, take_first, exists_where, update_where,
}
use backend_erp.Database.{
  Action, not_found, conflict, check_violation, foreign_key_violation, ◌>>=◌, ◌>>◌, pure, gets,
  or_throw, throw_if, modify,
}
use backend_erp.Bom.Schema.{Operation, ByProductType, ByProduct, Boms, find_version, is_active}
use backend_erp.Bom.Versions.{set_or_keep}

-- the version exists and is not active
abbrev pub check_open : ℕ → Action Boms (Unit {0})
check_open version_id = do
  version ← or_throw (← gets (λ s. find_version version_id s.versions)) not_found
  throw_if (is_active version.status) conflict

pub record OperationDto : Type 0 where
  pub sequence : ℕ
  pub duration_minutes : Option ℕ
  pub cost_per_minute : Option ℕ

abbrev pub new_operation : ℕ → OperationDto → Boms → Operation
new_operation version_id dto s = record {
  id = s.next_operation;
  bom_version_id = version_id;
  sequence = dto.sequence;
  duration_minutes = set_or_keep dto.duration_minutes 0;
  cost_per_minute = set_or_keep dto.cost_per_minute 0;
}

-- `addOperation`
unfoldable pub add_operation : ℕ → OperationDto → Action Boms Operation
add_operation version_id dto = do
  check_open version_id
  op ← gets (new_operation version_id dto)
  modify (λ s. record s { operations = op ∷ s.operations; next_operation = suc s.next_operation })
  pure op

pub record UpdateOperationDto : Type 0 where
  pub sequence : Option ℕ
  pub duration_minutes : Option ℕ
  pub cost_per_minute : Option ℕ

abbrev pub with_operation_updates : UpdateOperationDto → Operation → Operation
with_operation_updates dto op = record op {
  sequence = set_or_keep dto.sequence op.sequence;
  duration_minutes = set_or_keep dto.duration_minutes op.duration_minutes;
  cost_per_minute = set_or_keep dto.cost_per_minute op.cost_per_minute;
}

-- `updateOperation`
unfoldable pub update_operation : ℕ → UpdateOperationDto → Action Boms (Unit {0})
update_operation op_id dto = do
  op ← or_throw (← gets (λ s. take_first (λ o. o.id == op_id) s.operations)) not_found
  check_open op.bom_version_id
  modify (λ s. record s {
    operations = update_where (λ o. o.id == op_id) (with_operation_updates dto) s.operations;
  })

-- `deleteOperation`
unfoldable pub delete_operation : ℕ → Action Boms (Unit {0})
delete_operation op_id =
    modify (λ s. record s { operations = select_where (λ o. not (o.id == op_id)) s.operations })

pub record ByProductDto : Type 0 where
  pub variant_id : ℕ
  pub quantity : ℕ
  pub uom_id : ℕ
  pub type : ByProductType
  pub cost_share_pct : Option ℕ

abbrev pub new_by_product : ℕ → ByProductDto → Boms → ByProduct
new_by_product version_id dto s = record {
  id = s.next_by_product;
  bom_version_id = version_id;
  variant_id = dto.variant_id;
  quantity = dto.quantity;
  uom_id = dto.uom_id;
  type = dto.type;
  cost_share_pct = set_or_keep dto.cost_share_pct 0;
}

-- `addByProduct`, with the constraints of the table
unfoldable pub add_by_product : ℕ → ByProductDto → Action Boms ByProduct
add_by_product version_id dto = do
  check_open version_id
  throw_if (dto.quantity == 0) check_violation
  throw_if (not (← gets (λ s. exists_where (λ v. v.id == dto.variant_id) s.variants)))
      foreign_key_violation
  throw_if (not (← gets (λ s. exists_where (λ u. u == dto.uom_id) s.uoms))) foreign_key_violation
  bp ← gets (new_by_product version_id dto)
  modify
      (λ s. record s { by_products = bp ∷ s.by_products; next_by_product = suc s.next_by_product })
  pure bp

-- `deleteByProduct`
unfoldable pub delete_by_product : ℕ → Action Boms (Unit {0})
delete_by_product by_product_id =
    modify (λ s. record s {
      by_products = select_where (λ b. not (b.id == by_product_id)) s.by_products;
    })
