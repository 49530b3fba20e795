-- ===== src/Bom/Items.antt =====
-- The components of a version of a bill of materials: `addItem`, `updateItem` and `deleteItem` of
-- src/modules/bom/services/bom.service.ts.
use backend_erp.Prelude.{
  ℕ, suc, ◌+◌, ◌*◌, ◌/◌, ◌==◌, Bool, false, not, ◌&&◌, Option, none, some, List, ◌∷◌, select_where,
  take_first, exists_where, update_where,
}
use backend_erp.Database.{
  Failure, ok, err, Action, not_found, conflict, bad_request, check_violation,
  foreign_key_violation, Reading, same_value, ◌>>=◌, ◌>>◌, pure, gets, or_throw, throw_if, modify,
}
use backend_erp.Bom.Schema.{BomItem, Boms, find_item, find_version, is_active}
use backend_erp.Bom.Versions.{is_active_variant, set_or_keep}

pub record BomItemDto : Type 0 where
  pub parent_item_id : Option ℕ
  pub variant_id : ℕ
  pub quantity : ℕ
  pub uom_id : ℕ
  pub scrap_pct : Option ℕ
  pub is_phantom : Option Bool
  pub sequence : Option ℕ

-- `quantity * (1 + scrap_pct / 100)`, rounded to the four digits of the column
abbrev pub with_scrap : ℕ → ℕ → ℕ
with_scrap quantity scrap_pct = (quantity * (10000 + scrap_pct) + 5000) / 10000

abbrev pub is_in_version : ℕ → ℕ → BomItem → Bool
is_in_version version_id item_id i = i.id == item_id && i.bom_version_id == version_id

-- `level`, with the checks of the parent
abbrev pub level_under : Reading → ℕ → ℕ → Option ℕ → Action Boms ℕ
level_under reading version_id variant_id none = pure 0
level_under reading version_id variant_id (some parent_id) = do
  parent ←
      or_throw (← gets (λ s. take_first (is_in_version version_id parent_id) s.items)) not_found
  throw_if (same_value reading parent.variant_id variant_id) bad_request
  pure (suc parent.level)

abbrev pub new_bom_item : ℕ → BomItemDto → ℕ → Boms → BomItem
new_bom_item version_id dto level s = record {
  id = s.next_item;
  bom_version_id = version_id;
  parent_item_id = dto.parent_item_id;
  variant_id = dto.variant_id;
  is_phantom = set_or_keep dto.is_phantom false;
  quantity = dto.quantity;
  uom_id = dto.uom_id;
  scrap_pct = set_or_keep dto.scrap_pct 0;
  quantity_with_scrap = with_scrap dto.quantity (set_or_keep dto.scrap_pct 0);
  level = level;
  sequence = set_or_keep dto.sequence 0;
}

abbrev pub insert_bom_item : BomItem → Boms → Boms
insert_bom_item i s = record s { items = i ∷ s.items; next_item = suc s.next_item }

-- the insertion, with the constraints that no check has looked at
abbrev pub insert_new_item : ℕ → BomItemDto → ℕ → Action Boms BomItem
insert_new_item version_id dto level = do
  throw_if (dto.quantity == 0) check_violation
  throw_if (not (← gets (λ s. exists_where (λ u. u == dto.uom_id) s.uoms))) foreign_key_violation
  item ← gets (new_bom_item version_id dto level)
  modify (insert_bom_item item)
  pure item

-- `addItem`
unfoldable pub add_item : Reading → ℕ → BomItemDto → Action Boms BomItem
add_item reading version_id dto = do
  version ← or_throw (← gets (λ s. find_version version_id s.versions)) not_found
  throw_if (is_active version.status) conflict
  level ← level_under reading version_id dto.variant_id dto.parent_item_id
  or_throw (← gets (λ s. take_first (is_active_variant dto.variant_id) s.variants)) not_found
  insert_new_item version_id dto level

pub record UpdateItemDto : Type 0 where
  pub quantity : Option ℕ
  pub uom_id : Option ℕ
  pub scrap_pct : Option ℕ
  pub is_phantom : Option Bool
  pub sequence : Option ℕ

abbrev pub with_updates : UpdateItemDto → BomItem → BomItem
with_updates dto i = record i {
  quantity = set_or_keep dto.quantity i.quantity;
  uom_id = set_or_keep dto.uom_id i.uom_id;
  scrap_pct = set_or_keep dto.scrap_pct i.scrap_pct;
  is_phantom = set_or_keep dto.is_phantom i.is_phantom;
  sequence = set_or_keep dto.sequence i.sequence;
  quantity_with_scrap =
      with_scrap (set_or_keep dto.quantity i.quantity) (set_or_keep dto.scrap_pct i.scrap_pct);
}

abbrev pub is_unknown_uom : List ℕ → Option ℕ → Bool
is_unknown_uom uoms none = false
is_unknown_uom uoms (some u) = not (exists_where (λ v. v == u) uoms)

-- an item that can be changed: it exists, and its version is not active
abbrev pub check_editable : ℕ → Action Boms (Unit {0})
check_editable item_id = do
  item ← or_throw (← gets (λ s. find_item item_id s.items)) not_found
  version ← or_throw (← gets (λ s. find_version item.bom_version_id s.versions)) not_found
  throw_if (is_active version.status) conflict

-- `updateItem`
unfoldable pub update_item : ℕ → UpdateItemDto → Action Boms (Unit {0})
update_item item_id dto = do
  check_editable item_id
  throw_if (set_or_keep dto.quantity 1 == 0) check_violation
  throw_if (← gets (λ s. is_unknown_uom s.uoms dto.uom_id)) foreign_key_violation
  modify (λ s. record s { items = update_where (λ i. i.id == item_id) (with_updates dto) s.items })

abbrev pub is_child_of : ℕ → BomItem → Bool
is_child_of item_id i = elim i.parent_item_id [ none ↦ false | some p ↦ p == item_id ]

-- The row stays and refers to a row that goes.
abbrev pub is_left_behind : (BomItem → Bool) → List BomItem → BomItem → Bool
is_left_behind gone items i = not (gone i) && exists_where (λ d. gone d && is_child_of d.id i) items

abbrev pub is_used : (BomItem → Bool) → List BomItem → ℕ → Bool
is_used gone items used = exists_where (λ d. gone d && d.id == used) items

-- `DELETE FROM bom_items WHERE …`, with the foreign keys that refer to the rows
abbrev pub delete_items : (BomItem → Bool) → Action Boms (Unit {0})
delete_items gone = do
  throw_if (← gets (λ s. exists_where (is_left_behind gone s.items) s.items)) foreign_key_violation
  throw_if (← gets (λ s. exists_where (is_used gone s.items) s.used_items)) foreign_key_violation
  modify (λ s. record s { items = select_where (λ i. not (gone i)) s.items })

-- A statement outside a transaction: if it fails, what was done before it stays.
abbrev pub attempt : {S : Type 0} → Action S (Unit {0}) → Action S (Option Failure)
attempt m s = elim (m s) [ ok r ↦ ok (none, r.1) | err e ↦ ok (some e, s) ]

-- `deleteItem`: it gives the failure of its second statement, after which the first one stays
unfoldable pub delete_item : ℕ → Action Boms (Option Failure)
delete_item item_id = do
  check_editable item_id
  delete_items (is_child_of item_id)
  attempt (delete_items (λ i. i.id == item_id))
