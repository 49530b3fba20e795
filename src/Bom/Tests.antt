-- ===== src/Bom/Tests.antt =====
-- A table of four tops with two versions of its bill of materials, and the theorems applied to it.
use backend_erp.Prelude.{ℕ, ◌≡◌, refl, true, false, none, some, [], ◌∷◌, arith}
use backend_erp.Database.{as_numbers, as_strings, ok, err, bad_request}
use backend_erp.Inventory.Schema.{Variant}
use backend_erp.Bom.Schema.{VersionStatus, Version, BomItem, Boms}
use backend_erp.Bom.Versions.{activate, activate_version, get_active_version_for_variant}
use backend_erp.Bom.Items.{BomItemDto, new_bom_item, insert_bom_item, add_item}
use backend_erp.Bom.Explosion.{Explosion, explode_bom}
use backend_erp.Bom.Forest.{IsForest}
use backend_erp.Bom.Reach.{IsSound, here, next, activated, added_item, Reach-IsSound}
use backend_erp.Bom.Frozen.{Step-Frozen}
use backend_erp.Bom.Explosion.Complete.{items_of_version, IsComplete, explode_bom-IsComplete}

abbrev variant : ℕ → Variant
variant n = record { id = n; is_active = true; base_uom_id = 1 }

abbrev version : ℕ → Version
version n = record {
  id = n;
  bom_header_id = 1;
  version_number = n;
  version_name = none;
  status = VersionStatus.draft;
  output_quantity = 20000;
  output_uom_id = 1;
  effective_from = 20000;
  effective_to = none;
  created_by = 3;
  approved_by = none;
}

abbrev top : BomItem
top = record {
  id = 1;
  bom_version_id = 1;
  parent_item_id = none;
  variant_id = 11;
  is_phantom = false;
  quantity = 10000;
  uom_id = 1;
  scrap_pct = 0;
  quantity_with_scrap = 10000;
  level = 0;
  sequence = 1;
}

abbrev leg : BomItem
leg = record top { id = 2; variant_id = 12; quantity = 40000; quantity_with_scrap = 40000 }

abbrev screw : BomItem
screw = record top {
  id = 3;
  parent_item_id = some 2;
  variant_id = 13;
  quantity = 80000;
  scrap_pct = 250;
  quantity_with_scrap = 82000;
  level = 1;
}

abbrev table : Boms
table = record {
  variants = variant 10 ∷ variant 11 ∷ variant 12 ∷ variant 13 ∷ [];
  uoms = 1 ∷ [];
  used_items = [];
  headers = record { id = 1; variant_id = 10; is_active = true; created_by = 3 } ∷ [];
  versions = version 2 ∷ version 1 ∷ [];
  items = screw ∷ leg ∷ top ∷ [];
  operations = [];
  by_products = [];
  next_header = 2;
  next_version = 3;
  next_item = 4;
  next_operation = 1;
  next_by_product = 1;
}

table-IsForest : IsForest table.items
table-IsForest = (
  (leg, refl, refl, refl),
  (omega arith, (omega arith, tt)),
  (refl, (omega arith, tt), (refl, tt, tt)),
)

table-IsSound : IsSound table
table-IsSound = record {
  versioned = record {
    newest_first = ((omega arith, tt), (tt, tt));
    one_active = λ h. ground arith;
    one_number = λ h n. ground arith;
  };
  known_versions = (omega arith, (omega arith, tt));
  forest = table-IsForest;
  known_items = (omega arith, (omega arith, (omega arith, tt)));
}

abbrev in_use : Boms
in_use = activate 1 1 9 table

activated_first : activate_version 1 9 table ≡ ok (tt, in_use)
unfolding activate_version
activated_first = refl

in_use-IsSound : IsSound in_use
in_use-IsSound = record {
  versioned = record {
    newest_first = ((omega arith, tt), (tt, tt));
    one_active = λ h. ground arith;
    one_number = λ h n. ground arith;
  };
  known_versions = (omega arith, (omega arith, tt));
  forest = table-IsForest;
  known_items = (omega arith, (omega arith, (omega arith, tt)));
}

Reach-IsSound_example : IsSound in_use
Reach-IsSound_example =
    Reach-IsSound table in_use (next here (activated 1 9 activated_first)) table-IsSound

found_active :
    get_active_version_for_variant 10 in_use
    ≡ ok (record (version 1) { status = VersionStatus.active; approved_by = some 9 }, in_use)
unfolding get_active_version_for_variant
found_active = refl

abbrev glue : BomItemDto
glue = record {
  parent_item_id = none;
  variant_id = 12;
  quantity = 5000;
  uom_id = 1;
  scrap_pct = none;
  is_phantom = none;
  sequence = none;
}

added_glue :
    add_item as_strings 2 glue in_use
    ≡ ok (new_bom_item 2 glue 0 in_use, insert_bom_item (new_bom_item 2 glue 0 in_use) in_use)
unfolding add_item
added_glue = refl

Step-Frozen_example :
    items_of_version 1 (insert_bom_item (new_bom_item 2 glue 0 in_use) in_use)
    ≡ items_of_version 1 in_use
Step-Frozen_example =
    Step-Frozen 1 (record (version 1) { status = VersionStatus.active; approved_by = some 9 })
      in_use (insert_bom_item (new_bom_item 2 glue 0 in_use) in_use)
      (added_item as_strings 2 glue (new_bom_item 2 glue 0 in_use) added_glue) in_use-IsSound refl
      refl

explode_bom-IsComplete_example :
    (e : Explosion) × (explode_bom 1 30000 table ≡ ok (some e, table))
    × IsComplete 1 30000 (version 1) table e
explode_bom-IsComplete_example =
    explode_bom-IsComplete 1 30000 (version 1) table refl (omega arith) table-IsForest

-- A component that is its own parent's variant: refused only if the driver gives numbers.
abbrev leg_in_leg : BomItemDto
leg_in_leg = record glue { parent_item_id = some 2 }

refused : add_item as_numbers 1 leg_in_leg table ≡ err bad_request
unfolding add_item
refused = refl

accepted :
    add_item as_strings 1 leg_in_leg table
    ≡ ok (
      new_bom_item 1 leg_in_leg 1 table,
      insert_bom_item (new_bom_item 1 leg_in_leg 1 table) table,
    )
unfolding add_item
accepted = refl
