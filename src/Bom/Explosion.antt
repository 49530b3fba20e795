-- ===== src/Bom/Explosion.antt =====
-- `explodeBom` of src/modules/bom/services/bom.service.ts: all components of a version, found level
-- by level by a recursive query. Its joins with variants, products and units give one row for each
-- item, since the foreign keys are not null.
--
-- PostgreSQL evaluates such a query in rounds: the working table of a round holds the items whose
-- parents are in the one before, until it is empty. A query that would never end is `none` here.
pub mod Levels
pub mod Order
pub mod Complete
use backend_erp.Prelude.{
  ℕ, zero, suc, ◌*◌, ◌==◌, ltb, if◌then◌else◌, Bool, true, false, ◌&&◌, ◌||◌, Option, none, some,
  List, [], ◌∷◌, ◌++◌, map, length, select_where,
}
use backend_erp.Database.{Action, not_found, ◌>>=◌, pure, gets, or_throw}
use backend_erp.Bom.Schema.{BomItem, Boms, find_version}
use backend_erp.Bom.Items.{is_child_of}

abbrev pub is_root_of : ℕ → BomItem → Bool
is_root_of version_id i =
    i.bom_version_id == version_id && elim i.parent_item_id [ none ↦ true | some _ ↦ false ]

-- `JOIN bom_tree bt ON bt.item_id = bi.parent_item_id`, for a working table
abbrev pub children_of : List BomItem → List BomItem → List BomItem
children_of items [] = []
children_of items (b ∷ bs) = select_where (is_child_of b.id) items ++ children_of items bs

abbrev pub rounds : ℕ → List BomItem → List BomItem → Option (List BomItem)
rounds fuel items [] = some []
rounds zero items (b ∷ bs) = none
rounds (suc fuel) items (b ∷ bs) = elim (rounds fuel items (children_of items (b ∷ bs))) [
  | none ↦ none
  | some rest ↦ some ((b ∷ bs) ++ rest)
]

-- ORDER BY level, sequence
abbrev pub is_after : BomItem → BomItem → Bool
is_after i j = ltb j.level i.level || (i.level == j.level && ltb j.sequence i.sequence)

abbrev pub insert_in_order : BomItem → List BomItem → List BomItem
insert_in_order i [] = i ∷ []
insert_in_order i (j ∷ js) = if is_after i j then j ∷ insert_in_order i js else i ∷ j ∷ js

abbrev pub in_order : List BomItem → List BomItem
in_order [] = []
in_order (i ∷ is) = insert_in_order i (in_order is)

-- WITH RECURSIVE bom_tree
abbrev pub bom_tree : ℕ → List BomItem → Option (List BomItem)
bom_tree version_id items =
    elim (rounds (length items) items (select_where (is_root_of version_id) items)) [
      | none ↦ none
      | some rows ↦ some (in_order rows)
    ]

-- The number `numerator / denominator`, which JavaScript approximates.
pub record Ratio : Type 0 where
  pub numerator : ℕ
  pub denominator : ℕ

abbrev pub times : ℕ → Ratio → Ratio
times n r = record { numerator = n * r.numerator; denominator = r.denominator }

-- a row of `items`
pub record Exploded : Type 0 where
  pub item : BomItem
  pub quantity_required : Ratio
  pub quantity_required_with_scrap : Ratio

abbrev pub scaled : Ratio → BomItem → Exploded
scaled ratio i = record {
  item = i;
  quantity_required = times i.quantity ratio;
  quantity_required_with_scrap = times i.quantity_with_scrap ratio;
}

pub record Explosion : Type 0 where
  pub version_id : ℕ
  pub output_quantity : ℕ
  pub ratio : Ratio
  pub items : List Exploded

-- what `explodeBom` returns
abbrev pub explosion_of : ℕ → ℕ → Ratio → List BomItem → Explosion
explosion_of version_id quantity ratio rows = record {
  version_id = version_id;
  output_quantity = quantity;
  ratio = ratio;
  items = map (scaled ratio) rows;
}

-- `explodeBom`
unfoldable pub explode_bom : ℕ → ℕ → Action Boms (Option Explosion)
explode_bom version_id quantity = do
  version ← or_throw (← gets (λ s. find_version version_id s.versions)) not_found
  let ratio : Ratio = record { numerator = quantity; denominator = version.output_quantity }
  rows ← gets (λ s. bom_tree version_id s.items)
  pure (elim rows [ none ↦ none | some is ↦ some (explosion_of version_id quantity ratio is) ])
