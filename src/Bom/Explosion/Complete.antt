-- ===== src/Bom/Explosion/Complete.antt =====
-- The recursive query ends, and gives every component of the version once.
use backend_erp.Prelude.{
  ℕ, zero, suc, ◌+◌, ◌≤◌, ◌==◌, leb, if◌then◌else◌, ◌≡◌, refl, sym, ◌∙◌, Bool, false, some, List,
  [], ◌∷◌, ◌++◌, ◌&&◌, arith, All-map, map, sum_of, length, select_where, sum_of-append,
  sum_of-cong, sum_of-same, subst, ◌<◌, ap, ◌*◌, All, sum_of-zero, sum_of-select_where, sum_of-add,
}
use backend_erp.Database.{ok}
use backend_erp.Bom.Schema.{Version, BomItem, Boms, find_version}
use backend_erp.Bom.Explosion.{
  is_root_of, children_of, rounds, bom_tree, in_order, Ratio, scaled, Exploded, explosion_of,
  Explosion, explode_bom,
}
use backend_erp.Bom.Forest.{IsForest, IsForest-levels}
use backend_erp.Bom.Explosion.Order.{sum_of-in_order, IsOrdered, in_order-IsOrdered}
use backend_erp.Bom.Explosion.Levels.{
  is_at_level, IsLevel, select_where-IsLevel, children_of-IsLevel,
}

abbrev is_from_level : ℕ → ℕ → BomItem → Bool
is_from_level version_id k i = i.bom_version_id == version_id && leb k i.level

-- Rows that hold the items of the version from a level on.
abbrev IsFrom : ℕ → ℕ → List BomItem → List BomItem → Type 0
IsFrom version_id k items rows =
    (f : BomItem → ℕ)
    → sum_of f rows ≡ sum_of (λ i. if is_from_level version_id k i then f i else 0) items

module _ (version_id : ℕ) (items : List BomItem) (forest : IsForest items) where
  nothing_deep :
      (k : ℕ) (test : ℕ → BomItem → Bool) (f : BomItem → ℕ)
      → ((i : BomItem) → i.level < k → test k i ≡ false)
      → length items ≤ k
      → sum_of (λ i. if test k i then f i else 0) items ≡ 0
  nothing_deep k test f none_deep h =
      sum_of-cong _ (λ _. 0) items
        (All-map _ _ items (λ i lt. ground (arith, none_deep i (omega (arith, lt, h))))
          (IsForest-levels items forest))
      ∙ sum_of-zero items

  level_and_deeper :
      (k : ℕ) (f : BomItem → ℕ) (i : BomItem)
      → (if is_at_level version_id k i then f i else 0)
          + (if is_from_level version_id (suc k) i then f i else 0)
        ≡ (if is_from_level version_id k i then f i else 0)
  level_and_deeper k f i = ground arith

  append-IsFrom :
      (k : ℕ) (bs rest : List BomItem)
      → IsLevel version_id items forest k bs
      → IsFrom version_id (suc k) items rest
      → IsFrom version_id k items (bs ++ rest)
  append-IsFrom k bs rest level deeper f =
      sum_of-append f bs rest
      ∙ omega (
        arith,
        level f,
        deeper f,
        sum_of-add (λ i. if is_at_level version_id k i then f i else 0)
            (λ i. if is_from_level version_id (suc k) i then f i else 0) items,
      )
      ∙ sum_of-same _ _ items (level_and_deeper k f)

  -- A query that has `fuel` rounds left at level k, where no item lies `fuel` levels deeper.
  rounds-IsFrom :
      (fuel k : ℕ) (bs : List BomItem)
      → IsLevel version_id items forest k bs
      → length items ≤ fuel + k
      → (rows : List BomItem) × (rounds fuel items bs ≡ some rows) × IsFrom version_id k items rows
  rounds-IsFrom zero k [] level h = (
    [],
    refl,
    λ f. sym (nothing_deep k (is_from_level version_id) f (λ i lt. ground arith) (omega arith)),
  )
  rounds-IsFrom (suc fuel) k [] level h =
      let next = children_of-IsLevel version_id items forest k [] level in
      let (rows, ends, deeper) = rounds-IsFrom fuel (suc k) [] next (omega arith) in
      let same : [] ≡ rows = ground (arith, ends) in
      (
        [],
        refl,
        append-IsFrom k [] [] level (subst (IsFrom version_id (suc k) items) (sym same) deeper),
      )
  rounds-IsFrom zero k (b ∷ bs) level h =
      let deep =
        nothing_deep k (is_at_level version_id) (λ _. 1) (λ i lt. ground arith) (omega arith) in
      absurd (omega (arith, deep, level (λ _. 1)))
  rounds-IsFrom (suc fuel) k (b ∷ bs) level h =
      let next = children_of-IsLevel version_id items forest k (b ∷ bs) level in
      let (rows, ends, deeper) =
        rounds-IsFrom fuel (suc k) (children_of items (b ∷ bs)) next (omega arith) in
      ((b ∷ bs) ++ rows, rw (rounds, ends) refl, append-IsFrom k (b ∷ bs) rows level deeper)

abbrev pub items_of_version : ℕ → Boms → List BomItem
items_of_version version_id s = select_where (λ i. i.bom_version_id == version_id) s.items

bom_tree-ends :
    (version_id : ℕ) (s : Boms)
    → IsForest s.items
    → (rows : List BomItem) × (bom_tree version_id s.items ≡ some rows)
      × ((f : BomItem → ℕ) → sum_of f rows ≡ sum_of f (items_of_version version_id s))
      × IsOrdered rows
bom_tree-ends version_id s forest =
    let (rows, ends, all) =
      rounds-IsFrom version_id s.items forest (length s.items) 0
        (select_where (is_root_of version_id) s.items)
        (select_where-IsLevel version_id s.items forest) (omega arith) in
    (
      in_order rows,
      rw (bom_tree, ends) refl,
      λ f.
          sum_of-in_order f rows
          ∙ all f
          ∙ sum_of-same _ _ s.items (λ i. ground arith)
          ∙ sym (sum_of-select_where f (λ i. i.bom_version_id == version_id) s.items),
      in_order-IsOrdered rows,
    )

-- The ratio is what `quantity` is of `output_quantity`, `n` times over.
abbrev pub IsShare : ℕ → ℕ → ℕ → Ratio → Type 0
IsShare n quantity output_quantity r =
    (0 < r.denominator) × (r.numerator * output_quantity ≡ n * quantity * r.denominator)

abbrev pub IsScaled : ℕ → ℕ → Exploded → Type 0
IsScaled quantity output_quantity row =
    IsShare row.item.quantity quantity output_quantity row.quantity_required
    × IsShare row.item.quantity_with_scrap quantity output_quantity row.quantity_required_with_scrap

-- `items` names each component of the version once: a sum over the rows, for any weight, is the sum
-- over the version's items.
pub record IsComplete (version_id quantity : ℕ) (version : Version) (s : Boms) (e : Explosion)
    : Type 0 where
  pub asked : e.output_quantity ≡ quantity
  pub ratio : IsShare 1 quantity version.output_quantity e.ratio
  pub all :
      (f : BomItem → ℕ)
      → sum_of (λ row. f row.item) e.items ≡ sum_of f (items_of_version version_id s)
  pub scaled_rows : All (IsScaled quantity version.output_quantity) e.items
  pub ordered : IsOrdered (map (λ row. row.item) e.items)

module _ (r : Ratio) where
  sum_of-scaled :
      (f : BomItem → ℕ) (is : List BomItem)
      → sum_of (λ row. f row.item) (map (scaled r) is) ≡ sum_of f is
  sum_of-scaled f [] = refl
  sum_of-scaled f (i ∷ is) = omega (arith, sum_of-scaled f is)

  item-scaled : (is : List BomItem) → map (λ row. row.item) (map (scaled r) is) ≡ is
  item-scaled [] = refl
  item-scaled (i ∷ is) = ap (λ js. i ∷ js) (item-scaled is)

  scaled-IsScaled :
      (quantity output_quantity : ℕ) (is : List BomItem)
      → r.numerator ≡ quantity
      → r.denominator ≡ output_quantity
      → 0 < output_quantity
      → All (IsScaled quantity output_quantity) (map (scaled r) is)
  scaled-IsScaled quantity output_quantity [] n d h = tt
  scaled-IsScaled quantity output_quantity (i ∷ is) n d h = (
    ((rw d h, rw (n, d) refl), (rw d h, rw (n, d) refl)),
    scaled-IsScaled quantity output_quantity is n d h,
  )

-- Of a version that exists and whose output quantity is not 0, in a table of items where parents
-- come before their children and levels are depths: the recursive query of an explosion ends, its
-- rows are the items of the version, of all levels, each once, and none else, by level and sequence,
-- and each required quantity is that of the item, times the quantity asked for, divided by the
-- output quantity of the version.
pub explode_bom-IsComplete :
    (version_id quantity : ℕ) (version : Version) (s : Boms)
    → find_version version_id s.versions ≡ some version
    → 0 < version.output_quantity
    → IsForest s.items
    → (e : Explosion) × (explode_bom version_id quantity s ≡ ok (some e, s))
      × IsComplete version_id quantity version s e
unfolding explode_bom
explode_bom-IsComplete version_id quantity version s found positive forest =
    let (rows, ends, all, ordered) = bom_tree-ends version_id s forest in
    let r : Ratio = record { numerator = quantity; denominator = version.output_quantity } in
    (
      explosion_of version_id quantity r rows,
      rw (found, ends) refl,
      record {
        asked = refl;
        ratio = (positive, omega arith);
        all = λ f. sum_of-scaled r f rows ∙ all f;
        scaled_rows = scaled-IsScaled r quantity version.output_quantity rows refl refl positive;
        ordered = subst IsOrdered (sym (item-scaled r rows)) ordered;
      },
    )
